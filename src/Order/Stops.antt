-- ===== src/Order/Stops.antt =====
-- Protective stops: signald/order/stops.py, and `client_order_id` of signald/order/guard.py. The reason
-- of a plan, a text that people read, is not modelled.
pub mod SafeSide
pub mod Tests
use Prim.Native.String.{◌++◌ as append}
use trading_execution.Prelude.{
  ℕ, ◌*◌, ◌^◌, Bool, true, false, not, Option, none, some, List, [], ◌∷◌, ◌++◌, String, str_eq,
  if◌then◌else◌, ◌||◌, ◌&&◌, sort, text_le, get_or, is_empty,
}
use trading_execution.Prelude.Int.{ℤ, pos}
use trading_execution.Prelude.Float.{
  Float, fin, Arith, is_finite, leb_f, ltb_f, eqb_f, max_f, abs_f, zero_f, half_f,
}
use trading_execution.Prelude.Results.{Result, ok, err, ◌>>=◌, ◌>>◌, guard, or_raise}
use trading_execution.Json.{one_of}
use trading_execution.Order.Intent.{OrderIntent}
use trading_execution.Order.Prices.{round_price}
use trading_execution.Order.Policy.{Runtime, Costs, deviation_bps, ten_thousand_f}
use trading_execution.Risk.State.{Position, MarketState}

-- What the code calls of Python's runtime on top of what the policy calls.
pub record Tools : Type 0 where
  pub r : Runtime
  -- `round(x)` and `int(x)`: `none` raises OverflowError or ValueError
  pub round_int : Float → Option ℤ
  pub truncate : Float → Option ℤ
  -- `_ID_STRIP.sub("", text)` and `text[:n]`
  pub strip_id : String → String
  pub cut : ℕ → String → String
  -- `float(x)` of the literal 0.01, which is `TICK`
  pub tick : Float

-- The fields of `Config` that the stops read; `now` is the text of the clock's reading.
pub record StopConfig : Type 0 where
  pub costs : Costs
  pub stop_atr_mult : Float
  pub stop_mae_pctl : Float
  pub now : String

-- `StopPlan`
pub record StopPlan : Type 0 where
  pub trigger_price : Float
  pub limit_price : Float
  pub qty : ℤ
  pub adjusted_for_cluster : Bool

abbrev pub is_positive : Float → Bool
is_positive x = is_finite x && ltb_f zero_f x

module _ (w : Tools) where
  abbrev pub snapped : Float → Result String Float
  snapped price = round_price w.r.round price

  -- `client_order_id`
  unfoldable pub client_order_id : String → String → String → String
  client_order_id sleeve key leg = w.cut 48 (
      append (w.cut 3 (w.strip_id sleeve))
        (append "-" (append (w.cut 32 (w.strip_id key)) (append "-" (w.strip_id leg)))))

  -- `stop_distance`
  unfoldable pub stop_distance : Float → Float → StopConfig → Result String Float
  stop_distance atr mae_pctl c = do
    guard (is_positive atr) "ATR must be finite and positive"
    guard (is_finite mae_pctl && leb_f zero_f mae_pctl) "MAE percentile must be finite and >= 0"
    ok (max_f (max_f (w.r.a.mul c.stop_atr_mult atr) mae_pctl) atr)

  -- a level, if the price is within one tick of it
  abbrev pub near : Float → Float → List Float
  near price level = if leb_f (abs_f (w.r.a.sub price level)) w.tick then level ∷ [] else []

  abbrev pub near_prior : Float → Option Float → List Float
  near_prior price none = []
  near_prior price (some prior) = if is_finite prior then near price prior else []

  -- `_cluster_levels`; the market state has no band edges
  unfoldable pub cluster_levels : Float → MarketState → Result String (List Float)
  cluster_levels price m = do
    n ← or_raise (w.round_int (w.r.a.div price half_f)) "OverflowError"
    whole ← or_raise (w.r.a.of_int n) "OverflowError"
    ok (
        near price (w.r.a.mul whole half_f)
        ++ (near_prior price m.last_bar_high ++ near_prior price m.last_bar_low))

  -- `min(levels, key=lambda lvl: abs(price - lvl))`, from the first level on
  unfoldable pub nearest : Float → Float → List Float → Float
  nearest price best [] = best
  nearest price best (l ∷ ls) =
      nearest price
        (if ltb_f (abs_f (w.r.a.sub price l)) (abs_f (w.r.a.sub price best)) then l else best) ls

  abbrev pub step_off : Float → List Float → Result String Float
  step_off price [] = ok price
  step_off price (l ∷ ls) =
      snapped (
        if leb_f price (nearest price l ls) then w.r.a.sub price w.tick else w.r.a.add price w.tick)

  -- `cluster_clearance`
  unfoldable pub cluster_clearance : Float → MarketState → Result String Float
  unfolding cluster_levels nearest
  cluster_clearance price m = do
    guard (is_positive price) "stop level must be finite and positive"
    levels ← cluster_levels price m
    step_off price levels

  -- the limit below a trigger, and above it
  unfoldable pub limit_below : Float → Float → Result String Float
  limit_below trigger offset = do
    limit ← snapped (w.r.a.sub trigger offset)
    if leb_f trigger limit then snapped (w.r.a.sub trigger w.tick) else ok limit

  unfoldable pub limit_above : Float → Float → Result String Float
  limit_above trigger offset = do
    limit ← snapped (w.r.a.add trigger offset)
    if leb_f limit trigger then snapped (w.r.a.add trigger w.tick) else ok limit

  abbrev pub limit_beside : String → Float → Float → Result String Float
  limit_beside side trigger offset =
      if str_eq side "sell" then limit_below trigger offset else limit_above trigger offset

  abbrev pub normal : String → String
  normal side = w.r.t.lower (w.r.t.strip side)

  -- `protective_limit`
  unfoldable pub protective_limit : Float → String → Float → Float → Result String Float
  unfolding limit_below limit_above
  protective_limit trigger side deviation reference = do
    guard (one_of (normal side) ("buy" ∷ "sell" ∷ [])) "unknown protective side"
    guard (is_positive reference) "reference price must be finite and positive"
    let offset = w.r.a.div (w.r.a.mul (abs_f reference) (abs_f deviation)) ten_thousand_f
    level ← snapped trigger
    limit_beside (normal side) level offset

  abbrev pub is_long : String → Bool
  is_long side = str_eq (normal side) "long"

  -- `plan_stop`
  unfoldable pub plan_stop :
      Position → Float → String → Float → StopConfig → MarketState → Result String StopPlan
  unfolding stop_distance cluster_clearance protective_limit
  plan_stop p atr side deviation c m = do
    guard (one_of (normal side) ("long" ∷ "short" ∷ [])) "side must be 'long' or 'short'"
    let reference = get_or p.last p.avg_entry
    guard (is_positive reference) "no usable reference price"
    distance ← stop_distance atr (w.r.a.mul c.stop_mae_pctl atr) c
    let raw = (if is_long side then w.r.a.sub reference distance else w.r.a.add reference distance)
    cleared ← cluster_clearance raw m
    trigger ← snapped cleared
    limit ← protective_limit trigger (if is_long side then "sell" else "buy") deviation reference
    qty ← or_raise (w.truncate (abs_f p.qty)) "OverflowError"
    ok (record {
      trigger_price = trigger;
      limit_price = limit;
      qty = qty;
      adjusted_for_cluster = not (eqb_f cleared raw);
    })

  -- the leg of a position with a level, at its mark or else at the level
  abbrev pub usable : Float → Float → Float
  usable reference level = if is_positive reference then reference else level

  abbrev pub leaving_side : Position → String
  leaving_side p = if ltb_f zero_f p.qty then "sell" else "buy"

  unfoldable pub protective_leg : Position → Float → StopConfig → Result String OrderIntent
  unfolding protective_limit client_order_id deviation_bps
  protective_leg p level c = do
    limit ←
        protective_limit level (leaving_side p) (deviation_bps w.r none c.costs)
          (usable (get_or p.last p.avg_entry) level)
    let cid = client_order_id p.sleeve p.symbol "stop"
    qty ← or_raise (w.truncate (abs_f p.qty)) "OverflowError"
    stop ← snapped level
    ok (record {
      intent_id = append "stop-" cid;
      sleeve = p.sleeve;
      symbol = p.symbol;
      side = leaving_side p;
      qty = qty;
      order_type = "stop_limit";
      limit_price = some limit;
      stop_price = some stop;
      tif = "day";
      client_order_id = cid;
      created_at = c.now;
      parent_proposal_id = none;
      extended_hours = false;
    })

  -- the level of a position that is to be protected
  abbrev pub level_of : List String → Position → Option Float
  level_of covered p =
      if eqb_f p.qty zero_f || one_of p.symbol covered
      then none
      else elim p.stop [ none ↦ none | some level ↦ if is_positive level then some level else none ]

  unfoldable pub legs_of :
      List String → List Position → StopConfig → Result String (List OrderIntent)
  unfolding protective_leg
  legs_of covered [] c = ok []
  legs_of covered (p ∷ ps) c =
      let rest = legs_of covered ps c in
      elim (level_of covered p) [
        | none ↦ rest
        | some level ↦ protective_leg p level c >>= λ leg. rest >>= λ legs. ok (leg ∷ legs)
      ]

  -- `protective_orders`
  unfoldable pub protective_orders :
      List Position → List String → StopConfig → Result String (List OrderIntent)
  unfolding legs_of sort
  protective_orders positions covered c =
      legs_of covered (sort (λ p q. text_le p.symbol q.symbol) positions) c
