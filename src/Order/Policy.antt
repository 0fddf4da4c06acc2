-- ===== src/Order/Policy.antt =====
-- The child orders of one sized intent: signald/order/policy.py. The rationale, a text that people
-- read, is not modelled.
pub mod Children
pub mod Tests
use trading_execution.Prelude.{
  ℕ, zero, suc, ◌+◌, ◌-◌, ◌*◌, ◌/◌, ◌%◌, ◌^◌, Bool, true, false, not, Option, none, some, List, [],
  ◌∷◌, String, str_eq, if◌then◌else◌, ◌||◌, ◌&&◌, leb,
}
use trading_execution.Prelude.Int.{ℤ, pos, negsuc}
use trading_execution.Prelude.Float.{
  Float, fin, Arith, is_finite, leb_f, ltb_f, eqb_f, max_f, zero_f, one_f,
}
use trading_execution.Prelude.Results.{Result, ok, err, ◌>>=◌, ◌>>◌, guard, or_raise}
use trading_execution.Json.{Text, one_of}
use trading_execution.Order.Prices.{round_price, tick_for}
use trading_execution.Risk.State.{MarketState, RiskRequest}

-- What the code calls of Python's runtime: rounding arithmetic, `round(x, n)`, `math.ceil`, which raises
-- OverflowError where there is no integer, the literals that are no binary fractions, and texts.
pub record Runtime : Type 0 where
  pub a : Arith
  pub t : Text
  pub round : Float → ℕ → Float
  pub ceil : Float → Option ℤ
  -- 0.05, and the tick 10^-n
  pub participation_cap : Float
  pub tick : ℕ → Float

-- The fields of `Config` that the policy reads.
pub record Costs : Type 0 where
  pub cost_liquid_bps : Float
  pub cost_lowfloat_bps : Float

-- `ChildOrder`
pub record ChildOrder : Type 0 where
  pub seq : ℕ
  pub qty : ℕ
  pub order_type : String
  pub limit_price : Float
  pub notional_usd : Float
  pub style : String

-- `OrderPlan`
pub record OrderPlan : Type 0 where
  pub orders : List ChildOrder
  pub style : String
  pub deviation_bps : Float

abbrev pub resting : String
resting = "resting_limit"

abbrev pub marketable : String
marketable = "marketable_limit"

-- 5.0, 2.0 and 1e4
unfoldable pub min_deviation_bps : Float
min_deviation_bps = fin (pos (5 * 2 ^ 1074))

unfoldable pub two_f : Float
two_f = fin (pos (2 ^ 1075))

unfoldable pub ten_thousand_f : Float
ten_thousand_f = fin (pos (10000 * 2 ^ 1074))

-- `_child_sizes`: `n` children of the base and the last
unfoldable pub equal_then : ℕ → ℕ → ℕ → List ℕ
equal_then zero base last = last ∷ []
equal_then (suc n) base last = base ∷ equal_then n base last

-- `_child_sizes`
unfoldable pub child_sizes : ℕ → ℕ → List ℕ
unfolding equal_then
child_sizes qty count = equal_then (count - 1) (qty / count) (qty / count + qty % count)

-- `max(1, count)`
abbrev pub at_least_one : ℤ → ℕ
at_least_one (pos n) = if leb n 1 then 1 else n
at_least_one (negsuc n) = 1

-- `min(MAX_CHILDREN, max(1, count))` and `min(count, qty)`
unfoldable pub bounded_count : ℕ → ℤ → ℕ
bounded_count qty count =
    let low = at_least_one count in
    let high = if leb low 5 then low else 5 in if leb high qty then high else qty

module _ (r : Runtime) where
  -- `style_for`
  unfoldable pub style_for : String → String
  style_for setup =
      let name = r.t.upper (r.t.strip setup) in
      if one_of name ("VWAP_REVERT" ∷ "GAP_FADE" ∷ []) then resting else marketable

  -- `deviation_bps`
  unfoldable pub deviation_bps : Option Float → Costs → Float
  unfolding min_deviation_bps two_f
  deviation_bps spread c =
      let cap = max_f min_deviation_bps (r.a.div c.cost_liquid_bps two_f) in
      elim spread [ none ↦ cap | some s ↦ if is_finite s then max_f cap (r.a.mul two_f s) else cap ]

  -- `_slice_count` of a volume that is known
  unfoldable pub count_of : ℕ → Float → Result String ℕ
  unfolding bounded_count
  count_of qty adv = do
    let per_child = r.a.mul r.participation_cap adv
    q ← or_raise (r.a.of_int (pos qty)) "OverflowError"
    guard (not (eqb_f per_child zero_f)) "ZeroDivisionError"
    count ← or_raise (r.ceil (r.a.div q per_child)) "OverflowError"
    ok (bounded_count qty count)

  -- `_slice_count`
  unfoldable pub slice_count : ℕ → Option Float → Result String ℕ
  unfolding count_of
  slice_count qty none = ok 1
  slice_count qty (some adv) = if is_finite adv && ltb_f zero_f adv then count_of qty adv else ok 1

  abbrev pub is_buy : String → Bool
  is_buy side = str_eq side "buy"

  -- a limit that is stepped by one tick
  abbrev pub tick_up : Float → Result String Float
  tick_up limit = round_price r.round (r.a.add limit (r.tick (tick_for limit)))

  abbrev pub tick_down : Float → Result String Float
  tick_down limit = round_price r.round (r.a.sub limit (r.tick (tick_for limit)))

  -- the price that a marketable limit aims at
  unfoldable pub crossing : Float → String → Float → Float
  unfolding ten_thousand_f one_f
  crossing price side deviation =
      let share = r.a.div deviation ten_thousand_f in
      r.a.mul price (if is_buy side then r.a.add one_f share else r.a.sub one_f share)

  -- a marketable limit that does not cross is stepped over the touch
  abbrev pub cross : Float → String → Float → Result String Float
  cross price side limit =
      if is_buy side && leb_f limit price
      then tick_up limit
      else if str_eq side "sell" && leb_f price limit
      then tick_down limit
      else ok limit

  -- a resting limit that would cross is stepped back
  abbrev pub rest : Float → String → Float → Result String Float
  rest price side limit =
      if is_buy side && ltb_f price limit
      then tick_down limit
      else if str_eq side "sell" && ltb_f limit price
      then tick_up limit
      else ok limit

  -- `_limit_price`
  unfoldable pub limit_price : Float → String → Float → String → Result String Float
  unfolding crossing
  limit_price price side deviation style =
      if str_eq style marketable
      then round_price r.round (crossing price side deviation) >>= cross price side
      else round_price r.round price >>= rest price side

  -- `round(size * limit, 2)`: the size becomes a float first
  abbrev pub notional_of : ℕ → Float → Result String Float
  notional_of size limit = do
    q ← or_raise (r.a.of_int (pos size)) "OverflowError"
    ok (r.round (r.a.mul q limit) 2)

  abbrev pub type_of : String → String
  type_of style = if str_eq style resting then "limit" else marketable

  -- the children, numbered from `seq`
  unfoldable pub children : ℕ → List ℕ → Float → String → Result String (List ChildOrder)
  children seq [] limit style = ok []
  children seq (size ∷ sizes) limit style = do
    notional ← notional_of size limit
    rest ← children (suc seq) sizes limit style
    ok (
        record {
          seq = seq;
          qty = size;
          order_type = type_of style;
          limit_price = limit;
          notional_usd = notional;
          style = style;
        }
        ∷ rest)

  -- the deviation cap, wider for a forced exit
  abbrev pub cap_of : Option Float → Costs → Bool → Float
  cap_of spread c urgent =
      let deviation = deviation_bps spread c in
      if urgent then max_f deviation c.cost_lowfloat_bps else deviation

  -- `_build` behind its guards
  unfoldable pub build_children :
      ℕ → Float → String → MarketState → Costs → String → Bool → Result String OrderPlan
  unfolding deviation_bps slice_count child_sizes limit_price children
  build_children qty price side market c style urgent = do
    let deviation = cap_of market.spread_bps c urgent
    count ← slice_count qty market.adv_shares
    limit ← limit_price price side deviation style
    orders ← children 0 (child_sizes qty count) limit style
    ok (record { orders = orders; style = style; deviation_bps = deviation })

  -- `_build`
  unfoldable pub build :
      RiskRequest → ℤ → MarketState → Costs → String → Bool → Result String OrderPlan
  unfolding build_children
  build q (negsuc n) market c style urgent = err "order quantity must be >= 1 share"
  build q (pos n) market c style urgent = do
    guard (leb 1 n) "order quantity must be >= 1 share"
    price ← or_raise market.last "market.last is required to price child orders"
    guard (is_finite price && ltb_f zero_f price) "market.last is required to price child orders"
    let side = r.t.lower (r.t.strip q.side)
    guard (one_of side ("buy" ∷ "sell" ∷ [])) "unknown order side"
    guard (one_of style (marketable ∷ resting ∷ [])) "unknown execution style"
    build_children n price side market c style urgent

  -- `plan_entry`
  unfoldable pub plan_entry :
      RiskRequest → ℤ → MarketState → Costs → Option String → Result String OrderPlan
  unfolding build style_for
  plan_entry q qty market c style =
      build q qty market c (elim style [ none ↦ style_for q.setup | some s ↦ s ]) false

  -- `plan_exit`
  unfoldable pub plan_exit : RiskRequest → ℤ → MarketState → Costs → Bool → Result String OrderPlan
  unfolding build
  plan_exit q qty market c urgent = build q qty market c marketable urgent
