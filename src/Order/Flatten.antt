-- ===== src/Order/Flatten.antt =====
-- The end-of-day flatten: signald/order/flatten.py. Whether the flat-by moment is still ahead, which
-- `seconds_to_flat` reads off the clock, and the text of the clock's
-- reading are arguments.
pub mod Coverage
pub mod Verified
mod Tests
use Prim.Native.String.{◌++◌ as append}
use trading_execution.Prelude.{
  ℕ, zero, suc, Bool, true, false, Option, none, some, List, [], ◌∷◌, String, str_eq, if◌then◌else◌,
  ◌||◌, ◌&&◌, sort, text_le, is_empty, any, leb,
}
use trading_execution.Prelude.Int.{ℤ, pos, leb_ℤ}
use trading_execution.Prelude.Float.{Float, leb_f, ltb_f, abs_f, one_f, zero_f}
use trading_execution.Prelude.Results.{Result, ok, err, ◌>>=◌, ◌>>◌, guard, or_raise}
use trading_execution.Order.Intent.{OrderIntent}
use trading_execution.Order.Policy.{deviation_bps}
use trading_execution.Order.Stops.{
  Tools, StopConfig, is_positive, client_order_id, protective_limit, leaving_side,
}
use trading_execution.Risk.State.{Position}

-- `DUST_SHARES`
abbrev pub dust_shares : Float
dust_shares = one_f

abbrev pub is_residual : Float → Position → Bool
is_residual dust p = ltb_f dust (abs_f p.qty)

-- `abs(float(p.qty)) <= DUST_SHARES`
abbrev pub is_dust : Position → Bool
is_dust p = leb_f (abs_f p.qty) dust_shares

-- The symbols of the positions that are left, each once.
unfoldable pub residual_symbols : Float → List Position → List String
residual_symbols dust [] = []
residual_symbols dust (p ∷ ps) =
    let rest = residual_symbols dust ps in
    if is_residual dust p
    then (if any (λ s. str_eq s p.symbol) rest then rest else p.symbol ∷ rest)
    else rest

-- `is_flat`
unfoldable pub is_flat : Float → List Position → Bool × List String
unfolding residual_symbols sort
is_flat dust positions =
    let residual = sort text_le (residual_symbols dust positions) in (is_empty residual, residual)

-- `FlattenPlan`; `manual` are the symbols that its reason names
pub record FlattenPlan : Type 0 where
  pub orders : List OrderIntent
  pub manual : List String
  pub use_closing_auction : Bool

-- What `verify_flat` answers.
pub data FlatAnswer : Type 0 where
  flat unavailable : FlatAnswer
  residual : List String → FlatAnswer

-- the attempts that are left, and what the last one has found
unfoldable pub verify_from : (ℕ → Option (List Position)) → ℕ → ℕ → FlatAnswer → FlatAnswer
unfolding is_flat
verify_from read k zero last = last
verify_from read k (suc n) last = elim (read k) [
  | none ↦ unavailable
  | some positions ↦
      let seen = is_flat dust_shares positions in
      let rest = verify_from read (suc k) n (residual seen.1) in if seen.0 then flat else rest
]

-- `verify_flat`
unfoldable pub verify_flat : (ℕ → Option (List Position)) → ℕ → Result String FlatAnswer
unfolding verify_from
verify_flat read attempts =
    if leb 1 attempts
    then ok (verify_from read 0 attempts (residual []))
    else err "attempts must be >= 1"

module _ (w : Tools) where
  -- `_leg`
  abbrev pub leg : Position → String → ℤ → Option Float → String → String → OrderIntent
  leg p order_type qty limit tif now = record {
    intent_id = append "flat-" (client_order_id w p.sleeve p.symbol "flat");
    sleeve = p.sleeve;
    symbol = p.symbol;
    side = leaving_side w p;
    qty = qty;
    order_type = order_type;
    limit_price = limit;
    stop_price = none;
    tif = tif;
    client_order_id = client_order_id w p.sleeve p.symbol "flat";
    created_at = now;
    parent_proposal_id = none;
    extended_hours = false;
  }

  abbrev pub usable_price : Option Float → Option Float
  usable_price none = none
  usable_price (some x) = if is_positive x then some x else none

  abbrev pub at_least_one : ℤ → ℤ
  at_least_one q = if leb_ℤ (pos 1) q then q else pos 1

  -- the price of a leg, if there is one and the quantity is a share at least
  abbrev pub price_for : ℤ → Position → Option Float
  price_for qty p = if leb_ℤ (pos 1) qty then usable_price p.last else none

  -- the leg of a position that is not dust
  unfoldable pub flatten_leg : Position → String → String → StopConfig → Result String OrderIntent
  unfolding protective_limit deviation_bps
  flatten_leg p tif now c = do
    qty ← or_raise (w.truncate (abs_f p.qty)) "OverflowError"
    elim (price_for qty p) [
      | none ↦ ok (leg p "needs_manual" (at_least_one qty) none tif now)
      | some price ↦
          protective_limit w price (leaving_side w p) (deviation_bps w.r none c.costs) price
          >>= λ limit. ok (leg p "marketable_limit" qty (some limit) tif now)
    ]

  unfoldable pub flatten_legs :
      List Position → String → String → StopConfig → Result String (List OrderIntent)
  unfolding flatten_leg
  flatten_legs [] tif now c = ok []
  flatten_legs (p ∷ ps) tif now c =
      let rest = flatten_legs ps tif now c in
      if is_dust p
      then rest
      else (flatten_leg p tif now c >>= λ leg. rest >>= λ legs. ok (leg ∷ legs))

  unfoldable pub manual_symbols : List OrderIntent → List String
  manual_symbols [] = []
  manual_symbols (o ∷ os) =
      let rest = manual_symbols os in
      if str_eq o.order_type "needs_manual" then o.symbol ∷ rest else rest

  -- `flatten_plan`
  unfoldable pub flatten_plan :
      List Position → Bool → Bool → String → StopConfig → Result String FlattenPlan
  unfolding is_flat flatten_legs manual_symbols sort
  flatten_plan positions eligible is_before_cutoff now c =
      if (is_flat dust_shares positions).0
      then ok (record { orders = []; manual = []; use_closing_auction = false })
      else (flatten_legs (sort (λ p q. text_le p.symbol q.symbol) positions)
            (if eligible && is_before_cutoff then "cls" else "day") now c
          >>= λ orders. ok (record {
            orders = orders;
            manual = sort text_le (manual_symbols orders);
            use_closing_auction = eligible && is_before_cutoff;
          }))
