-- ===== src/Order/Flatten/Tests.antt =====
-- A small book at the close, and the theorems on it.
use trading_execution.Prelude.{
  ◌≡◌, refl, ℕ, ◌<◌, ◌*◌, ◌^◌, true, false, not, Option, none, some, List, [], ◌∷◌, String, All,
  any, str_eq, ◌&&◌, sort, insert_sorted, if◌then◌else◌, ◌==◌,
}
use trading_execution.Prelude.Int.{pos}
use trading_execution.Prelude.Float.{Float, fin}
use trading_execution.Prelude.Results.{ok, err}
use trading_execution.Risk.State.{Position}
use trading_execution.Order.Policy.Tests.{hundred}
use trading_execution.Order.Stops.Tests.{tools, config, stops}
use trading_execution.Order.Flatten.{
  dust_shares, is_dust, is_residual, residual_symbols, is_flat, FlattenPlan, flat, verify_from,
  verify_flat, flatten_leg, flatten_legs, manual_symbols, flatten_plan,
}
use trading_execution.Order.Flatten.Coverage.{IsLeg, flatten_plan-Covers}
use trading_execution.Order.Flatten.Verified.{verify_flat-IsRead}

abbrev position : String → ℕ → Option Float → Position
position symbol shares last = record {
  symbol = symbol;
  qty = fin (pos (shares * 2 ^ 1074));
  avg_entry = hundred;
  sleeve = "intraday";
  last = last;
  stop = none;
  setup = none;
  sector = none;
  cluster = none;
}

abbrev book : List Position
book = position "B" 5 none ∷ position "A" 3 (some hundred) ∷ position "C" 1 (some hundred) ∷ []

closes : Unit {0}
unfolding stops sort insert_sorted residual_symbols is_flat verify_from verify_flat flatten_leg
    flatten_legs manual_symbols flatten_plan
closes = tt

unfoldable plan : FlattenPlan
unfolding closes
plan = elim (flatten_plan tools book true true "t" config) [
  | ok p ↦ p
  | err e ↦ record { orders = []; manual = []; use_closing_auction = false }
]

planned : flatten_plan tools book true true "t" config ≡ ok plan
unfolding closes plan
planned = refl

by_hand : plan.manual ≡ "B" ∷ []
unfolding closes plan
by_hand = refl

not_flat : (is_flat dust_shares book).0 ≡ false
unfolding closes
not_flat = refl

flatten_plan-Covers_example :
    (any (λ o. str_eq o.symbol "B") plan.orders
      ≡ any (λ p. str_eq p.symbol "B" && not (is_dust p)) book)
    × All IsLeg plan.orders
flatten_plan-Covers_example =
    flatten_plan-Covers tools book true true "t" "B" config plan not_flat planned

-- The broker shows a position first, and none the second time.
abbrev reads : ℕ → Option (List Position)
reads k = if k == 0 then some book else some []

verified : verify_flat reads 3 ≡ ok flat
unfolding closes
verified = refl

verify_flat-IsRead_example :
    (j : ℕ) × (j < 3)
    × (ps : List Position) × (reads j ≡ some ps)
    × All (λ p. is_residual dust_shares p ≡ false) ps
verify_flat-IsRead_example = verify_flat-IsRead reads 3 verified
