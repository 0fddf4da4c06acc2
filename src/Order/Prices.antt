-- ===== src/Order/Prices.antt =====
-- The tick grid: signald/order/prices.py, without an explicit tick.
use trading_execution.Prelude.{ℕ, Bool, false, String, if◌then◌else◌}
use trading_execution.Prelude.Float.{Float, is_finite, leb_f, eqb_f, abs_f, one_f}
use trading_execution.Prelude.Results.{Result, ok, err}

-- `tick_for`, as the number of decimals of the tick
unfoldable pub tick_for : Float → ℕ
tick_for price = if leb_f one_f (abs_f price) then 2 else 4

-- Python's `round(x, n)` is a parameter.
module _ (round : Float → ℕ → Float) where
  -- `round_price`: a price that is not finite raises ValueError
  unfoldable pub round_price : Float → Result String Float
  unfolding tick_for
  round_price price =
      if is_finite price then ok (round price (tick_for price)) else err "price is not finite"

  -- `price_is_on_grid`
  unfoldable pub price_is_on_grid : Float → Bool
  unfolding round_price
  price_is_on_grid price = elim (round_price price) [
    | err e ↦ false
    | ok rounded ↦ eqb_f rounded price
  ]
