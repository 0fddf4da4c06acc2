-- ===== src/Order/Stops/Tests.antt =====
-- A protective limit, and the theorem on it.
use trading_execution.Prelude.{◌≡◌, refl, true, Option, none, some, arith}
use trading_execution.Prelude.Int.{ℤ, pos, +ℤ_parts, -ℤ_parts}
use trading_execution.Prelude.Float.{Float, nan, inf, neg_inf, fin, leb_f, ltb_f, is_finite, abs_f}
use trading_execution.Prelude.Results.{ok}
use trading_execution.Order.Prices.{round_price}
use trading_execution.Order.Policy.Tests.{runtime, costs, hundred, plans}
use trading_execution.Order.Stops.{
  Tools, StopConfig, snapped, client_order_id, stop_distance, cluster_levels, nearest,
  cluster_clearance, limit_below, limit_above, protective_limit, plan_stop, protective_leg, legs_of,
  protective_orders,
}
use trading_execution.Order.Stops.SafeSide.{LawfulTick, IsBeyond, protective_limit-IsBeyond}

abbrev whole_x : Float → Option ℤ
whole_x (fin n) = some n
whole_x _ = none

abbrev pub tools : Tools
tools = record {
  r = runtime;
  round_int = whole_x;
  truncate = whole_x;
  strip_id = λ s. s;
  cut = λ n s. s;
  tick = fin (pos 1);
}

abbrev pub config : StopConfig
config = record { costs = costs; stop_atr_mult = hundred; stop_mae_pctl = hundred; now = "t" }

unfoldable pub stops : Unit {0}
unfolding plans client_order_id stop_distance cluster_levels nearest cluster_clearance limit_below
    limit_above protective_limit plan_stop protective_leg legs_of protective_orders
stops = tt

snapped_finite : (x t : Float) → snapped tools x ≡ ok t → is_finite t ≡ true
unfolding round_price
snapped_finite x t h = ground (arith, h)

tick_below :
    (x t l : Float)
    → snapped tools x ≡ ok t
    → leb_f (abs_f t) hundred ≡ true
    → snapped tools (tools.r.a.sub t tools.tick) ≡ ok l
    → ltb_f l t ≡ true
unfolding round_price ltb_f
tick_below x (fin n) l h b k = ground (arith, k, -ℤ_parts n (pos 1))
tick_below x nan l h b k = ground (arith, h)
tick_below x inf l h b k = ground (arith, h)
tick_below x neg_inf l h b k = ground (arith, h)

tick_above :
    (x t l : Float)
    → snapped tools x ≡ ok t
    → leb_f (abs_f t) hundred ≡ true
    → snapped tools (tools.r.a.add t tools.tick) ≡ ok l
    → ltb_f t l ≡ true
unfolding round_price ltb_f
tick_above x (fin n) l h b k = ground (arith, k, +ℤ_parts n (pos 1))
tick_above x nan l h b k = ground (arith, h)
tick_above x inf l h b k = ground (arith, h)
tick_above x neg_inf l h b k = ground (arith, h)

tools-LawfulTick : LawfulTick tools hundred
tools-LawfulTick = record { below = tick_below; above = tick_above; number = snapped_finite }

-- The toy arithmetic makes the offset the whole reference.
limited : protective_limit tools hundred "sell" (fin (pos 0)) hundred ≡ ok (fin (pos 0))
unfolding stops
limited = refl

on_grid : round_price tools.r.round hundred ≡ ok hundred
unfolding stops
on_grid = refl

in_bound : leb_f (abs_f hundred) hundred ≡ true
unfolding stops
in_bound = refl

protective_limit-IsBeyond_example :
    IsBeyond tools hundred tools-LawfulTick true hundred (fin (pos 0))
protective_limit-IsBeyond_example =
    protective_limit-IsBeyond tools hundred tools-LawfulTick hundred "sell" (fin (pos 0)) hundred
      hundred (fin (pos 0)) on_grid in_bound limited
