-- ===== src/Order/Policy/Tests.antt =====
-- A plan for an entry, and the theorem on it.
use trading_execution.Prelude.{◌≡◌, refl, true, false, Option, none, some, [], length}
use trading_execution.Prelude.Int.{ℤ, pos, ◌+ℤ◌, ◌-ℤ◌}
use trading_execution.Prelude.Float.{sum_with, Float, nan, fin, leb_f, ltb_f, one_f, half_f}
use trading_execution.Prelude.Results.{ok, err}
use trading_execution.Json.{Text}
use trading_execution.Risk.State.{MarketState, RiskRequest}
use trading_execution.Order.Prices.{tick_for, round_price}
use trading_execution.Order.Policy.{
  Runtime, Costs, OrderPlan, min_deviation_bps, two_f, ten_thousand_f, equal_then, child_sizes,
  bounded_count, style_for, deviation_bps, count_of, slice_count, crossing, limit_price, children,
  build_children, build, plan_entry, plan_exit, marketable,
}
use trading_execution.Order.Policy.Children.{IsSound, build-IsSound}

abbrev add_x : Float → Float → Float
add_x (fin a) y = elim y [ fin b ↦ fin (a +ℤ b) | _ ↦ nan ]
add_x _ y = nan

abbrev sub_x : Float → Float → Float
sub_x (fin a) y = elim y [ fin b ↦ fin (a -ℤ b) | _ ↦ nan ]
sub_x _ y = nan

abbrev same_text : Text
same_text = record {
  strip = λ s. s;
  lower = λ s. s;
  upper = λ s. s;
  show = λ v. "";
  repr = λ v. "";
  parse_int = λ s. none;
  parse_float = λ s. none;
  contains = λ a b. false;
}

abbrev ceil_x : Float → Option ℤ
ceil_x (fin n) = some n
ceil_x _ = none

-- Exact sums and differences; every price is on the grid, and a tick is one unit.
abbrev pub runtime : Runtime
runtime = record {
  a = record {
    add = add_x;
    sub = sub_x;
    mul = λ x y. x;
    div = λ x y. x;
    of_int = λ n. some (fin n);
    sum = sum_with add_x (fin (pos 0));
  };
  t = same_text;
  round = λ x n. x;
  ceil = ceil_x;
  participation_cap = fin (pos 2);
  tick = λ n. fin (pos 1);
}

abbrev pub costs : Costs
costs = record { cost_liquid_bps = one_f; cost_lowfloat_bps = one_f }

abbrev pub hundred : Float
hundred = fin (pos 100)

abbrev pub market : MarketState
market = record {
  symbol = "MSFT";
  last = some hundred;
  spread_bps = none;
  spread_median_bps = none;
  quote_age_s = none;
  bar_age_s = none;
  session = some "regular";
  halted = false;
  reopen_cooldown_s = none;
  tradable = true;
  shortable = true;
  ssr = false;
  adv_shares = some hundred;
  atr = none;
  data_quality = "fresh";
  price_caliber = none;
  impulse_pct = none;
  news_shock = false;
  last_bar_high = none;
  last_bar_low = none;
}

abbrev request : RiskRequest
request = record {
  sleeve = "swing";
  symbol = "MSFT";
  setup = "SWING";
  side = "buy";
  stop_distance = hundred;
  price = hundred;
  equity = hundred;
  requested_risk_pct = hundred;
  stop_price = none;
  measured_move_bps = none;
  round_trip_cost_bps = none;
  trailing_volume = none;
  cluster = none;
  sector = none;
  opens_short = false;
  planned_notional_usd = none;
}

unfoldable pub plans : Unit {0}
unfolding ◌+ℤ◌ ◌-ℤ◌ leb_f ltb_f one_f half_f tick_for round_price min_deviation_bps two_f
    ten_thousand_f equal_then child_sizes bounded_count style_for deviation_bps count_of slice_count
    crossing limit_price children build_children build plan_entry plan_exit
plans = tt

unfoldable plan : OrderPlan
unfolding plans
plan = elim (build runtime request (pos 7) market costs marketable false) [
  | ok p ↦ p
  | err e ↦ record { orders = []; style = ""; deviation_bps = nan }
]

five_children : length plan.orders ≡ 5
unfolding plans plan
five_children = refl

planned : build runtime request (pos 7) market costs marketable false ≡ ok plan
unfolding plans plan
planned = refl

build-IsSound_example : IsSound runtime (pos 7) plan
build-IsSound_example =
    build-IsSound runtime request (pos 7) market costs marketable false plan planned
