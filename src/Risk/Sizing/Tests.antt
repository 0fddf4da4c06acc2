-- ===== src/Risk/Sizing/Tests.antt =====
-- A request at the sizer, and the theorem on it.
use trading_execution.Prelude.{◌≡◌, refl, ◌*◌, ◌^◌, true, false, none, some, arith}
use trading_execution.Prelude.Int.{pos}
use trading_execution.Prelude.Float.{sum_with, Float, fin, Arith, leb_f, ltb_f, one_f}
use trading_execution.Risk.State.{RiskRequest, notional_per_share}
use trading_execution.Risk.Sizing.{
  SizingCaps, tighter, floor_f, kelly_cap, scaled_budget, kelly_budget, qty_risk_of,
  qty_liquidity_of, qty_notional_of, levered, decide_qty, size_validated, size,
}
use trading_execution.Risk.Sizing.Caps.{IsReal, IsCapped, size-IsCapped}

-- Every operation keeps its first argument.
abbrev keep : Arith
keep = record {
  add = λ x y. x;
  sub = λ x y. x;
  mul = λ x y. x;
  div = λ x y. x;
  of_int = λ n. some (fin n);
  sum = sum_with (λ x y. x) (fin (pos 0));
}

-- 5.0
abbrev five : Float
five = fin (pos (5 * 2 ^ 1074))

abbrev request : RiskRequest
request = record {
  sleeve = "swing";
  symbol = "MSFT";
  setup = "SWING";
  side = "buy";
  stop_distance = five;
  price = five;
  equity = five;
  requested_risk_pct = five;
  stop_price = some five;
  measured_move_bps = none;
  round_trip_cost_bps = none;
  trailing_volume = some five;
  cluster = none;
  sector = none;
  opens_short = false;
  planned_notional_usd = none;
}

abbrev caps : SizingCaps
caps = record {
  sleeve_risk_remaining_pct = five;
  house_heat_remaining_pct = five;
  sleeve_notional_room_usd = five;
  participation_cap_pct = five;
  kelly_fraction = five;
  validated_edge = some five;
  kelly_win_loss_ratio = none;
  kelly_shrink = five;
  max_leverage_pct = none;
}

-- All that a size computes with.
sizes : Unit {0}
unfolding size size_validated decide_qty levered qty_notional_of qty_liquidity_of qty_risk_of
    kelly_budget scaled_budget kelly_cap floor_f tighter notional_per_share leb_f ltb_f one_f
sizes = tt

five_shares : (size keep request caps five).qty ≡ 5
unfolding sizes
five_shares = refl

given : (size keep request caps five).ok ≡ true
unfolding sizes
given = refl

real : IsReal keep
unfolding leb_f
real = record { product = λ x y h k. ground (arith, h); quotient = λ x y h k. h }

size-IsCapped_example : IsCapped keep request caps five (size keep request caps five)
size-IsCapped_example = size-IsCapped keep request caps real five given
