-- ===== src/Risk/Gate/Tests.antt =====
-- Orders at the gate, and the theorems on them.
use trading_execution.Prelude.{◌≡◌, refl, true, false, none, some, [], ◌∷◌, arith, if◌then◌else◌}
use trading_execution.Prelude.Int.{pos, ◌+ℤ◌, ◌-ℤ◌, +ℤ_parts, -ℤ_parts}
use trading_execution.Prelude.Float.{
  sum_with, Float, nan, fin, Arith, leb_f, ltb_f, zero_f, one_f, half_f, is_finite, ≤f_refl, ◌≤f◌,
}
use trading_execution.Prelude.Results.{Result, ok, err}
use trading_execution.Prelude.Dict.{lookup}
use trading_execution.Json.{Text}
use trading_execution.Risk.Ladder.{rung0, rung2}
use trading_execution.Risk.State.{
  BookState, MarketState, RiskRequest, notional_per_share, position_notional, net_from,
  position_for, book_notional, cluster_from, cluster_notional, spread_blown, count_from, count,
  count_all, tally,
}
use trading_execution.Risk.Gate.Context.{
  Runtime, Exc, Mandate, is_expired, Config, GateContext, stage_kind, parse_hhmm,
}
use trading_execution.Risk.Gate.Projection.{
  projected_notional, projected_notional_per_risk, risk_to_fit, atr_pct,
}
use trading_execution.Risk.Gate.Capital.{
  reduces_a_held_name, action_of, cooldown_gap, cooldown_failure, last_cooldown, mandate_cooldown,
  mandate_caps, mandate, sleeve_capital, house_drawdown, house_cvar, correlation_stress, vol_regime,
  position_counts, concentration,
}
use trading_execution.Risk.Gate.Market.{
  round_trip_cost_bps_of, cost_bps, wash, shortability, market_regime, falls_hard, knife_guard,
  participation, liquidity, cost,
}
use trading_execution.Risk.Gate.Data.{
  invalidation_from, data_stop, data_check, entry_window, time, approval,
}
use trading_execution.Risk.Gate.Evaluate.{
  Verdict, GateDecision, checks, attempt, failures_of, first_block, min_adjusted, decide_soft,
  decide, evaluate, allow_decision,
}
use trading_execution.Risk.Gate.Sized.{LawfulArith}
use trading_execution.Risk.Gate.Bounds.{IsBounded}
use trading_execution.Risk.Gate.Verdict.{IsWithin, evaluate-IsWithin, verdict_of, evaluate-verdict}
use trading_execution.Risk.Gate.Limits.{IsNumeric, Limits, evaluate-Limits}
use trading_execution.Risk.Gate.Closed.{instrument, evaluate_fails_closed, vwap_pullback_blocked}

-- Sums and differences that are exact, and factors that are all or nothing.
abbrev add_x : Float → Float → Float
add_x (fin a) y = elim y [ fin b ↦ fin (a +ℤ b) | _ ↦ nan ]
add_x _ y = nan

abbrev sub_x : Float → Float → Float
sub_x (fin a) y = elim y [ fin b ↦ fin (a -ℤ b) | _ ↦ nan ]
sub_x _ y = nan

abbrev exact : Arith
exact = record {
  add = add_x;
  sub = sub_x;
  mul = λ x s. if leb_f s zero_f then zero_f else x;
  div = λ x y. x;
  of_int = λ n. some (fin n);
  sum = sum_with add_x (fin (pos 0));
}

exact_sub :
    (v x b : Float)
    → is_finite x ≡ true
    → leb_f (add_x v x) b ≡ false
    → ltb_f zero_f (sub_x b v) ≡ true
    → sub_x b v ≤f x
unfolding leb_f ltb_f
exact_sub (fin v) (fin x) (fin b) f h k = ground (arith, +ℤ_parts v x, -ℤ_parts b v)
exact_sub (fin v) (fin x) _ f h k = ground arith
exact_sub (fin v) _ b f h k = ground arith
exact_sub _ x b f h k = ground arith

exact-LawfulArith : LawfulArith exact
unfolding leb_f ltb_f one_f
exact-LawfulArith = record {
  mul-≤f = λ x s p f g b. ground (arith, ≤f_refl x f);
  sub-≤f = exact_sub;
}

abbrev text : Text
text = record {
  strip = λ s. s;
  lower = λ s. s;
  upper = λ s. s;
  show = λ v. "value";
  repr = λ v. "value";
  parse_int = λ s. some (pos 9);
  parse_float = λ s. none;
  contains = λ needle s. false;
}

abbrev runtime : Runtime
runtime = record {
  a = exact;
  t = text;
  partition = λ s. (s, s);
  fix_zone = λ s. s;
  from_iso = λ s. none;
  hours_between = λ m n. none;
  breach_level = λ s. none;
}

abbrev hundred : Float
hundred = fin (pos 100)

abbrev ten : Float
ten = fin (pos 10)

abbrev request : RiskRequest
request = record {
  sleeve = "swing";
  symbol = "MSFT";
  setup = "SWING";
  side = "buy";
  stop_distance = ten;
  price = hundred;
  equity = hundred;
  requested_risk_pct = ten;
  stop_price = some ten;
  measured_move_bps = some hundred;
  round_trip_cost_bps = some ten;
  trailing_volume = none;
  cluster = none;
  sector = none;
  opens_short = false;
  planned_notional_usd = some ten;
}

abbrev book : BookState
book = record {
  equity = hundred;
  cash = hundred;
  positions = [];
  heat_pct = zero_f;
  trades_today = [];
  sleeve_trades_today = [];
  buying_power = none;
}

abbrev market : MarketState
market = record {
  symbol = "MSFT";
  last = some hundred;
  spread_bps = none;
  spread_median_bps = none;
  quote_age_s = none;
  bar_age_s = none;
  session = some "regular";
  halted = false;
  reopen_cooldown_s = none;
  tradable = true;
  shortable = true;
  ssr = false;
  adv_shares = some hundred;
  atr = none;
  data_quality = "fresh";
  price_caliber = some "adjusted";
  impulse_pct = none;
  news_shock = false;
  last_bar_high = none;
  last_bar_low = none;
}

abbrev the_mandate : Mandate
the_mandate = record {
  expires = 100;
  allowed = "MSFT" ∷ [];
  shorts = false;
  max_notional_per_order_usd = hundred;
  max_total_exposure_usd = hundred;
  min_cash_reserve_usd = zero_f;
  max_daily_trades = pos 0;
  approval_mode = "manual";
}

abbrev config : Config
config = record {
  leverage_cap = hundred;
  es_budget_house_pct = hundred;
  es_budget_sleeve_pct = hundred;
  cluster_cap_pct = hundred;
  max_single_name_pct_intraday = hundred;
  max_single_name_pct_swing = hundred;
  max_positions_intraday = pos 5;
  max_positions_swing = pos 5;
  intraday_max_trades_per_name = pos 0;
  max_adv_pct = hundred;
  cost_gate_multiple = ten;
  max_quote_staleness_s = ten;
  max_bar_staleness_s = ten;
  intraday_entry_after = "09:45";
  intraday_entry_before = "15:00";
  intraday_flat_by = "15:45";
  approval_threshold_factor = hundred;
  min_adv_shares = ten;
  cost_lowfloat_bps = ten;
  cost_liquid_bps = ten;
}

abbrev order : GateContext
order = record {
  request = request;
  book = book;
  market = market;
  mandate = the_mandate;
  config = config;
  now = record { day = 5; us = 0 };
  ladder = rung0;
  vol = record { scalar = one_f; warmup_ok = true };
  es = record { value_pct = zero_f; estimator = "historical"; window_days = pos 250 };
  sleeve_ceiling_pct = hundred;
  sleeve_deployed_pct = zero_f;
  day_type = none;
  time_gate_ok = none;
  other_sleeve_side = none;
  wash_nets = false;
  stage = "order";
  reference_complete = true;
  reference_stale = false;
  positions_value_usd = none;
  decision_age_days = none;
  ingest_window_days = one_f;
  live_invalidations = [];
  last_signal = none;
  cooldown_hours = ten;
  action = none;
  held_symbols = none;
}

-- All that a decision computes with.
decisions : Unit {0}
unfolding evaluate decide decide_soft failures_of checks attempt first_block min_adjusted leb_f
    ltb_f one_f half_f notional_per_share position_notional net_from position_for book_notional
    cluster_from cluster_notional spread_blown count_from count count_all tally lookup is_expired
    stage_kind parse_hhmm projected_notional projected_notional_per_risk risk_to_fit atr_pct
    reduces_a_held_name action_of cooldown_gap cooldown_failure last_cooldown mandate_cooldown
    mandate_caps mandate sleeve_capital house_drawdown house_cvar correlation_stress vol_regime
    position_counts concentration round_trip_cost_bps_of cost_bps wash shortability market_regime
    falls_hard knife_guard participation liquidity cost invalidation_from data_stop data_check
    entry_window time approval ◌+ℤ◌ ◌-ℤ◌
decisions = tt

allowed : evaluate runtime order ≡ ok allow_decision
unfolding decisions
allowed = refl

numeric : IsNumeric runtime order
unfolding decisions
numeric = record {
  cash = refl;
  reserve = refl;
  cap = refl;
  projected = refl;
  levered = refl;
  room_left = refl;
  notional = refl;
}

evaluate-Limits_example : Limits runtime order
evaluate-Limits_example = evaluate-Limits runtime order numeric allowed refl refl

-- The same order at a price that is NaN.
abbrev unpriced : GateContext
unpriced = record order { request = record request { price = nan } }

nan_is_allowed : evaluate runtime unpriced ≡ ok allow_decision
unfolding decisions
nan_is_allowed = refl

-- The same order after the first rung of the drawdown ladder, and on an instrument that is halted.
abbrev derisked : GateContext
derisked = record order { ladder = rung2 }

abbrev stuck : GateContext
stuck = record order { market = record market { halted = true } }

abbrev pullback : GateContext
pullback = record order {
  request = record request { setup = "VWAP_PULLBACK" };
  day_type = some "trend";
}

abbrev or_allow : Result Exc GateDecision → GateDecision
or_allow (ok d) = d
or_allow (err e) = allow_decision

derisked_reduces : (or_allow (evaluate runtime derisked)).verdict ≡ Verdict.reduce
unfolding decisions
derisked_reduces = refl

stuck_decision : evaluate runtime stuck ≡ ok (or_allow (evaluate runtime stuck))
unfolding decisions
stuck_decision = refl

pullback_decision : evaluate runtime pullback ≡ ok (or_allow (evaluate runtime pullback))
unfolding decisions
pullback_decision = refl

derisked-IsBounded : IsBounded derisked
unfolding leb_f half_f
derisked-IsBounded = record { requests = record { finite = refl; positive = refl }; ladder = refl }

evaluate-IsWithin_example : (d : GateDecision) × (evaluate runtime derisked ≡ ok d) × IsWithin ten d
evaluate-IsWithin_example = evaluate-IsWithin runtime derisked exact-LawfulArith derisked-IsBounded

evaluate-verdict_example : Verdict.allow ≡ verdict_of order (checks runtime)
evaluate-verdict_example = evaluate-verdict runtime order allowed

evaluate_fails_closed_example : (or_allow (evaluate runtime stuck)).verdict ≡ Verdict.block
evaluate_fails_closed_example = evaluate_fails_closed runtime stuck stuck_decision (instrument refl)

vwap_pullback_blocked_example : (or_allow (evaluate runtime pullback)).verdict ≡ Verdict.block
vwap_pullback_blocked_example = vwap_pullback_blocked runtime pullback pullback_decision refl
