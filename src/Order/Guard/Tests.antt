-- ===== src/Order/Guard/Tests.antt =====
-- Intents at the guard, and the theorems on them.
use trading_execution.Prelude.{
  ◌≡◌, refl, Bool, true, false, none, some, List, [], ◌∷◌, ◌++◌, String,
}
use trading_execution.Prelude.Int.{pos}
use trading_execution.Prelude.Float.{sum_with, Float, fin, leb_f, ltb_f, zero_f, one_f}
use trading_execution.Prelude.Results.{Result, ok}
use trading_execution.Json.{get}
use trading_execution.Risk.State.{
  MarketState, position_notional, net_from, position_for, book_notional,
}
use trading_execution.Risk.Gate.Context.{Mandate, Config, is_expired}
use trading_execution.Order.Intent.{OrderIntent}
use trading_execution.Order.Prices.{tick_for, round_price, price_is_on_grid}
use trading_execution.Order.Guard.{
  Raised, GuardRuntime, GuardContext, bracket_ok, is_open_id, duplicate_ok, id_fits, parse_ts,
  mandate_allows, mandate_ok, priced, notional_usd, effective_notional, buying_power_ok,
  guard_checks, failing, guard,
}
use trading_execution.Order.Guard.Admission.{Admitted, guard-Admitted, guard-binding}

abbrev runtime : GuardRuntime
runtime = record {
  a = record {
    add = λ x y. y;
    sub = λ x y. x;
    mul = λ x y. x;
    div = λ x y. x;
    of_int = λ n. some (fin n);
    sum = sum_with (λ x y. y) (fin (pos 0));
  };
  t = record {
    strip = λ s. s;
    lower = λ s. s;
    upper = λ s. s;
    show = λ v. "value";
    repr = λ v. "value";
    parse_int = λ s. none;
    parse_float = λ s. none;
    contains = λ needle s. false;
  };
  round = λ x n. x;
  len = λ s. 5;
  id_ok = λ s. true;
  fix_zone = λ s. s;
  from_iso = λ s. some (record { day = 5; us = 0 });
}

abbrev hundred : Float
hundred = fin (pos 100)

abbrev intent : OrderIntent
intent = record {
  intent_id = "i1";
  sleeve = "swing";
  symbol = "MSFT";
  side = "buy";
  qty = pos 10;
  order_type = "limit";
  limit_price = some (fin (pos 7));
  stop_price = some (fin (pos 5));
  tif = "day";
  client_order_id = "swi-1";
  created_at = "noon";
  parent_proposal_id = none;
  extended_hours = false;
}

abbrev market : MarketState
market = record {
  symbol = "MSFT";
  last = some hundred;
  spread_bps = none;
  spread_median_bps = none;
  quote_age_s = none;
  bar_age_s = none;
  session = some "regular";
  halted = false;
  reopen_cooldown_s = none;
  tradable = true;
  shortable = true;
  ssr = false;
  adv_shares = some hundred;
  atr = none;
  data_quality = "fresh";
  price_caliber = some "adjusted";
  impulse_pct = none;
  news_shock = false;
  last_bar_high = none;
  last_bar_low = none;
}

abbrev config : Config
config = record {
  leverage_cap = hundred;
  es_budget_house_pct = hundred;
  es_budget_sleeve_pct = hundred;
  cluster_cap_pct = hundred;
  max_single_name_pct_intraday = hundred;
  max_single_name_pct_swing = hundred;
  max_positions_intraday = pos 5;
  max_positions_swing = pos 5;
  intraday_max_trades_per_name = pos 0;
  max_adv_pct = hundred;
  cost_gate_multiple = hundred;
  max_quote_staleness_s = hundred;
  max_bar_staleness_s = hundred;
  intraday_entry_after = "09:45";
  intraday_entry_before = "15:00";
  intraday_flat_by = "15:45";
  approval_threshold_factor = hundred;
  min_adv_shares = hundred;
  cost_lowfloat_bps = hundred;
  cost_liquid_bps = hundred;
}

abbrev the_mandate : Mandate
the_mandate = record {
  expires = 100;
  allowed = "MSFT" ∷ [];
  shorts = false;
  max_notional_per_order_usd = hundred;
  max_total_exposure_usd = hundred;
  min_cash_reserve_usd = zero_f;
  max_daily_trades = pos 0;
  approval_mode = "manual";
}

abbrev context : GuardContext
context = record {
  book = record {
    equity = hundred;
    cash = hundred;
    positions = [];
    heat_pct = zero_f;
    trades_today = [];
    sleeve_trades_today = [];
    buying_power = some hundred;
  };
  market = market;
  mandate = some the_mandate;
  config = config;
  gate_verdict = some "ALLOW";
  approval_id = none;
  requires_approval = false;
  open_orders = [];
  other_sleeve_side = none;
  price_of = none;
}

-- Without a verdict of the gate, and with no approval where one is required.
abbrev unjudged : GuardContext
unjudged = record context { gate_verdict = none; requires_approval = true }

passes : (guard runtime intent context).ok ≡ true
unfolding guard failing guard_checks leb_f ltb_f one_f position_notional net_from position_for
    book_notional is_expired tick_for round_price price_is_on_grid bracket_ok is_open_id
    duplicate_ok id_fits parse_ts mandate_allows mandate_ok priced notional_usd effective_notional
    buying_power_ok get
passes = refl

guard-Admitted_example : Admitted runtime intent context
guard-Admitted_example = guard-Admitted runtime intent context passes

abbrev before_verdict : List (String × Result Raised Bool)
before_verdict =
    ("client_order_id", ok true)
    ∷ ("qty", ok true)
    ∷ ("order_type", ok true)
    ∷ ("precision", ok true)
    ∷ ("mandate", ok true)
    ∷ []

abbrev after_verdict : List (String × Result Raised Bool)
after_verdict =
    ("approval", ok false)
    ∷ ("buying_power", ok true)
    ∷ ("bracket_legality", ok true)
    ∷ ("stop_present", ok true)
    ∷ ("duplicate", ok true)
    ∷ ("wash", ok true)
    ∷ []

unjudged_checks :
    guard_checks runtime intent unjudged
    ≡ before_verdict ++ ("gate_verdict", ok false) ∷ after_verdict
unfolding guard failing guard_checks leb_f ltb_f one_f position_notional net_from position_for
    book_notional is_expired tick_for round_price price_is_on_grid bracket_ok is_open_id
    duplicate_ok id_fits parse_ts mandate_allows mandate_ok priced notional_usd effective_notional
    buying_power_ok get
unjudged_checks = refl

guard-binding_example :
    ((guard runtime intent unjudged).ok ≡ false)
    × ((guard runtime intent unjudged).binding ≡ some "gate_verdict")
guard-binding_example =
    guard-binding runtime intent unjudged before_verdict "gate_verdict" (ok false) after_verdict
      unjudged_checks (refl, (refl, (refl, (refl, (refl, tt))))) refl
