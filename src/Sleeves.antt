-- ===== src/Sleeves.antt =====
-- The sleeves: signald/sleeves/router.py, swing.py, intraday.py and budgets.py, with the sleeve's
-- share of the book from signald/risk/state.py. The texts of the reasons and of the errors are not
-- modelled.
pub mod Room
mod Tests
use trading_execution.Prelude.{
  Bool, true, false, Option, none, some, List, [], ◌∷◌, String, str_eq, if◌then◌else◌, ◌&&◌, map,
  filter,
}
use trading_execution.Prelude.Int.{ℤ, pos}
use trading_execution.Prelude.Float.{Float, Arith, ltb_f, leb_f, zero_f, max_f}
use trading_execution.Prelude.Results.{Result, ok, err, ◌>>=◌}
use trading_execution.Json.{Fields, Value, null, Text, get, to_text}
use trading_execution.Risk.State.{BookState, Position, intraday, position_notional, book_notional}

-- `SWING`
abbrev pub swing : String
swing = "swing"

-- The fields of `signald/config.py`, `Config`, that the sleeves read.
pub record SleeveConfig : Type 0 where
  pub intraday_enabled : Bool
  pub risk_per_trade_swing_pct : Float
  pub risk_per_trade_intraday_pct : Float
  pub max_positions_swing : ℤ
  pub max_positions_intraday : ℤ
  pub max_single_name_pct_swing : Float
  pub max_single_name_pct_intraday : Float
  pub intraday_max_trades_per_name : ℤ
  pub intraday_flat_by : String
  pub sleeve_swing_capital_pct : Float
  pub sleeve_intraday_capital_pct : Float
  pub sleeve_swing_vol_target : Float
  pub sleeve_intraday_vol_target : Float
  pub es_budget_sleeve_pct : Float
  pub daily_loss_soft_pct : Float
  pub daily_loss_hard_pct : Float

pub data Source : Type 0 where
  research engine : Source

pub record Route : Type 0 where
  pub sleeve : String
  pub source : Source

-- `RouteError` of either route, and the ValueError of `_policy_for`.
pub data Refusal : Type 0 where
  chosen_sleeve not_enabled unknown_sleeve : Refusal

module _ (t : Text) where
  -- the test of `route_research` on the artifact's own field
  abbrev pub agrees : Value → Bool
  agrees null = true
  agrees v = str_eq (t.lower (t.strip (to_text t v))) swing

  -- `route_research` on the decision's extra fields
  unfoldable pub route_research : Fields → Result Refusal Route
  route_research extra =
      if agrees (get "sleeve" extra)
      then ok record { sleeve = swing; source = research }
      else err chosen_sleeve

unfoldable pub route_intraday : SleeveConfig → Bool → Result Refusal Route
route_intraday c enabled =
    if c.intraday_enabled && enabled
    then ok record { sleeve = intraday; source = engine }
    else err not_enabled

-- `STOP_KIND`
abbrev pub stop_kind_only : String
stop_kind_only = "synthetic_stop_limit"

pub record SleevePolicy : Type 0 where
  pub sleeve : String
  pub risk_per_trade_pct : Float
  pub max_positions : ℤ
  pub max_single_name_pct : Float
  pub max_trades_per_name : ℤ
  pub stop_kind : String
  pub entry_policy : String
  pub overnight : Bool
  pub flat_by : Option String

unfoldable pub swing_policy : SleeveConfig → SleevePolicy
swing_policy c = record {
  sleeve = swing;
  risk_per_trade_pct = c.risk_per_trade_swing_pct;
  max_positions = c.max_positions_swing;
  max_single_name_pct = c.max_single_name_pct_swing;
  max_trades_per_name = pos 0;
  stop_kind = stop_kind_only;
  entry_policy = "next_session_limit_band";
  overnight = true;
  flat_by = none;
}

unfoldable pub intraday_policy : SleeveConfig → SleevePolicy
intraday_policy c = record {
  sleeve = intraday;
  risk_per_trade_pct = c.risk_per_trade_intraday_pct;
  max_positions = c.max_positions_intraday;
  max_single_name_pct = c.max_single_name_pct_intraday;
  max_trades_per_name = c.intraday_max_trades_per_name;
  stop_kind = stop_kind_only;
  entry_policy = "intraday_windows";
  overnight = false;
  flat_by = some c.intraday_flat_by;
}

-- `_policy_for`
unfoldable pub policy_for : SleeveConfig → String → Result Refusal SleevePolicy
unfolding swing_policy intraday_policy
policy_for c sleeve =
    if str_eq sleeve swing
    then ok (swing_policy c)
    else (if str_eq sleeve intraday then ok (intraday_policy c) else err unknown_sleeve)

pub record SleeveBudget : Type 0 where
  pub sleeve : String
  pub capital_ceiling_pct : Float
  pub vol_target : Float
  pub risk_per_trade_pct : Float
  pub es_budget_pct : Float
  pub daily_loss_soft_pct : Float
  pub daily_loss_hard_pct : Float
  pub max_positions : ℤ
  pub max_trades_per_name : ℤ
  pub deployed_pct : Float
  pub heat_pct : Float

module _ (a : Arith) where
  -- `BookState.sleeve_deployed`
  unfoldable pub sleeve_deployed : BookState → String → Float
  unfolding position_notional
  sleeve_deployed b sleeve =
      a.sum (map (position_notional a) (filter (λ p. str_eq p.sleeve sleeve) b.positions))

  -- `BookState.deployed_pct`
  unfoldable pub deployed_pct_of : BookState → String → Float
  unfolding sleeve_deployed
  deployed_pct_of b sleeve =
      if ltb_f zero_f b.equity then a.div (sleeve_deployed b sleeve) b.equity else zero_f

  -- `_notional_share`
  unfoldable pub notional_share : BookState → String → Float
  unfolding book_notional sleeve_deployed
  notional_share b sleeve =
      if leb_f (book_notional a b) zero_f
      then zero_f
      else a.div (sleeve_deployed b sleeve) (book_notional a b)

  -- the record that `budget_for` builds
  abbrev pub budget_of : SleeveConfig → String → BookState → SleevePolicy → SleeveBudget
  budget_of c sleeve b policy = record {
    sleeve = sleeve;
    capital_ceiling_pct =
        if str_eq sleeve swing then c.sleeve_swing_capital_pct else c.sleeve_intraday_capital_pct;
    vol_target =
        if str_eq sleeve swing then c.sleeve_swing_vol_target else c.sleeve_intraday_vol_target;
    risk_per_trade_pct = policy.risk_per_trade_pct;
    es_budget_pct = c.es_budget_sleeve_pct;
    daily_loss_soft_pct = c.daily_loss_soft_pct;
    daily_loss_hard_pct = c.daily_loss_hard_pct;
    max_positions = policy.max_positions;
    max_trades_per_name = policy.max_trades_per_name;
    deployed_pct = deployed_pct_of b sleeve;
    heat_pct = a.mul b.heat_pct (notional_share b sleeve);
  }

  unfoldable pub budget_for : SleeveConfig → String → BookState → Result Refusal SleeveBudget
  unfolding policy_for deployed_pct_of notional_share
  budget_for c sleeve b = policy_for c sleeve >>= λ p. ok (budget_of c sleeve b p)

  -- `SleeveBudget.room_pct`
  unfoldable pub room_pct : SleeveBudget → Float
  room_pct s = max_f zero_f (a.sub s.capital_ceiling_pct s.deployed_pct)

  -- `SleeveBudget.at_ceiling`
  unfoldable pub at_ceiling : SleeveBudget → Bool
  unfolding room_pct
  at_ceiling s = leb_f (room_pct s) zero_f

  unfoldable pub notional_room_usd : SleeveBudget → BookState → Float
  unfolding room_pct
  notional_room_usd s b = max_f zero_f (a.mul (room_pct s) b.equity)
