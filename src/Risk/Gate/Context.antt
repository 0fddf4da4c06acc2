-- ===== src/Risk/Gate/Context.antt =====
-- What a check of the gate may read, and what it returns: signald/risk/gate.py, `GateContext`,
-- `Failure`. The texts of the reasons are not modelled, their stable codes are.
use trading_execution.Prelude.{
  ℕ, ◌+◌, ◌*◌, Bool, Option, none, some, List, String, if◌then◌else◌, ltb, str_eq,
}
use trading_execution.Prelude.Int.{ℤ, pos}
use trading_execution.Prelude.Float.{Float, Arith}
use trading_execution.Prelude.Results.{Result, ok, err}
use trading_execution.Json.{Text}
use trading_execution.Risk.Ladder.{LadderState}
use trading_execution.Risk.State.{BookState, MarketState, RiskRequest}

-- A datetime: its date, and the microseconds since midnight.
pub record Moment : Type 0 where
  pub day : ℕ
  pub us : ℕ

-- What a check may raise.
pub data Exc : Type 0 where
  value_error type_error : Exc

-- The parts of Python's runtime that the checks call.
pub record Runtime : Type 0 where
  pub a : Arith
  pub t : Text
  -- `raw.partition(":")`: what stands before the first colon and behind it
  pub partition : String → String × String
  -- `text[:-1] + "+00:00"` of a text that ends in Z, and `datetime.fromisoformat`
  pub fix_zone : String → String
  pub from_iso : String → Option Moment
  -- `(now - stamp).total_seconds() / 3600.0`: a stamp with a zone raises TypeError
  pub hours_between : Moment → Moment → Option Float
  -- the level that `_STOP_BREACH_RE` finds in a producer's text
  pub breach_level : String → Option Float

-- The fields of `signald/mandate.py`, `Mandate`, that the order path reads.
pub record Mandate : Type 0 where
  pub expires : ℕ
  pub allowed : List String
  pub shorts : Bool
  pub max_notional_per_order_usd : Float
  pub max_total_exposure_usd : Float
  pub min_cash_reserve_usd : Float
  pub max_daily_trades : ℤ
  pub approval_mode : String

-- `Mandate.is_expired`
unfoldable pub is_expired : Mandate → Moment → Bool
is_expired m now = ltb m.expires now.day

-- The fields of `signald/config.py`, `Config`, that the gate reads.
pub record Config : Type 0 where
  pub leverage_cap : Float
  pub es_budget_house_pct : Float
  pub es_budget_sleeve_pct : Float
  pub cluster_cap_pct : Float
  pub max_single_name_pct_intraday : Float
  pub max_single_name_pct_swing : Float
  pub max_positions_intraday : ℤ
  pub max_positions_swing : ℤ
  pub intraday_max_trades_per_name : ℤ
  pub max_adv_pct : Float
  pub cost_gate_multiple : Float
  pub max_quote_staleness_s : Float
  pub max_bar_staleness_s : Float
  pub intraday_entry_after : String
  pub intraday_entry_before : String
  pub intraday_flat_by : String
  pub approval_threshold_factor : Float
  pub min_adv_shares : Float
  pub cost_lowfloat_bps : Float
  pub cost_liquid_bps : Float

-- The fields of `VolScalar` and `ESResult` that the gate reads.
pub record VolScalar : Type 0 where
  pub scalar : Float
  pub warmup_ok : Bool

pub record EsResult : Type 0 where
  pub value_pct : Float
  pub estimator : String
  pub window_days : ℤ

-- The last signal of the journal: its ticker, action and time stamp.
pub record LastSignal : Type 0 where
  pub ticker : String
  pub action : String
  pub emitted_at : String

pub record GateContext : Type 0 where
  pub request : RiskRequest
  pub book : BookState
  pub market : MarketState
  pub mandate : Mandate
  pub config : Config
  pub now : Moment
  pub ladder : LadderState
  pub vol : VolScalar
  pub es : EsResult
  pub sleeve_ceiling_pct : Float
  pub sleeve_deployed_pct : Float
  pub day_type : Option String
  pub time_gate_ok : Option Bool
  pub other_sleeve_side : Option String
  pub wash_nets : Bool
  pub stage : String
  pub reference_complete : Bool
  pub reference_stale : Bool
  pub positions_value_usd : Option Float
  pub decision_age_days : Option Float
  pub ingest_window_days : Float
  pub live_invalidations : List String
  pub last_signal : Option LastSignal
  pub cooldown_hours : Float
  pub action : Option String
  pub held_symbols : Option (List String)

-- `Failure.kind`
pub data Kind : Type 0 where
  block reduce : Kind

pub record Failure : Type 0 where
  pub check : String
  pub kind : Kind
  pub reason_code : String
  pub adjusted_risk_pct : Option Float

abbrev pub blocked : String → String → Option Failure
blocked check code =
    some (record { check = check; kind = Kind.block; reason_code = code; adjusted_risk_pct = none })

abbrev pub reduced : String → String → Float → Option Failure
reduced check code risk = some (record {
  check = check;
  kind = Kind.reduce;
  reason_code = code;
  adjusted_risk_pct = some risk;
})

abbrev pub is_order : GateContext → Bool
is_order c = str_eq c.stage "order"

abbrev pub is_signal : GateContext → Bool
is_signal c = str_eq c.stage "signal"

-- `_stage_kind`, and a failure of that kind
unfoldable pub stage_kind : GateContext → Kind
stage_kind c = if is_signal c then Kind.reduce else Kind.block

abbrev pub soft : GateContext → String → String → Option Failure
soft c check code = some (record {
  check = check;
  kind = stage_kind c;
  reason_code = code;
  adjusted_risk_pct = some c.request.requested_risk_pct;
})

-- `parse_hhmm` of signald/config.py, in microseconds since midnight.
unfoldable pub parse_hhmm : Runtime → String → Result Exc ℕ
parse_hhmm rt text =
    let parts = rt.partition (rt.t.strip text) in
    elim (rt.t.parse_int parts.0) [
      | some (pos h) ↦ elim (rt.t.parse_int parts.1) [
        | some (pos m) ↦
            if ltb h 24
            then (if ltb m 60 then ok ((h * 60 + m) * 60000000) else err value_error)
            else err value_error
        | _ ↦ err value_error
      ]
      | _ ↦ err value_error
    ]
