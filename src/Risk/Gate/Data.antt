-- ===== src/Risk/Gate/Data.antt =====
-- The checks on the data, the session and the approval: signald/risk/gate.py, `_data` to
-- `_approval`.
use trading_execution.Prelude.{
  ℕ, Bool, true, false, not, Option, none, some, List, [], ◌∷◌, String, str_eq, if◌then◌else◌, ◌&&◌,
  get_or, ltb, is_none,
}
use trading_execution.Prelude.Float.{Float, leb_f}
use trading_execution.Prelude.Results.{Result, ok, ◌>>=◌}
use trading_execution.Json.{one_of}
use trading_execution.Risk.State.{intraday, MarketState}
use trading_execution.Risk.Gate.Context.{
  Runtime, Exc, GateContext, Failure, blocked, reduced, soft, is_signal, parse_hhmm,
}
use trading_execution.Risk.Gate.Projection.{projected_notional}
use trading_execution.Risk.Gate.Market.{known_above}

-- the price calibers that `_data` takes for unset
abbrev pub unset_calibers : List String
unset_calibers = "" ∷ "unknown" ∷ "mixed" ∷ "unresolved" ∷ "n/a" ∷ "none" ∷ []

abbrev pub approval_modes : List String
approval_modes = "manual-high-order" ∷ "approval" ∷ []

-- `ctx.market.session in {None, "closed"}`
abbrev pub is_closed : MarketState → Bool
is_closed m = elim m.session [ none ↦ true | some s ↦ str_eq s "closed" ]

-- `ctx.time_gate_ok is False`
abbrev pub gate_shut : GateContext → Bool
gate_shut c = elim c.time_gate_ok [ none ↦ false | some b ↦ not b ]

module _ (rt : Runtime) where
  -- the level of a producer's text, with the last price, where both are known
  abbrev pub breach : GateContext → String → Option (Float × Float)
  breach c inv = elim (rt.breach_level inv) [
    | none ↦ none
    | some level ↦ elim c.market.last [ none ↦ none | some price ↦ some (price, level) ]
  ]

  -- the loop of `_invalidation_failure`
  unfoldable pub invalidation_from : GateContext → List String → Option Failure
  invalidation_from c [] = none
  invalidation_from c (inv ∷ invs) =
      let rest = invalidation_from c invs in
      elim (breach c inv) [
        | some (price, level) ↦ if leb_f price level then blocked "data" "invalidation" else rest
        | none ↦
            if is_signal c
            then reduced "data" "invalidation_advisory" c.request.requested_risk_pct
            else rest
      ]

  -- the end of `_data`
  unfoldable pub data_stop : GateContext → Option Failure
  unfolding invalidation_from
  data_stop c = elim (invalidation_from c c.live_invalidations) [
    | some f ↦ some f
    | none ↦ if is_none c.request.stop_price then soft c "data" "no_stop" else none
  ]

  -- `_data`
  unfoldable pub data_check : GateContext → Option Failure
  unfolding data_stop
  data_check c =
      let quality =
        rt.t.lower (if str_eq c.market.data_quality "" then "unknown" else c.market.data_quality) in
      if not c.reference_complete
      then blocked "data" "reference_incomplete"
      else if str_eq quality "partial"
      then soft c "data" "data_quality_partial"
      else if not (str_eq quality "fresh")
      then blocked "data" "data_quality"
      else if c.reference_stale
      then soft c "data" "reference_stale"
      else if known_above c.market.quote_age_s c.config.max_quote_staleness_s
      then blocked "data" "stale_quote"
      else if known_above c.market.bar_age_s c.config.max_bar_staleness_s
      then blocked "data" "stale_bar"
      else if one_of (rt.t.lower (rt.t.strip (get_or c.market.price_caliber ""))) unset_calibers
      then soft c "data" "price_caliber"
      else if known_above c.decision_age_days c.ingest_window_days
      then blocked "data" "ingest_window"
      else data_stop c

  -- the entry window of `_time`
  unfoldable pub entry_window : GateContext → ℕ → ℕ → ℕ → Option Failure
  entry_window c after before flat_by =
      let at = c.now.us in
      if ltb at after
      then blocked "time" "too_early"
      else if ltb before at
      then (if ltb flat_by at then blocked "time" "after_flat_by" else blocked "time" "too_late")
      else if gate_shut c
      then blocked "time" "time_gate"
      else none

  -- `_time`
  unfoldable pub time : GateContext → Result Exc (Option Failure)
  unfolding entry_window
  time c =
      if c.market.halted
      then ok (blocked "halt" "halted")
      else if is_closed c.market
      then (if is_signal c
          then ok (reduced "time" "market_closed" c.request.requested_risk_pct)
          else ok (blocked "time" "session"))
      else if not (str_eq c.request.sleeve intraday)
      then ok none
      else do
        after ← parse_hhmm rt c.config.intraday_entry_after
        before ← parse_hhmm rt c.config.intraday_entry_before
        flat_by ← parse_hhmm rt c.config.intraday_flat_by
        ok (entry_window c after before flat_by)

  -- `_approval`
  unfoldable pub approval : GateContext → Option Failure
  approval c =
      let mode =
        rt.t.lower
          (if str_eq c.mandate.approval_mode "" then "manual" else c.mandate.approval_mode) in
      if one_of mode approval_modes
        && leb_f (rt.a.mul c.mandate.max_notional_per_order_usd c.config.approval_threshold_factor)
            (projected_notional rt c.request)
      then reduced "approval" "approval_required" c.request.requested_risk_pct
      else none
