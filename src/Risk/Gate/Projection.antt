-- ===== src/Risk/Gate/Projection.antt =====
-- The projections of a request: signald/risk/gate.py, `projected_notional`, `_risk_to_fit`.
use trading_execution.Prelude.{Option, none, some, if◌then◌else◌, ◌||◌}
use trading_execution.Prelude.Float.{Float, leb_f, max_f, min_f, zero_f}
use trading_execution.Risk.State.{MarketState, RiskRequest, notional_per_share}
use trading_execution.Risk.Gate.Context.{Runtime, GateContext}

module _ (rt : Runtime) where
  unfoldable pub projected_notional : RiskRequest → Float
  projected_notional r = elim r.planned_notional_usd [
    | some planned ↦ max_f zero_f planned
    | none ↦
        if leb_f r.stop_distance zero_f || leb_f (notional_per_share r) zero_f
        then zero_f
        else rt.a.div (rt.a.mul (rt.a.mul r.equity r.requested_risk_pct) (notional_per_share r))
            r.stop_distance
  ]

  unfoldable pub projected_notional_per_risk : RiskRequest → Float
  projected_notional_per_risk r =
      if leb_f r.stop_distance zero_f || leb_f (notional_per_share r) zero_f
      then zero_f
      else rt.a.div (rt.a.mul r.equity (notional_per_share r)) r.stop_distance

  -- `_risk_to_fit`
  unfoldable pub risk_to_fit : GateContext → Float → Float
  risk_to_fit c room =
      if leb_f room zero_f
      then zero_f
      else if leb_f (projected_notional_per_risk c.request) zero_f
      then zero_f
      else max_f zero_f (
          min_f c.request.requested_risk_pct
            (rt.a.div room (projected_notional_per_risk c.request)))

  -- `_atr_pct`
  unfoldable pub atr_pct : MarketState → Option Float
  atr_pct m = elim m.atr [
    | none ↦ none
    | some atr ↦ elim m.last [
      | none ↦ none
      | some last ↦ if leb_f last zero_f then none else some (rt.a.div atr last)
    ]
  ]
