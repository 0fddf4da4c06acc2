-- ===== src/Risk/Gate/Closed.antt =====
-- Inputs on which the gate refuses: signald/risk/gate.py, `evaluate`.
use trading_execution.Prelude.{
  Bool, true, false, List, String, str_eq, ◌≡◌, refl, ◌∙◌, Bool-cases, arith, inl, inr, any, ◌||◌,
  get_or, eq_iff,
}
use trading_execution.Prelude.Results.{ok}
use trading_execution.Risk.Gate.Context.{Runtime, GateContext, is_expired}
use trading_execution.Risk.Gate.Capital.{mandate, house_drawdown}
use trading_execution.Risk.Gate.Market.{market_regime}
use trading_execution.Risk.Gate.Data.{data_check, time}
use trading_execution.Risk.Gate.Evaluate.{Verdict, GateDecision, Check, total, checks, evaluate}
use trading_execution.Risk.Gate.Verdict.{stops, verdict_of, evaluate-verdict}

-- What the house never trades through.
pub data Refusal (c : GateContext) : Type 0 where
  expired : is_expired c.mandate c.now ≡ true → Refusal c
  drawdown : c.ladder.halt ≡ true → Refusal c
  incomplete : c.reference_complete ≡ false → Refusal c
  instrument : c.market.halted ≡ true → Refusal c

trend_not_range : (s : String) → str_eq s "trend" ≡ true → str_eq s "range" ≡ false
trend_not_range s h = rw ((eq_iff s "trend").0 h) refl

module _ (rt : Runtime) (c : GateContext) where
  -- One check that stops is enough.
  or_here : (a b : Bool) → a ≡ true → (a || b) ≡ true
  or_here a b h = ground arith

  or_later : (a b : Bool) → b ≡ true → (a || b) ≡ true
  or_later a b h = ground arith

  mandate-stops :
      is_expired c.mandate c.now ≡ true
      → stops c (record { name = "mandate"; run = mandate rt }) ≡ true
  unfolding mandate
  mandate-stops h = ground arith

  house_drawdown-stops :
      c.ladder.halt ≡ true → stops c (total "house_drawdown" (house_drawdown rt)) ≡ true
  unfolding house_drawdown
  house_drawdown-stops h = ground arith

  data_check-stops : c.reference_complete ≡ false → stops c (total "data" (data_check rt)) ≡ true
  unfolding data_check
  data_check-stops h = ground arith

  time-stops : c.market.halted ≡ true → stops c (record { name = "time"; run = time rt }) ≡ true
  unfolding time
  time-stops h = ground arith

  market_regime-stops :
      rt.t.upper c.request.setup ≡ "VWAP_PULLBACK"
      → stops c (total "market_regime" (market_regime rt)) ≡ true
  unfolding market_regime
  market_regime-stops h = elim (Bool-cases (str_eq (rt.t.lower (get_or c.day_type "")) "trend")) [
    | inl e ↦ rw (h, market_regime, stops) (ground (arith, trend_not_range _ e))
    | inr e ↦ rw (h, market_regime, stops) (ground arith)
  ]

  ruleset stop_rules = (or_here, or_later)

  Refusal-stops : Refusal c → any (stops c) (checks rt) ≡ true
  unfolding checks
  Refusal-stops (expired h) = search (stop_rules, mandate-stops h) depth 20
  Refusal-stops (drawdown h) = search (stop_rules, house_drawdown-stops h) depth 20
  Refusal-stops (incomplete h) = search (stop_rules, data_check-stops h) depth 20
  Refusal-stops (instrument h) = search (stop_rules, time-stops h) depth 20

  stops_lem : (ks : List Check) → any (stops c) ks ≡ true → verdict_of c ks ≡ Verdict.block
  stops_lem ks h = ground arith

-- The gate fails closed: on an expired mandate, a drawdown halt, incomplete reference data or a halted
-- instrument the verdict is BLOCK, at either stage and whatever the other checks say.
pub evaluate_fails_closed :
    (rt : Runtime) (c : GateContext) {d : GateDecision}
    → evaluate rt c ≡ ok d
    → Refusal c
    → d.verdict ≡ Verdict.block
evaluate_fails_closed rt c h r =
    evaluate-verdict rt c h ∙ stops_lem rt c (checks rt) (Refusal-stops rt c r)

-- A setup that spells VWAP_PULLBACK in capitals is blocked on every day: it needs a trend day and a
-- range day at once.
pub vwap_pullback_blocked :
    (rt : Runtime) (c : GateContext) {d : GateDecision}
    → evaluate rt c ≡ ok d
    → rt.t.upper c.request.setup ≡ "VWAP_PULLBACK"
    → d.verdict ≡ Verdict.block
unfolding checks
vwap_pullback_blocked rt c h s =
    evaluate-verdict rt c h
    ∙ stops_lem rt c (checks rt) (search (stop_rules, market_regime-stops rt c s) depth 20)
