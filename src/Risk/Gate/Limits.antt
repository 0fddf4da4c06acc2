-- ===== src/Risk/Gate/Limits.antt =====
-- What an order that the gate lets through satisfies: signald/risk/gate.py, `evaluate`.
use trading_execution.Prelude.{
  true, false, Option, none, List, [], ◌∷◌, ◌≡◌, sym, ◌∙◌, arith, all, All, ◌||◌, is_some,
}
use trading_execution.Prelude.Float.{Float, min_f, ltb_f, ◌≤f◌, leb_f_of_not_ltb_f}
use trading_execution.Prelude.Results.{Result, ok}
use trading_execution.Json.{one_of}
use trading_execution.Risk.Gate.Context.{Runtime, Exc, GateContext, Failure, is_expired, is_order}
use trading_execution.Risk.Gate.Projection.{projected_notional}
use trading_execution.Risk.Gate.Capital.{
  mandate, mandate_caps, sleeve_capital, house_drawdown, house_cvar, reduces_a_held_name,
  projected_usd,
}
use trading_execution.Risk.Gate.Data.{data_check, data_stop, is_closed, time}
use trading_execution.Risk.Gate.Evaluate.{Verdict, Check, GateDecision, checks, evaluate}
use trading_execution.Risk.Gate.Verdict.{passes, verdict_of, evaluate-verdict}

module _ (rt : Runtime) (c : GateContext) where
  abbrev room : Float
  room =
      rt.a.sub (rt.a.mul c.sleeve_ceiling_pct c.book.equity)
        (rt.a.mul c.sleeve_deployed_pct c.book.equity)

  -- The amounts that the gate compares are no NaN.
  pub record IsNumeric : Type 0 where
    pub cash : c.book.cash ≤f c.book.cash
    pub reserve : c.mandate.min_cash_reserve_usd ≤f c.mandate.min_cash_reserve_usd
    pub cap : c.mandate.max_total_exposure_usd ≤f c.mandate.max_total_exposure_usd
    pub projected : projected_usd rt c ≤f projected_usd rt c
    pub levered :
        rt.a.mul c.config.leverage_cap c.book.equity ≤f rt.a.mul c.config.leverage_cap c.book.equity
    pub room_left : room ≤f room
    pub notional : projected_notional rt c.request ≤f projected_notional rt c.request

  -- What holds of an order that is allowed as it stands.
  pub record Limits : Type 0 where
    pub in_mandate : (one_of c.request.symbol c.mandate.allowed || reduces_a_held_name rt c) ≡ true
    pub live_mandate : is_expired c.mandate c.now ≡ false
    pub cash : c.mandate.min_cash_reserve_usd ≤f c.book.cash
    pub exposure : projected_usd rt c ≤f c.mandate.max_total_exposure_usd
    pub leverage : projected_usd rt c ≤f rt.a.mul c.config.leverage_cap c.book.equity
    pub sleeve_room : projected_notional rt c.request ≤f room
    pub no_halt : c.ladder.halt ≡ false
    pub tail :
        rt.a.add c.es.value_pct c.request.requested_risk_pct
        ≤f min_f c.config.es_budget_house_pct c.config.es_budget_sleeve_pct
    pub not_halted : c.market.halted ≡ false
    pub session : is_closed c.market ≡ false
    pub reference : c.reference_complete ≡ true
    pub stop : is_some c.request.stop_price ≡ true

  mandate-Limits :
      mandate rt c ≡ ok none
      → ((one_of c.request.symbol c.mandate.allowed || reduces_a_held_name rt c) ≡ true)
        × (is_expired c.mandate c.now ≡ false)
        × (ltb_f c.book.cash c.mandate.min_cash_reserve_usd ≡ false)
        × (mandate_caps rt c ≡ ok none)
  unfolding mandate
  mandate-Limits h = ground arith

  caps-Limits :
      mandate_caps rt c ≡ ok none
      → (ltb_f c.mandate.max_total_exposure_usd (projected_usd rt c) ≡ false)
        × (ltb_f (rt.a.mul c.config.leverage_cap c.book.equity) (projected_usd rt c) ≡ false)
  unfolding mandate_caps
  caps-Limits h = ground arith

  sleeve_capital-Limits :
      sleeve_capital rt c ≡ none → ltb_f room (projected_notional rt c.request) ≡ false
  unfolding sleeve_capital
  sleeve_capital-Limits h = ground arith

  house_drawdown-Limits : house_drawdown rt c ≡ none → c.ladder.halt ≡ false
  unfolding house_drawdown
  house_drawdown-Limits h = ground arith

  house_cvar-Limits :
      is_order c ≡ true
      → house_cvar rt c ≡ none
      → rt.a.add c.es.value_pct c.request.requested_risk_pct
        ≤f min_f c.config.es_budget_house_pct c.config.es_budget_sleeve_pct
  unfolding house_cvar
  house_cvar-Limits o h = ground arith

  time-Limits : time rt c ≡ ok none → (c.market.halted ≡ false) × (is_closed c.market ≡ false)
  unfolding time
  time-Limits h = ground arith

  data_stop-Limits : data_stop rt c ≡ none → is_some c.request.stop_price ≡ true
  unfolding data_stop
  data_stop-Limits h = ground arith

  data_check-Limits :
      data_check rt c ≡ none → (c.reference_complete ≡ true) × (data_stop rt c ≡ none)
  unfolding data_check
  data_check-Limits h = ground arith

all-passes :
    (c : GateContext) (ks : List Check) → all (passes c) ks ≡ true → All (λ k. k.run c ≡ ok none) ks
all-passes c [] h = tt
all-passes c (k ∷ ks) h = (ground arith, all-passes c ks (ground arith))

of_ok : {o : Option Failure} → ◌≡◌ {A = Result Exc (Option Failure)} (ok o) (ok none) → o ≡ none
of_ok h = cc

verdict-passes :
    (c : GateContext) (ks : List Check)
    → verdict_of c ks ≡ Verdict.allow
    → All (λ k. k.run c ≡ ok none) ks
verdict-passes c ks h = all-passes c ks (ground arith)

-- Where the cash, its reserve, the exposure cap, the leverage cap, the room of the sleeve, and the projected
-- amounts are no NaN, an order on which the gate says ALLOW has a symbol of the mandate or reduces a held
-- name, under a mandate that has not expired; it leaves the cash reserve, and is within the exposure cap,
-- the leverage cap, the room of its sleeve and the tail budget, with no halt of the drawdown ladder, on an
-- instrument that is not halted, in an open session, on complete reference data, with a protective stop.
pub evaluate-Limits :
    (rt : Runtime) (c : GateContext) {d : GateDecision}
    → IsNumeric rt c
    → evaluate rt c ≡ ok d
    → is_order c ≡ true
    → d.verdict ≡ Verdict.allow
    → Limits rt c
unfolding checks
evaluate-Limits rt c {d} num h o v =
    let p = verdict-passes c (checks rt) (sym (evaluate-verdict rt c h) ∙ v) in
    let m = mandate-Limits rt c p.0 in
    let e = caps-Limits rt c m.3 in
    let t = time-Limits rt c p.1.1.1.1.1.1.1.1.1.1.1.1.1.1.0 in
    let s = data_check-Limits rt c (of_ok p.1.1.1.1.1.1.1.1.1.1.1.1.1.0) in
    record {
      in_mandate = m.0;
      live_mandate = m.1;
      cash = leb_f_of_not_ltb_f _ _ num.cash num.reserve m.2;
      exposure = leb_f_of_not_ltb_f _ _ num.cap num.projected e.0;
      leverage = leb_f_of_not_ltb_f _ _ num.levered num.projected e.1;
      sleeve_room =
          leb_f_of_not_ltb_f _ _ num.room_left num.notional
            (sleeve_capital-Limits rt c (of_ok p.1.0));
      no_halt = house_drawdown-Limits rt c (of_ok p.1.1.0);
      tail = house_cvar-Limits rt c o (of_ok p.1.1.1.0);
      not_halted = t.0;
      session = t.1;
      reference = s.0;
      stop = data_stop-Limits rt c s.1;
    }
