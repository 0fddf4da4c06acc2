-- ===== src/Risk/Gate/Bounds.antt =====
-- The checks of the gate, each against the bound on what its failure may ask:
-- signald/risk/gate.py, `CHECKS`.
use trading_execution.Prelude.{
  ℕ, true, Option, none, some, List, [], ◌∷◌, String, ◌≡◌, refl, subst, Option-cases, arith, inl,
  inr, All,
}
use trading_execution.Prelude.Float.{Float, is_finite, max_f, min_f, zero_f}
use trading_execution.Prelude.Results.{ok, Result-cases}
use trading_execution.Risk.Gate.Context.{Runtime, GateContext, LastSignal, parse_hhmm}
use trading_execution.Risk.Gate.Market.{
  market_regime, knife_guard, cost, wash, shortability, participation, liquidity,
}
use trading_execution.Risk.Gate.Data.{
  time, entry_window, approval, data_check, data_stop, breach, invalidation_from,
}
use trading_execution.Risk.Gate.Evaluate.{Check, attempt, checks}
use trading_execution.Risk.Gate.Capital.{
  position_counts, concentration, correlation_stress, house_cvar, vol_regime, mandate, mandate_caps,
  mandate_cooldown, last_cooldown, cooldown_failure, cooldown_gap, parse_iso, action_of,
  sleeve_capital, house_drawdown,
}
use trading_execution.Risk.Gate.Sized.{
  LawfulArith, is_sized, sized, most_of, Requests, IsSized, sized_run, RunIsSized, max_f-one,
  sized_rules, none-IsSized, ok-RunIsSized, >>=-RunIsSized,
}

module _ (rt : Runtime) where
  pub sleeve_capital-IsSized : (c : GateContext) → Requests c → IsSized c (sleeve_capital rt c)
  unfolding sleeve_capital
  sleeve_capital-IsSized c h = search sized_rules

  invalidation_from-IsSized :
      (c : GateContext) (invs : List String) → Requests c → IsSized c (invalidation_from rt c invs)
  unfolding invalidation_from
  invalidation_from-IsSized c [] h = none-IsSized c
  invalidation_from-IsSized c (inv ∷ invs) h =
      let rest = invalidation_from-IsSized c invs h in
      elim (Option-cases (breach rt c inv)) [
        | inl e ↦ rw (e, invalidation_from) (search (sized_rules, rest))
        | inr (b, e) ↦ rw (e, invalidation_from) (search (sized_rules, rest))
      ]

  data_stop-IsSized : (c : GateContext) → Requests c → IsSized c (data_stop rt c)
  unfolding data_stop
  data_stop-IsSized c h =
      let rest = invalidation_from-IsSized c c.live_invalidations h in
      elim (Option-cases (invalidation_from rt c c.live_invalidations)) [
        | inl e ↦ rw (e, data_stop) (search sized_rules)
        | inr (b, e) ↦ rw (e, data_stop) (subst (IsSized c) e rest)
      ]

  data_check-IsSized : (c : GateContext) → Requests c → IsSized c (data_check rt c)
  unfolding data_check
  data_check-IsSized c h = search (sized_rules, data_stop-IsSized) depth 12

  entry_window-IsSized :
      (c : GateContext) (after before flat_by : ℕ)
      → IsSized c (entry_window rt c after before flat_by)
  unfolding entry_window
  entry_window-IsSized c after before flat_by = search sized_rules depth 12

  time-RunIsSized : (c : GateContext) → Requests c → RunIsSized c (time rt c)
  unfolding time
  time-RunIsSized c h =
      search
        (
          sized_rules,
          >>=-RunIsSized c (parse_hhmm rt c.config.intraday_entry_after) _ (λ after.
              >>=-RunIsSized c (parse_hhmm rt c.config.intraday_entry_before) _ (λ before.
                >>=-RunIsSized c (parse_hhmm rt c.config.intraday_flat_by)
                  (λ flat_by. ok (entry_window rt c after before flat_by))
                  (λ flat_by. ok-RunIsSized c _ (entry_window-IsSized c after before flat_by)))),
        )
        depth 12

  approval-IsSized : (c : GateContext) → Requests c → IsSized c (approval rt c)
  unfolding approval
  approval-IsSized c h = search sized_rules

  cooldown_gap-RunIsSized :
      (c : GateContext) (l : LastSignal) → Requests c → RunIsSized c (cooldown_gap rt c l)
  unfolding cooldown_gap
  cooldown_gap-RunIsSized c l h = elim (Option-cases (parse_iso rt l.emitted_at)) [
    | inl e ↦ rw (e, cooldown_gap) (search sized_rules)
    | inr (stamp, e) ↦ elim (Option-cases (rt.hours_between c.now stamp)) [
      | inl k ↦ rw (e, k, cooldown_gap) (search sized_rules)
      | inr (gap, k) ↦ rw (e, k, cooldown_gap) (search sized_rules)
    ]
  ]

  cooldown_failure-RunIsSized :
      (c : GateContext) (l : LastSignal) → Requests c → RunIsSized c (cooldown_failure rt c l)
  unfolding cooldown_failure
  cooldown_failure-RunIsSized c l h = elim (Option-cases (action_of rt c)) [
    | inl e ↦ rw (e, cooldown_failure) (search sized_rules)
    | inr (a, e) ↦ rw (e, cooldown_failure) (search (sized_rules, cooldown_gap-RunIsSized))
  ]

  last_cooldown-RunIsSized :
      (c : GateContext) (l : Option LastSignal) → Requests c → RunIsSized c (last_cooldown rt c l)
  unfolding last_cooldown
  last_cooldown-RunIsSized c none h = search sized_rules
  last_cooldown-RunIsSized c (some l) h = cooldown_failure-RunIsSized c l h

  mandate_cooldown-RunIsSized :
      (c : GateContext) → Requests c → RunIsSized c (mandate_cooldown rt c)
  unfolding mandate_cooldown
  mandate_cooldown-RunIsSized c h = search (sized_rules, last_cooldown-RunIsSized)

  mandate-RunIsSized : (c : GateContext) → Requests c → RunIsSized c (mandate rt c)
  unfolding mandate mandate_caps
  mandate-RunIsSized c h = search (sized_rules, mandate_cooldown-RunIsSized) depth 20 fits 3000

  position_counts-IsSized : (c : GateContext) → IsSized c (position_counts rt c)
  unfolding position_counts
  position_counts-IsSized c = search sized_rules

  concentration-IsSized : (c : GateContext) → Requests c → IsSized c (concentration rt c)
  unfolding concentration
  concentration-IsSized c h = search (sized_rules, position_counts-IsSized)

  correlation_stress-IsSized : (c : GateContext) → IsSized c (correlation_stress rt c)
  unfolding correlation_stress
  correlation_stress-IsSized c = search sized_rules

  market_regime-IsSized : (c : GateContext) → IsSized c (market_regime rt c)
  unfolding market_regime
  market_regime-IsSized c = search sized_rules

  knife_guard-IsSized : (c : GateContext) → IsSized c (knife_guard rt c)
  unfolding knife_guard
  knife_guard-IsSized c = search sized_rules

  participation-IsSized :
      (c : GateContext) (adv : Float) → Requests c → IsSized c (participation rt c adv)
  unfolding participation
  participation-IsSized c adv h = search sized_rules

  liquidity-IsSized : (c : GateContext) → Requests c → IsSized c (liquidity rt c)
  unfolding liquidity sized is_sized
  liquidity-IsSized c h = elim (Option-cases c.market.adv_shares) [
    | inl e ↦ ground arith
    | inr (adv, e) ↦ ground (arith, participation-IsSized c adv h)
  ]

  cost-IsSized : (c : GateContext) → IsSized c (cost rt c)
  unfolding cost sized is_sized
  cost-IsSized c = ground arith

  house_cvar-IsSized :
      LawfulArith rt.a → (c : GateContext) → Requests c → IsSized c (house_cvar rt c)
  unfolding house_cvar sized is_sized
  house_cvar-IsSized laws c h = ground (
    arith,
    h.finite,
    laws.sub-≤f c.es.value_pct (most_of c)
        (min_f c.config.es_budget_house_pct c.config.es_budget_sleeve_pct),
  )

  house_drawdown-IsSized :
      LawfulArith rt.a
      → (c : GateContext) → Requests c
      → is_finite c.ladder.size_multiplier ≡ true
      → IsSized c (house_drawdown rt c)
  unfolding house_drawdown sized is_sized
  house_drawdown-IsSized laws c h k =
      ground (arith, laws.mul-≤f (most_of c) c.ladder.size_multiplier h.positive h.finite k)

  vol_regime-IsSized :
      LawfulArith rt.a → (c : GateContext) → Requests c → IsSized c (vol_regime rt c)
  unfolding vol_regime sized is_sized
  vol_regime-IsSized laws c h = ground (
    arith,
    laws.mul-≤f (most_of c) (max_f zero_f c.vol.scalar) h.positive h.finite,
    max_f-one c.vol.scalar,
  )

wash-IsSized : (c : GateContext) → IsSized c (wash c)
unfolding wash sized is_sized
wash-IsSized c = ground arith

shortability-IsSized : (c : GateContext) → IsSized c (shortability c)
unfolding shortability
shortability-IsSized c = search sized_rules

pub attempt-IsSized :
    (c : GateContext) (k : Check) → RunIsSized c (k.run c) → IsSized c (attempt c k)
unfolding attempt sized_run sized is_sized
attempt-IsSized c k h = elim (Result-cases (k.run c)) [
  | inl (o, e) ↦ rw (e, attempt) (subst (RunIsSized c) e h)
  | inr (x, e) ↦ rw (e, attempt) refl
]

-- What the bound on a reduced risk asks of a context: a request that is finite and not negative,
-- and a factor of the drawdown ladder that is a number.
pub record IsBounded (c : GateContext) : Type 0 where
  pub requests : Requests c
  pub ladder : is_finite c.ladder.size_multiplier ≡ true

pub checks-IsSized :
    (rt : Runtime) (c : GateContext)
    → LawfulArith rt.a
    → IsBounded c
    → All (λ k. RunIsSized c (k.run c)) (checks rt)
unfolding checks sized_run
checks-IsSized rt c laws h = (
  mandate-RunIsSized rt c h.requests,
  (
    sleeve_capital-IsSized rt c h.requests,
    (
      house_drawdown-IsSized rt laws c h.requests h.ladder,
      (
        house_cvar-IsSized rt laws c h.requests,
        (
          correlation_stress-IsSized rt c,
          (
            vol_regime-IsSized rt laws c h.requests,
            (
              market_regime-IsSized rt c,
              (
                knife_guard-IsSized rt c,
                (
                  concentration-IsSized rt c h.requests,
                  (
                    liquidity-IsSized rt c h.requests,
                    (
                      cost-IsSized rt c,
                      (
                        wash-IsSized c,
                        (
                          shortability-IsSized c,
                          (
                            data_check-IsSized rt c h.requests,
                            (
                              time-RunIsSized rt c h.requests,
                              (approval-IsSized rt c h.requests, tt),
                            ),
                          ),
                        ),
                      ),
                    ),
                  ),
                ),
              ),
            ),
          ),
        ),
      ),
    ),
  ),
)
