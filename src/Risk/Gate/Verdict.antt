-- ===== src/Risk/Gate/Verdict.antt =====
-- The decision of the gate: signald/risk/gate.py, `evaluate`.
use trading_execution.Prelude.{
  Bool, true, false, none, some, List, [], ◌∷◌, ◌≡◌, refl, ap, subst, if◌then◌else◌, Option-cases,
  if_intro, arith, inl, inr, all, any, All, ◌||◌, ◌∙◌, is_some, is_empty,
}
use trading_execution.Prelude.Float.{Float, min_f, ltb_f, ◌≤f◌}
use trading_execution.Prelude.Results.{ok, err, Result-cases}
use trading_execution.Risk.Gate.Context.{Runtime, GateContext, Failure}
use trading_execution.Risk.Gate.Evaluate.{
  Verdict, GateDecision, Check, checks, attempt, failures_of, is_block, first_block, min_adjusted,
  decide_soft, decide, evaluate, allow_decision, reduce_decision, block_decision,
}
use trading_execution.Risk.Gate.Sized.{LawfulArith, is_sized, sized, most_of, RunIsSized}
use trading_execution.Risk.Gate.Bounds.{IsBounded, checks-IsSized, attempt-IsSized}

abbrev AllSized : Float → List Failure → Type 0
AllSized most fs = All (λ f. is_sized most f ≡ true) fs

failures_of-AllSized :
    (c : GateContext) (ks : List Check)
    → All (λ k. RunIsSized c (k.run c)) ks
    → AllSized (most_of c) (failures_of c ks)
unfolding failures_of sized
failures_of-AllSized c [] h = tt
failures_of-AllSized c (k ∷ ks) h =
    let rest = failures_of-AllSized c ks h.1 in
    let one = attempt-IsSized c k h.0 in
    elim (Option-cases (attempt c k)) [
      | inl e ↦ rw (e, failures_of) rest
      | inr (f, e) ↦ rw (e, failures_of) (subst (λ o. sized (most_of c) o ≡ true) e one, rest)
    ]

-- A failure that is sized and does not block names its risk.
adjusted_of :
    (most : Float) (f : Failure)
    → is_sized most f ≡ true
    → is_block f ≡ false
    → (x : Float) × (f.adjusted_risk_pct ≡ some x) × (x ≤f most)
unfolding is_sized
adjusted_of most f h b = elim (Option-cases f.adjusted_risk_pct) [
  | inl e ↦ ground arith
  | inr (x, e) ↦ (x, e, ground arith)
]

min-≤f-both : (x y z : Float) → x ≤f z → y ≤f z → min_f x y ≤f z
min-≤f-both x y z h k = if_intro (λ v. v ≤f z) (ltb_f y x) k h

first_block-none :
    (f : Failure) (fs : List Failure)
    → first_block (f ∷ fs) ≡ none
    → (is_block f ≡ false) × (first_block fs ≡ none)
unfolding first_block
first_block-none f fs h = ground arith

-- Failures that are sized and do not block have a least risk, which is within the bound.
min_adjusted-≤f :
    (most y : Float) (fs : List Failure)
    → y ≤f most
    → AllSized most fs
    → first_block fs ≡ none
    → (x : Float) × (min_adjusted (some y) fs ≡ some x) × (x ≤f most)
unfolding min_adjusted
min_adjusted-≤f most y [] h s b = (y, refl, h)
min_adjusted-≤f most y (f ∷ fs) h s b =
    let next = first_block-none f fs b in
    let (z, e, k) = adjusted_of most f s.0 next.0 in
    rw (e, min_adjusted) (min_adjusted-≤f most (min_f y z) fs (min-≤f-both y z most h k) s.1 next.1)

-- What a decision says of the risk: reduced to at most what was requested, or untouched.
pub IsWithin : Float → GateDecision → Type 0
IsWithin most d = elim d.verdict [
  | Verdict.reduce ↦ (x : Float) × (d.adjusted_risk_pct ≡ some x) × (x ≤f most)
  | Verdict.allow ↦ d.adjusted_risk_pct ≡ none
  | Verdict.block ↦ d.adjusted_risk_pct ≡ none
]

decide_soft-IsWithin :
    (most : Float) (fs : List Failure)
    → AllSized most fs
    → first_block fs ≡ none
    → (d : GateDecision) × (decide_soft fs ≡ ok d) × IsWithin most d
unfolding decide_soft IsWithin
decide_soft-IsWithin most [] s b = (allow_decision, refl, refl)
decide_soft-IsWithin most (f ∷ fs) s b =
    let next = first_block-none f fs b in
    let (z, e, k) = adjusted_of most f s.0 next.0 in
    let (x, m, l) = min_adjusted-≤f most z fs k s.1 next.1 in
    let whole : min_adjusted none (f ∷ fs) ≡ some x = unfold min_adjusted in rw (e) m in
    (reduce_decision f (f ∷ fs) x, (rw (whole, decide_soft) refl), (x, refl, l))

decide-IsWithin :
    (most : Float) (fs : List Failure)
    → AllSized most fs
    → (d : GateDecision) × (decide fs ≡ ok d) × IsWithin most d
unfolding decide IsWithin
decide-IsWithin most fs s = elim (Option-cases (first_block fs)) [
  | inl e ↦ rw (e, decide) (decide_soft-IsWithin most fs s e)
  | inr (f, e) ↦ (block_decision f fs, (rw (e, decide) refl), refl)
]

-- Under what binary64 promises, the gate answers every request that is finite and not negative: no
-- decision is left undefined by a check that raises or by a reduction without a size. A decision
-- to reduce names a risk, at most what was requested; any other decision names none.
pub evaluate-IsWithin :
    (rt : Runtime) (c : GateContext)
    → LawfulArith rt.a
    → IsBounded c
    → (d : GateDecision) × (evaluate rt c ≡ ok d) × IsWithin c.request.requested_risk_pct d
unfolding evaluate
evaluate-IsWithin rt c laws h =
    decide-IsWithin (most_of c) (failures_of c (checks rt))
      (failures_of-AllSized c (checks rt) (checks-IsSized rt c laws h))

-- What the run of one check means for the verdict: it raises or blocks, or it finds nothing.
abbrev pub stops : GateContext → Check → Bool
stops c k = elim (k.run c) [ err e ↦ true | ok o ↦ elim o [ none ↦ false | some f ↦ is_block f ] ]

abbrev pub passes : GateContext → Check → Bool
passes c k = elim (k.run c) [ err e ↦ false | ok o ↦ elim o [ none ↦ true | some f ↦ false ] ]

-- The verdict as the checks decide it, whatever their order.
abbrev pub verdict_of : GateContext → List Check → Verdict
verdict_of c ks =
    if any (stops c) ks
    then Verdict.block
    else if all (passes c) ks
    then Verdict.allow
    else Verdict.reduce

any_block : List Failure → Bool
unfolding first_block
any_block fs = is_some (first_block fs)

any_block-cons :
    (f : Failure) (fs : List Failure) → any_block (f ∷ fs) ≡ (is_block f || any_block fs)
unfolding any_block first_block
any_block-cons f fs = ground arith

any_block-stops :
    (c : GateContext) (ks : List Check) → any_block (failures_of c ks) ≡ any (stops c) ks
unfolding any_block first_block failures_of attempt
any_block-stops c [] = refl
any_block-stops c (k ∷ ks) =
    let rest = any_block-stops c ks in
    elim (Result-cases (k.run c)) [
      | inl (none, e) ↦ rw (e, failures_of, attempt, any, stops) rest
      | inl (some f, e) ↦
          rw (e, failures_of, attempt, any, stops)
            (any_block-cons f (failures_of c ks) ∙ ap (λ b. is_block f || b) rest)
      | inr (x, e) ↦ rw (e, failures_of, attempt, any, stops) refl
    ]

is_empty-passes :
    (c : GateContext) (ks : List Check) → is_empty (failures_of c ks) ≡ all (passes c) ks
unfolding failures_of attempt
is_empty-passes c [] = refl
is_empty-passes c (k ∷ ks) =
    let rest = is_empty-passes c ks in
    elim (Result-cases (k.run c)) [
      | inl (none, e) ↦ rw (e, failures_of, attempt, all, passes) rest
      | inl (some f, e) ↦ rw (e, failures_of, attempt, all, passes) refl
      | inr (x, e) ↦ rw (e, failures_of, attempt, all, passes) refl
    ]

decide-verdict :
    (fs : List Failure) {d : GateDecision}
    → decide fs ≡ ok d
    → d.verdict ≡ (
        if any_block fs
        then Verdict.block
        else if is_empty fs
        then Verdict.allow
        else Verdict.reduce)
unfolding decide decide_soft any_block
decide-verdict fs h = ground arith

-- A check that raises or blocks decides: the verdict is BLOCK when one does, ALLOW when every check
-- finds nothing, and REDUCE otherwise.
pub evaluate-verdict :
    (rt : Runtime) (c : GateContext) {d : GateDecision}
    → evaluate rt c ≡ ok d
    → d.verdict ≡ verdict_of c (checks rt)
unfolding evaluate
evaluate-verdict rt c h =
    decide-verdict (failures_of c (checks rt)) h
    ∙ rw (any_block-stops c (checks rt), is_empty-passes c (checks rt)) refl
