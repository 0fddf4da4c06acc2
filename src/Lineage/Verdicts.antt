-- ===== src/Lineage/Verdicts.antt =====
-- What a verdict on a sleeve rests on: signald/lineage.py, `kill_shrink_decision`.
use trading_execution.Prelude.{◌≡◌, true, false, arith, ◌⊎◌, inl, inr, ◌&&◌, Bool-cases}
use trading_execution.Lineage.{
  ReviewVerdict, kill, shrink, keep, Review, is_enough, is_loss, is_gain, exceeds, is_weak,
  is_unpredicted, kill_shrink_decision,
}

-- What each verdict rests on.
abbrev pub Grounds : Review → ReviewVerdict → Type 0
Grounds v kill =
    ((is_enough v ≡ true) × (is_loss v.expectancy_usd ≡ true) × (is_unpredicted v ≡ true))
    ⊎ (exceeds v.cvar_share v.return_share ≡ true)
Grounds v shrink =
    (is_enough v ≡ true) × (is_gain v.expectancy_usd ≡ true) × (is_weak v.bootstrap ≡ true)
Grounds v keep = exceeds v.cvar_share v.return_share ≡ false

-- A sleeve is killed only for a loss over an adequate sample for which there is no prediction or whose
-- interval excludes the prediction, or for a share of the tail risk above its share of the return; it is
-- shrunk only for a gain over an adequate sample whose interval does not clear zero; and it is kept only
-- if its share of the tail risk is not above its share of the return, or one of the two is not known.
pub kill_shrink_decision-Grounds : (v : Review) → Grounds v (kill_shrink_decision v).verdict
unfolding kill_shrink_decision
kill_shrink_decision-Grounds v =
    elim (Bool-cases (is_enough v && (is_loss v.expectancy_usd && is_unpredicted v))) [
      | inl e ↦ rw e (inl (ground (arith, e)))
      | inr e ↦ elim (Bool-cases (exceeds v.cvar_share v.return_share)) [
        | inl f ↦ rw (e, f) (inr f)
        | inr f ↦ elim (Bool-cases (is_enough v && is_gain v.expectancy_usd)) [
          | inr g ↦ rw (e, f, g) f
          | inl g ↦ elim (Bool-cases (is_weak v.bootstrap)) [
            | inl i ↦ rw (e, f, g, i) (ground (arith, g))
            | inr i ↦ rw (e, f, g, i) f
          ]
        ]
      ]
    ]

-- Without an adequate sample a sleeve is killed all the same if its share of the tail risk is above its
-- share of the return.
pub cvar_kills_without_sample :
    (v : Review)
    → v.sample_adequate ≡ false
    → exceeds v.cvar_share v.return_share ≡ true
    → (kill_shrink_decision v).verdict ≡ kill
unfolding kill_shrink_decision
cvar_kills_without_sample v h k = ground (arith, h, k)
