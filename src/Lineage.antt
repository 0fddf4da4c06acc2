-- ===== src/Lineage.antt =====
-- The monthly review of the sleeves: signald/lineage.py, `propose_allocation` and
-- `kill_shrink_decision`. The texts of the reasons are not modelled.
pub mod Bounds
pub mod Trials
pub mod Comparison
pub mod Claims
pub mod Verdicts
mod Tests
use trading_execution.Prelude.{
  ℕ, Bool, true, false, not, Option, none, some, List, [], ◌∷◌, String, str_eq, if◌then◌else◌, ◌||◌,
  ◌&&◌, is_some, text_le, sort,
}
use trading_execution.Prelude.Dict.{lookup}
use trading_execution.Prelude.Int.{ℤ, pos, leb_ℤ}
use trading_execution.Prelude.Float.{
  Float, Arith, is_finite, leb_f, ltb_f, eqb_f, abs_f, neg_f, min_f, zero_f,
}

-- What is known of one sleeve; `tilt_pct` is what `_finite` makes of it.
pub record Evidence : Type 0 where
  pub clears_noise_bar : Bool
  pub in_drawdown : Bool
  pub hot_streak : Bool
  pub tilt_pct : Option Float

-- `{}`
abbrev pub no_evidence : Evidence
no_evidence = record {
  clears_noise_bar = false;
  in_drawdown = false;
  hot_streak = false;
  tilt_pct = none;
}

-- `AllocationDecision`
pub record AllocationDecision : Type 0 where
  pub sleeve : String
  pub current_pct : Float
  pub proposed_pct : Float
  pub capped_by : Option String
  pub frozen : Bool

-- The limits of a review, and the configured ceilings of the two sleeves after `_finite`.
pub record Limits : Type 0 where
  pub floor_pct : Float
  pub ceiling_pct : Float
  pub band_pct : Float
  pub swing_capital_pct : Option Float
  pub intraday_capital_pct : Option Float

abbrev pub tighter : Float → Option Float → Float
tighter ceiling none = ceiling
tighter ceiling (some hard) = min_f ceiling hard

-- `_hard_ceiling`
unfoldable pub hard_ceiling : Limits → String → Float
hard_ceiling l sleeve =
    if str_eq sleeve "swing"
    then tighter l.ceiling_pct l.swing_capital_pct
    else if str_eq sleeve "intraday"
    then tighter l.ceiling_pct l.intraday_capital_pct
    else l.ceiling_pct

abbrev pub unchanged : String → Float → Bool → AllocationDecision
unchanged sleeve current frozen = record {
  sleeve = sleeve;
  current_pct = current;
  proposed_pct = current;
  capped_by = none;
  frozen = frozen;
}

-- a target between the floor and the ceiling, with what bound it
unfoldable pub clamp : Float → Float → Float → Option String → Float × Option String
clamp floor cap target capped_by =
    if ltb_f target floor
    then (floor, some "floor")
    else if ltb_f cap target
    then (cap, some "ceiling")
    else (target, capped_by)

module _ (a : Arith) where
  -- the target of a tilt, and whether the band bound it
  unfoldable pub banded : Float → Float → Float → Float × Option String
  banded band current tilt =
      if ltb_f band (abs_f tilt)
      then (
        a.add current (if ltb_f tilt zero_f then neg_f (abs_f band) else abs_f band),
        some "band",
      )
      else (a.add current tilt, none)

  unfoldable pub tilted : Limits → String → Float → Float → AllocationDecision
  unfolding banded clamp hard_ceiling
  tilted l sleeve current tilt =
      let aim = banded l.band_pct current tilt in
      let final = clamp l.floor_pct (hard_ceiling l sleeve) aim.0 aim.1 in
      record {
        sleeve = sleeve;
        current_pct = current;
        proposed_pct = final.0;
        capped_by = final.1;
        frozen = false;
      }

  unfoldable pub apply_tilt : Limits → String → Float → Option Float → AllocationDecision
  unfolding tilted
  apply_tilt l sleeve current none = unchanged sleeve current false
  apply_tilt l sleeve current (some tilt) =
      if eqb_f tilt zero_f then unchanged sleeve current false else tilted l sleeve current tilt

  -- the decision on one sleeve
  unfoldable pub propose_one : Limits → Bool → String → Float → Evidence → AllocationDecision
  unfolding apply_tilt
  propose_one l frozen sleeve current e =
      if frozen
      then unchanged sleeve current true
      else if not e.clears_noise_bar
      then unchanged sleeve current false
      else if e.in_drawdown
      then unchanged sleeve current false
      else if e.hot_streak
      then unchanged sleeve current false
      else apply_tilt l sleeve current e.tilt_pct

  abbrev pub evidence_of : List (String × Evidence) → String → Evidence
  evidence_of evidence sleeve = elim (lookup sleeve evidence) [ none ↦ no_evidence | some e ↦ e ]

  unfoldable pub propose_each :
      Limits → Bool → List (String × Evidence) → List (String × Float) → List AllocationDecision
  unfolding propose_one lookup
  propose_each l frozen evidence [] = []
  propose_each l frozen evidence ((sleeve, current) ∷ m) =
      propose_one l frozen sleeve current (evidence_of evidence sleeve)
      ∷ propose_each l frozen evidence m

  -- `propose_allocation`
  unfoldable pub propose_allocation :
      Limits → Bool → List (String × Evidence) → List (String × Float) → List AllocationDecision
  unfolding propose_each sort
  propose_allocation l frozen evidence current =
      propose_each l frozen evidence (sort (λ x y. text_le x.0 y.0) current)

-- The verdicts, and the reason codes of `REVIEW_CRITERIA`.
pub data ReviewVerdict : Type 0 where
  kill shrink keep : ReviewVerdict

pub data Criterion : Type 0 where
  negative_expectation cvar_grows_without_return weak_contribution insufficient_evidence keeps :
      Criterion

-- `ReviewDecision`, without its sleeve and text
pub record ReviewDecision : Type 0 where
  pub verdict : ReviewVerdict
  pub reason_code : Criterion
  pub target_pct : Option Float

-- The bootstrap's mapping, which is not empty.
pub record Bootstrap : Type 0 where
  pub ci_low : Option Float
  pub ci_high : Option Float
  pub excludes_zero : Bool

pub record Review : Type 0 where
  pub trades : ℤ
  pub expectancy_usd : Option Float
  pub current_pct : Float
  pub sample_adequate : Bool
  pub bootstrap : Option Bootstrap
  pub predicted_expectancy_usd : Option Float
  pub cvar_share : Option Float
  pub return_share : Option Float
  pub shrink_pct : Float

-- `MIN_TRADES_FOR_VERDICT`, and the adequate sample
abbrev pub is_enough : Review → Bool
is_enough v = leb_ℤ (pos 100) v.trades && v.sample_adequate

abbrev pub outside : Option Float → Option Float → Float → Bool
outside (some low) (some high) x = not (leb_f low x && leb_f x high)
outside _ _ x = false

-- `ci_excludes_prediction`
unfoldable pub excludes_prediction : Option Bootstrap → Option Float → Bool
excludes_prediction none predicted = false
excludes_prediction (some b) none = false
excludes_prediction (some b) (some x) = outside b.ci_low b.ci_high x

abbrev pub is_loss : Option Float → Bool
is_loss none = false
is_loss (some x) = leb_f x zero_f

abbrev pub is_gain : Option Float → Bool
is_gain none = false
is_gain (some x) = ltb_f zero_f x

abbrev pub exceeds : Option Float → Option Float → Bool
exceeds (some c) (some r) = ltb_f r c
exceeds _ _ = false

abbrev pub is_weak : Option Bootstrap → Bool
is_weak none = false
is_weak (some b) = not b.excludes_zero

abbrev pub is_unpredicted : Review → Bool
is_unpredicted v =
    not (is_some v.predicted_expectancy_usd)
    || excludes_prediction v.bootstrap v.predicted_expectancy_usd

-- `kill_shrink_decision`
unfoldable pub kill_shrink_decision : Review → ReviewDecision
unfolding excludes_prediction
kill_shrink_decision v =
    if is_enough v && (is_loss v.expectancy_usd && is_unpredicted v)
    then record { verdict = kill; reason_code = negative_expectation; target_pct = none }
    else if exceeds v.cvar_share v.return_share
    then record { verdict = kill; reason_code = cvar_grows_without_return; target_pct = none }
    else if is_enough v && is_gain v.expectancy_usd
    then (if is_weak v.bootstrap
        then record {
          verdict = shrink;
          reason_code = weak_contribution;
          target_pct = some v.shrink_pct;
        }
        else record { verdict = keep; reason_code = keeps; target_pct = some v.current_pct })
    else record {
      verdict = keep;
      reason_code = insufficient_evidence;
      target_pct = some v.current_pct;
    }
