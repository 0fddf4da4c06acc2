-- ===== src/Lineage/Bounds.antt =====
-- The bounds of a proposed allocation: signald/lineage.py, `propose_allocation`.
use trading_execution.Prelude.{
  ◌≡◌, refl, Bool, true, false, not, Option, none, some, List, [], ◌∷◌, String, arith, ◌⊎◌, inl,
  inr, All, All-sort, if_intro, text_le, sort,
}
use trading_execution.Prelude.Float.{Float, Arith, ltb_f, eqb_f, zero_f}
use trading_execution.Lineage.{
  Evidence, AllocationDecision, Limits, hard_ceiling, clamp, banded, tilted, apply_tilt,
  propose_one, evidence_of, propose_each, propose_allocation,
}

-- Nothing moves, or the proposal stands between the floor and the sleeve's ceiling.
abbrev pub IsBounded : Limits → AllocationDecision → Type 0
IsBounded l d =
    (d.proposed_pct ≡ d.current_pct)
    ⊎ ((ltb_f d.proposed_pct l.floor_pct ≡ false)
        × (ltb_f (hard_ceiling l d.sleeve) d.proposed_pct ≡ false))

-- The floor is not above the ceiling of the sleeve.
abbrev pub HasRoom : Limits → String × Float → Type 0
HasRoom l e = ltb_f (hard_ceiling l e.0) l.floor_pct ≡ false

irreflexive : (x : Float) → ltb_f x x ≡ false
unfolding ltb_f
irreflexive x = ground arith

clamp_lem :
    (floor cap target : Float) (by : Option String)
    → ltb_f cap floor ≡ false
    → (ltb_f (clamp floor cap target by).0 floor ≡ false)
      × (ltb_f cap (clamp floor cap target by).0 ≡ false)
unfolding clamp
clamp_lem floor cap target by h = ground (arith, h, irreflexive floor, irreflexive cap)

module _ (a : Arith) where
  tilt_lem :
      (l : Limits) (sleeve : String) (current : Float) (tilt : Option Float)
      → HasRoom l (sleeve, current)
      → IsBounded l (apply_tilt a l sleeve current tilt)
  unfolding apply_tilt tilted
  tilt_lem l sleeve current none h = inl refl
  tilt_lem l sleeve current (some tilt) h =
      if_intro (λ (d : AllocationDecision). IsBounded l d) (eqb_f tilt zero_f) (inl refl)
        (inr (
          clamp_lem l.floor_pct (hard_ceiling l sleeve) (banded a l.band_pct current tilt).0
            (banded a l.band_pct current tilt).1 h))

  one_lem :
      (l : Limits) (frozen : Bool) (sleeve : String) (current : Float) (e : Evidence)
      → HasRoom l (sleeve, current)
      → IsBounded l (propose_one a l frozen sleeve current e)
  unfolding propose_one
  one_lem l frozen sleeve current e h =
      let P = λ (d : AllocationDecision). IsBounded l d in
      if_intro P frozen (inl refl) (
        if_intro P (not e.clears_noise_bar) (inl refl) (
          if_intro P e.in_drawdown (inl refl)
            (if_intro P e.hot_streak (inl refl) (tilt_lem l sleeve current e.tilt_pct h))))

  each_lem :
      (l : Limits) (frozen : Bool) (evidence : List (String × Evidence))
      (current : List (String × Float))
      → All (HasRoom l) current
      → All (IsBounded l) (propose_each a l frozen evidence current)
  unfolding propose_each
  each_lem l frozen evidence [] h = tt
  each_lem l frozen evidence ((sleeve, current) ∷ m) h = (
    one_lem l frozen sleeve current (evidence_of a evidence sleeve) h.0,
    each_lem l frozen evidence m h.1,
  )

  -- Where the floor is above the ceiling of no sleeve, every proposal leaves its sleeve as it is or stands
  -- between the floor and the ceiling of the sleeve, whatever the evidence.
  pub propose_allocation-IsBounded :
      (l : Limits) (frozen : Bool) (evidence : List (String × Evidence))
      (current : List (String × Float))
      → All (HasRoom l) current
      → All (IsBounded l) (propose_allocation a l frozen evidence current)
  unfolding propose_allocation
  propose_allocation-IsBounded l frozen evidence current h =
      each_lem l frozen evidence (sort (λ x y. text_le x.0 y.0) current)
        (All-sort (HasRoom l) (λ x y. text_le x.0 y.0) current h)

  -- Where the floor is above the ceiling of a sleeve, a tilt that aims below the floor is proposed at the
  -- floor, and so above the ceiling.
  pub floor_beats_ceiling :
      (l : Limits) (sleeve : String) (current tilt : Float)
      → ltb_f (hard_ceiling l sleeve) l.floor_pct ≡ true
      → ltb_f (banded a l.band_pct current tilt).0 l.floor_pct ≡ true
      → ltb_f (hard_ceiling l sleeve) (tilted a l sleeve current tilt).proposed_pct ≡ true
  unfolding tilted clamp
  floor_beats_ceiling l sleeve current tilt h k = rw k h
