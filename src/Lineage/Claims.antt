-- ===== src/Lineage/Claims.antt =====
-- What the claim of a comparison rests on: signald/lineage.py, `compare`.
use trading_execution.Prelude.{
  ℕ, ◌≡◌, ◌≤◌, Bool, true, false, not, Option, none, List, String, arith, ◌⊎◌, inl, inr,
  if◌then◌else◌, ◌||◌, ◌&&◌, length, ltb, is_some, Bool-cases, Option-cases,
}
use trading_execution.Prelude.Float.{Float, Arith}
use trading_execution.Lineage.Comparison.{
  TradeRow, Reason, Sentence, feasibility, adequate, no_difference, is_adequate, daily_pnl, aligned,
  either, reason_of, claim_of, compare_claim,
}

module _ (a : Arith) (paired : List Float → List Float → Bool) (minimum : ℕ)
    (trades_a trades_b : List TradeRow) where
  abbrev days_a : List (String × Float)
  days_a = (daily_pnl a trades_a).0

  abbrev days_b : List (String × Float)
  days_b = (daily_pnl a trades_b).0

  abbrev why : Option Reason
  why =
      reason_of a (either a (daily_pnl a trades_a).1 (daily_pnl a trades_b).1)
        (aligned a days_a days_b).0 days_a days_b

  abbrev IsLong : Type 0
  IsLong =
      (3500 ≤ length (aligned a days_a days_b).0)
      × (is_adequate minimum trades_a ≡ true)
      × (is_adequate minimum trades_b ≡ true)

  -- What each sentence rests on.
  abbrev pub Rests : Sentence → Type 0
  Rests feasibility =
      (ltb (length (aligned a days_a days_b).0) 3500
        || not (is_adequate minimum trades_a && is_adequate minimum trades_b))
      ≡ true
  Rests adequate =
      IsLong
      × (why ≡ none)
      × (paired (aligned a days_a days_b).1 (aligned a days_a days_b).2 ≡ true)
  Rests no_difference =
      IsLong
      × ((is_some why ≡ true)
          ⊎ (paired (aligned a days_a days_b).1 (aligned a days_a days_b).2 ≡ false))

  claim_lem :
      (n : ℕ) (b e : Bool)
      → ((claim_of a n b e ≡ feasibility) × ((ltb n 3500 || not b) ≡ true))
        ⊎ (((claim_of a n b e ≡ adequate) × (3500 ≤ n) × (b ≡ true) × (e ≡ true))
            ⊎ ((claim_of a n b e ≡ no_difference) × (3500 ≤ n) × (b ≡ true) × (e ≡ false)))
  unfolding claim_of
  claim_lem n b e = ground arith

  abbrev excludes : Bool
  excludes =
      if is_some why then false else paired (aligned a days_a days_b).1 (aligned a days_a days_b).2

  both_lem : (x y : Bool) → (x && y) ≡ true → (x ≡ true) × (y ≡ true)
  both_lem x y h = ground (arith, h)

  excludes_lem :
      excludes ≡ true
      → (why ≡ none) × (paired (aligned a days_a days_b).1 (aligned a days_a days_b).2 ≡ true)
  excludes_lem h = elim (Option-cases why) [
    | inl e ↦ (e, rw e at h)
    | inr (r, e) ↦ let no : false ≡ true = rw e at h in cc
  ]

  not_excludes_lem :
      excludes ≡ false
      → (is_some why ≡ true)
        ⊎ (paired (aligned a days_a days_b).1 (aligned a days_a days_b).2 ≡ false)
  not_excludes_lem h = elim (Bool-cases (is_some why)) [ inl e ↦ inl e | inr e ↦ inr (rw e at h) ]

  -- The claim of a comparison says that the interval excludes zero only where there are at least 3500 sessions,
  -- both samples are adequate, the series could be paired and the interval does exclude zero; it says that no
  -- difference can be told from noise where these are long enough and the interval does not exclude zero, or
  -- could not be computed; and it speaks of feasibility only where the sessions or a sample fall short.
  pub compare_claim-Rests : Rests (compare_claim a paired minimum trades_a trades_b)
  unfolding compare_claim
  compare_claim-Rests =
      let n = length (aligned a days_a days_b).0 in
      let both = is_adequate minimum trades_a && is_adequate minimum trades_b in
      elim (claim_lem n both excludes) [
        | inl (e, short) ↦ rw e short
        | inr (inl (e, long, fine, sure)) ↦
            let (x, y) =
              both_lem (is_adequate minimum trades_a) (is_adequate minimum trades_b) fine in
            let (whole, away) = excludes_lem sure in rw e ((long, x, y), whole, away)
        | inr (inr (e, long, fine, unsure)) ↦
            let (x, y) =
              both_lem (is_adequate minimum trades_a) (is_adequate minimum trades_b) fine in
            rw e ((long, x, y), not_excludes_lem unsure)
      ]
