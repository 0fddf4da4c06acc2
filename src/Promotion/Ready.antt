-- ===== src/Promotion/Ready.antt =====
-- What a complete checklist shows: signald/promotion.py, `promotion_report` and `hard_cap_violation`.
use trading_execution.Prelude.{
  ◌≡◌, refl, ap, sym, subst, ◌∙◌, Bool, true, false, Option, none, some, List, [], ◌∷◌, ◌++◌,
  String, arith, inl, inr, ◌⊎◌, str_eq, ◌&&◌, All, is_empty, Bool-cases,
}
use trading_execution.Prelude.Int.{ℤ, leb_ℤ}
use trading_execution.Prelude.Float.{Float, leb_f, ltb_f, zero_f}
use trading_execution.Prelude.Results.{Result, ok, ◌>>=◌, >>=-eq-ok, guard-eq-ok}
use trading_execution.Json.{Value, null, str, obj, int, num, bool, arr, is_blank, one_of}
use trading_execution.Promotion.{
  Runtime, ChecklistItem, PromotionReport, Claim, item, blockers_of, has_passed, number,
  validation_failures, realised_fills, min_cost_model_fills, is_positive, base_items, live_items,
  report_of, promotion_report, opt_ins_enforced, Violation, unusable_cap, over_cap, over, under_cap,
  hard_cap_violation,
}

abbrev Holds : ChecklistItem → Type 0
Holds i = i.satisfied ≡ true

blockers_lem : (is : List ChecklistItem) → is_empty (blockers_of is) ≡ true → All Holds is
unfolding blockers_of
blockers_lem [] h = tt
blockers_lem (i ∷ is) h = elim (Bool-cases i.satisfied) [
  | inl e ↦ (e, blockers_lem is (rw e at h))
  | inr e ↦ let no : false ≡ true = rw e at h in cc
]

All-left : (xs ys : List ChecklistItem) → All Holds (xs ++ ys) → All Holds xs × All Holds ys
All-left [] ys h = (tt, h)
All-left (x ∷ xs) ys h = let (a, b) = All-left xs ys h.1 in ((h.0, a), b)

empty_lem : {A : Type 0} (xs : List A) → is_empty xs ≡ true → xs ≡ []
empty_lem [] h = refl
empty_lem (x ∷ xs) h = cc

module _ (w : Runtime) where
  -- The configured amount is a positive number.
  abbrev pub IsPositive : Value → Type 0
  IsPositive v = (x : Float) × (number w v ≡ ok (some x)) × (ltb_f zero_f x ≡ true)

  abbrev pub IsLiveReady : Bool → Claim → Type 0
  IsLiveReady true c = IsPositive c.hard_cap_usd × IsPositive c.approval_threshold_usd
  IsLiveReady false c = Unit

  -- What a complete report has shown.
  pub record IsReady (c : Claim) : Type 0 where
    pub sessions : leb_ℤ c.paper_sessions_required c.sessions_reconciled ≡ true
    pub some_drill : is_empty c.required_drills ≡ false
    pub drills : has_passed c.required_drills c.drills_passed ≡ true
    pub gates : validation_failures w c.validation ≡ ok []
    pub fills : ℤ
    pub realised : realised_fills w c.validation ≡ ok fills
    pub enough_fills : leb_ℤ min_cost_model_fills fills ≡ true
    pub tested :
        (c.kill_switch_tested && (c.daily_loss_tested && (c.stale_data_tested && c.backups_tested)))
        ≡ true
    pub signed : is_blank (w.strip c.owner_signed_date) ≡ false
    pub live : IsLiveReady (str_eq c.profile "live") c

  positive_lem :
      (v : Value) (n : Option Float) → number w v ≡ ok n → is_positive w n ≡ true → IsPositive v
  positive_lem v none e h = cc
  positive_lem v (some x) e h = (x, e, h)

  live_lem :
      (c : Claim) (items : List ChecklistItem) (b : Bool)
      → str_eq c.profile "live" ≡ b
      → live_items w c ≡ ok items
      → All Holds items
      → IsLiveReady b c
  unfolding live_items
  live_lem c items false e h k = tt
  live_lem c items true e h k =
      let (cap, a, h1) = >>=-eq-ok (number w c.hard_cap_usd) _ (rw e at h) in
      let (threshold, b, h2) = >>=-eq-ok (number w c.approval_threshold_usd) _ h1 in
      let same : item "hard_cap" (is_positive w cap)
            ∷ item "approval_thresholds" (is_positive w threshold)
            ∷ item "opt_ins" opt_ins_enforced
            ∷ []
          ≡ items =
        cc h2 in
      let each = subst (All Holds) (sym same) k in
      (
        positive_lem c.hard_cap_usd cap a each.0,
        positive_lem c.approval_threshold_usd threshold b each.1.0,
      )

  -- A report that is complete has every condition of the checklist behind it: the sessions, at least one
  -- drill and no drill missing, no failure of a validation gate, the fills of the cost model, the four
  -- demonstrations and the owner's date; and for the live profile a hard cap and an approval threshold that
  -- are positive numbers.
  pub promotion_report-IsReady :
      (c : Claim) (r : PromotionReport)
      → promotion_report w c ≡ ok r
      → r.complete ≡ true
      → IsReady c
  unfolding promotion_report base_items
  promotion_report-IsReady c r h k =
      let (a, h1) = guard-eq-ok (one_of c.profile ("signal" ∷ "paper" ∷ "live" ∷ [])) _ _ h in
      let (failures, b, h2) = >>=-eq-ok (validation_failures w c.validation) _ h1 in
      let (fills, d, h3) = >>=-eq-ok (realised_fills w c.validation) _ h2 in
      let (live, e, h4) = >>=-eq-ok (live_items w c) _ h3 in
      let same : report_of w c.profile (base_items w c failures fills ++ live) ≡ r = cc h4 in
      let each =
        blockers_lem (base_items w c failures fills ++ live)
          (ap (λ (x : PromotionReport). x.complete) same ∙ k) in
      let (base, rest) = All-left (base_items w c failures fills) live each in
      let none_failed = empty_lem failures base.1.1.0 in
      record {
        sessions = base.0;
        some_drill = ground (arith, base.1.0);
        drills = ground (arith, base.1.0);
        gates = b ∙ ap ok none_failed;
        fills = fills;
        realised = d;
        enough_fills = base.1.1.1.0;
        tested =
            ground
              (arith, base.1.1.1.1.0, base.1.1.1.1.1.0, base.1.1.1.1.1.1.0, base.1.1.1.1.1.1.1.0);
        signed = ground (arith, base.1.1.1.1.1.1.1.1.0);
        live = live_lem c live (str_eq c.profile "live") refl e rest;
      }

  same_none :
      {o : Option (Violation w)}
      → ◌≡◌ {A = Result String (Option (Violation w))} (ok o) (ok none)
      → o ≡ none
  same_none h = cc

  over_lem :
      (cap : Float) (n : Option Float)
      → over w cap n ≡ none
      → (x : Float) × (n ≡ some x) × (ltb_f cap x ≡ false)
  over_lem cap none h = cc
  over_lem cap (some x) h = elim (Bool-cases (ltb_f cap x)) [
    | inl e ↦ let no : some over_cap ≡ none = rw e at h in cc
    | inr e ↦ (x, refl, e)
  ]

  -- The order is no larger than the cap, which is positive.
  abbrev pub IsUnder : Value → Value → Type 0
  IsUnder cap notional =
      (c : Float) × (n : Float) × (number w cap ≡ ok (some c))
      × (number w notional ≡ ok (some n))
      × (leb_f c zero_f ≡ false)
      × (ltb_f c n ≡ false)

  under_lem :
      (cap : Option Float) (notional : Value)
      → under_cap w cap notional ≡ ok none
      → (c : Float) × (n : Float) × (cap ≡ some c)
        × (number w notional ≡ ok (some n))
        × (leb_f c zero_f ≡ false)
        × (ltb_f c n ≡ false)
  under_lem none notional h = cc
  under_lem (some cap) notional h = elim (Bool-cases (leb_f cap zero_f)) [
    | inl e ↦
        let no : ◌≡◌ {A = Result String (Option (Violation w))} (ok (some unusable_cap)) (ok none) =
          rw e at h in
        cc
    | inr e ↦
        let (n, a, h1) = >>=-eq-ok (number w notional) _ (rw e at h) in
        let (x, b, f) = over_lem cap n (same_none h1) in (cap, x, refl, a ∙ ap ok b, e, f)
  ]

  configured :
      (cap notional : Value)
      → number w cap >>= (λ c. under_cap w c notional) ≡ ok none
      → IsUnder cap notional
  configured cap notional h =
      let (found, a, h1) = >>=-eq-ok (number w cap) _ h in
      let (c, n, b, d, e, f) = under_lem found notional h1 in (c, n, a ∙ ap ok b, d, e, f)

  -- An order in which no violation is found stands under the hard cap, or no cap is configured: the cap is
  -- a positive number, and the notional a number that is no larger.
  pub hard_cap_violation-IsUnder :
      (notional cap : Value)
      → hard_cap_violation w notional cap ≡ ok none
      → (cap ≡ null) ⊎ IsUnder cap notional
  unfolding hard_cap_violation
  hard_cap_violation-IsUnder notional null h = inl refl
  hard_cap_violation-IsUnder notional (num x) h = inr (configured (num x) notional h)
  hard_cap_violation-IsUnder notional (int n) h = inr (configured (int n) notional h)
  hard_cap_violation-IsUnder notional (str s) h = inr (configured (str s) notional h)
  hard_cap_violation-IsUnder notional (bool b) h = inr (configured (bool b) notional h)
  hard_cap_violation-IsUnder notional (obj f) h = inr (configured (obj f) notional h)
  hard_cap_violation-IsUnder notional (arr a) h = inr (configured (arr a) notional h)
