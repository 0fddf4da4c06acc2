-- ===== src/Store/Audit/Chain.antt =====
-- Appends to a ledger that verifies: signald/stores.py, `AuditChain`.
use trading_execution.Prelude.{
  ℕ, suc, ◌+◌, ◌≡◌, refl, ◌∙◌, ap, sym, true, false, Option, none, some, List, [], ◌∷◌, ◌++◌,
  String, eq_refl, eq_iff, arith, subst, append-nil, append_assoc, inl, inr, ◌⊎◌, Bool-cases,
  length, All,
}
use trading_execution.Json.{
  Value, Fields, obj, str, end, get, without, is_truthy, is_blank, null, int, num, bool, arr,
}
use trading_execution.Store.Audit.{
  Digest, Verdict, empty_ledger, chained, broken, genesis, read, hash_of, text_of, is_text,
  last_hash, expected, is_linked, check_from, verify_rows, verify, unsealed, seal, next_row, append,
  Entry, append_all,
}

pub read-append : (xs ys : List (Option Value)) → read (xs ++ ys) ≡ read xs ++ read ys
unfolding read
read-append [] ys = refl
read-append (none ∷ xs) ys = ap (λ r. obj end ∷ r) (read-append xs ys)
read-append (some v ∷ xs) ys = ap (λ r. v ∷ r) (read-append xs ys)

pub text_of-is_text : (s : String) (v : Value) → is_text s v ≡ true → text_of v ≡ some s
text_of-is_text s (str u) h = ap some ((eq_iff u s).0 h)
text_of-is_text s null h = cc
text_of-is_text s (obj fs) h = cc
text_of-is_text s (int n) h = cc
text_of-is_text s (num x) h = cc
text_of-is_text s (bool b) h = cc
text_of-is_text s (arr vs) h = cc

module _ (d : Digest) where
  -- A row that links declares the hash that is expected of it.
  pub is_linked-hash :
      (prev : String) (row : Fields)
      → is_linked d prev row ≡ true
      → hash_of (obj row) ≡ some (expected d prev row)
  unfolding is_linked
  is_linked-hash prev row h =
      text_of-is_text (expected d prev row) (get "hash" row) (ground (arith, h))

  -- The first row of those that are chained links.
  pub check_from-first :
      (prev : String) (i n : ℕ) (v : Value) (vs : List Value)
      → check_from d prev i (v ∷ vs) ≡ chained n
      → (row : Fields) × (v ≡ obj row)
        × (is_linked d prev row ≡ true)
        × (check_from d (expected d prev row) (suc i) vs ≡ chained n)
  unfolding check_from
  check_from-first prev i n (obj row) vs h = elim (Bool-cases (is_linked d prev row)) [
    | inl e ↦ (row, refl, e, rw e at h)
    | inr e ↦ let no : broken i ≡ chained n = rw e at h in cc
  ]
  check_from-first prev i n (str u) vs h = cc
  check_from-first prev i n null vs h = cc
  check_from-first prev i n (int k) vs h = cc
  check_from-first prev i n (num x) vs h = cc
  check_from-first prev i n (bool b) vs h = cc
  check_from-first prev i n (arr us) vs h = cc

  pub check_from-linked :
      (prev : String) (i : ℕ) (row : Fields) (vs : List Value)
      → is_linked d prev row ≡ true
      → check_from d prev i (obj row ∷ vs) ≡ check_from d (expected d prev row) (suc i) vs
  unfolding check_from
  check_from-linked prev i row vs h = rw h refl

  pub check_from-unlinked :
      (prev : String) (i : ℕ) (row : Fields) (vs : List Value)
      → is_linked d prev row ≡ false
      → check_from d prev i (obj row ∷ vs) ≡ broken i
  unfolding check_from
  check_from-unlinked prev i row vs h = rw h refl

  same_chained : {a b : ℕ} → chained a ≡ chained b → a ≡ b
  same_chained h = cc

  -- Behind rows that are chained, the check goes on from the last hash.
  pub check_from-append :
      (prev : String) (i n : ℕ) (xs : List Value)
      → check_from d prev i xs ≡ chained n
      → (p : String) × (last_hash (some prev) xs ≡ some p)
        × (n ≡ length xs + i)
        × ((ys : List Value) → check_from d prev i (xs ++ ys) ≡ check_from d p n ys)
  unfolding check_from last_hash
  check_from-append prev i n [] h = (
    prev,
    refl,
    omega (arith, same_chained h),
    λ ys. ap (λ k. check_from d prev k ys) (same_chained h),
  )
  check_from-append prev i n (v ∷ xs) h =
      let (row, e, l, k) = check_from-first prev i n v xs h in
      let (p, m, a, f) = check_from-append (expected d prev row) (suc i) n xs k in
      rw e (
        p,
        ap (λ o. last_hash o xs) (is_linked-hash prev row l) ∙ m,
        omega arith,
        λ ys. check_from-linked prev i row (xs ++ ys) l ∙ f ys,
      )

  sealed-is_linked :
      (index : ℕ) (ts kind reason : String) (payload : Fields) (prev : String)
      → is_blank kind ≡ false
      → is_linked d prev (seal d prev (unsealed index ts kind reason payload prev)) ≡ true
  unfolding is_linked seal unsealed expected without get is_truthy
  sealed-is_linked index ts kind reason payload prev h =
      ground (
        arith,
        eq_refl prev,
        eq_refl (expected d prev (unsealed index ts kind reason payload prev)),
      )

  -- The ledger verifies, with that many rows.
  abbrev pub IsIntact : ℕ → List (Option Value) → Type 0
  IsIntact n lines = (verify d lines ≡ chained n) ⊎ ((verify d lines ≡ empty_ledger) × (n ≡ 0))

  never_empty :
      (prev : String) (i : ℕ) (rows : List Value) → check_from d prev i rows ≡ empty_ledger → ⊥
  unfolding check_from
  never_empty prev i [] h = cc
  never_empty prev i (obj row ∷ rows) h =
      ground (arith, never_empty (expected d prev row) (suc i) rows)
  never_empty prev i (str u ∷ rows) h = cc
  never_empty prev i (null ∷ rows) h = cc
  never_empty prev i (int k ∷ rows) h = cc
  never_empty prev i (num x ∷ rows) h = cc
  never_empty prev i (bool b ∷ rows) h = cc
  never_empty prev i (arr us ∷ rows) h = cc

  pub verify_rows-check_from :
      (n : ℕ) (rows : List Value)
      → (verify_rows d rows ≡ chained n) ⊎ ((verify_rows d rows ≡ empty_ledger) × (n ≡ 0))
      → check_from d genesis 0 rows ≡ chained n
  unfolding verify_rows check_from
  verify_rows-check_from n [] (inl h) = cc
  verify_rows-check_from n [] (inr h) = ap chained (sym h.1)
  verify_rows-check_from n (v ∷ vs) (inl h) = h
  verify_rows-check_from n (v ∷ vs) (inr h) = absurd (never_empty genesis 0 (v ∷ vs) h.0)

  pub check_from-verify_rows :
      (v : Verdict) (rows tail : List Value) (row : Value)
      → check_from d genesis 0 (rows ++ row ∷ tail) ≡ v
      → verify_rows d (rows ++ row ∷ tail) ≡ v
  unfolding verify_rows
  check_from-verify_rows v [] tail row h = h
  check_from-verify_rows v (r ∷ rows) tail row h = h

  end_of_chain : (prev : String) (i : ℕ) → check_from d prev i [] ≡ chained i
  unfolding check_from
  end_of_chain prev i = refl

  -- The row of an append to a ledger that verifies.
  pub next_row-IsIntact :
      (n : ℕ) (lines : List (Option Value)) (ts kind reason : String) (payload : Fields)
      → is_blank kind ≡ false
      → IsIntact n lines
      → (prev : String) × (row : Fields) × (last_hash (some genesis) (read lines) ≡ some prev)
        × (next_row d lines ts kind reason payload ≡ some row)
        × (is_linked d prev row ≡ true)
        × ((ys : List Value) → check_from d genesis 0 (read lines ++ ys) ≡ check_from d prev n ys)
  unfolding next_row verify
  next_row-IsIntact n lines ts kind reason payload k h =
      let (prev, l, a, f) =
        check_from-append genesis 0 n (read lines) (verify_rows-check_from n (read lines) h) in
      (
        prev,
        seal d prev (unsealed (length (read lines)) ts kind reason payload prev),
        l,
        rw (l, next_row) refl,
        sealed-is_linked (length (read lines)) ts kind reason payload prev k,
        f,
      )

  -- One append to a ledger that verifies.
  append-IsIntact :
      (n : ℕ) (lines : List (Option Value)) (ts kind reason : String) (payload : Fields)
      → is_blank kind ≡ false
      → IsIntact n lines
      → (line : Option Value) × (append d lines ts kind reason payload
          ≡ some (lines ++ (line ∷ [])))
        × (verify d (lines ++ (line ∷ [])) ≡ chained (suc n))
  unfolding append verify read
  append-IsIntact n lines ts kind reason payload k h =
      let (prev, row, l, e, links, f) = next_row-IsIntact n lines ts kind reason payload k h in
      (
        some (obj row),
        rw (e, append) refl,
        rw (read-append lines (some (obj row) ∷ [])) (
            check_from-verify_rows (chained (suc n)) (read lines) [] (obj row) (
              f (obj row ∷ [])
              ∙ (check_from-linked prev n row [] links
                  ∙ end_of_chain (expected d prev row) (suc n)))),
      )

  -- Appends to a ledger that verifies, each of a kind that is not empty, all succeed, leave the lines
  -- that were there in place, and give a ledger that verifies with one row more for each.
  pub append_all-verify :
      (n : ℕ) (lines : List (Option Value)) (es : List Entry)
      → IsIntact n lines
      → All (λ e. is_blank e.1 ≡ false) es
      → (added : List (Option Value)) × (append_all d lines es ≡ some (lines ++ added))
        × IsIntact (n + length es) (lines ++ added)
  unfolding append_all
  append_all-verify n lines [] h k = (
    [],
    ap some (sym (append-nil lines)),
    rw (append-nil lines) (subst (λ m. IsIntact m lines) (omega arith) h),
  )
  append_all-verify n lines ((ts, kind, reason, payload) ∷ es) h k =
      let (line, e, v) = append-IsIntact n lines ts kind reason payload k.0 h in
      let (added, f, w) = append_all-verify (suc n) (lines ++ (line ∷ [])) es (inl v) k.1 in
      (
        line ∷ added,
        rw (e, append_all) (f ∙ ap some (append_assoc lines (line ∷ []) added)),
        subst (λ m. IsIntact m (lines ++ line ∷ added)) (omega arith)
            (subst (IsIntact (suc n + length es)) (append_assoc lines (line ∷ []) added) w),
      )
