-- ===== src/Store/Audit/Tamper.antt =====
-- Edits and forks of a ledger that verifies: signald/stores.py, `AuditChain.verify`.
use trading_execution.Prelude.{
  ℕ, suc, ◌+◌, ◌≡◌, refl, ◌∙◌, ap, sym, true, false, Option, some, List, [], ◌∷◌, ◌++◌, String,
  arith, subst, inl, inr, ◌⊎◌, Bool-cases, length,
}
use trading_execution.Json.{Value, Fields, obj, get, is_blank}
use trading_execution.Store.Audit.{
  Digest, Verdict, chained, broken, genesis, read, hash_of, last_hash, expected, is_linked,
  check_from, verify_rows, verify, text_of, next_row, Entry,
}
use trading_execution.Store.Audit.Chain.{
  is_linked-hash, IsIntact, next_row-IsIntact, text_of-is_text, check_from-first, check_from-linked,
  check_from-unlinked, check_from-append, verify_rows-check_from, check_from-verify_rows,
  read-append,
}

last_hash-append :
    (h : Option String) (v : Value) (rows : List Value) → last_hash h (rows ++ (v ∷ [])) ≡ hash_of v
unfolding last_hash
last_hash-append h v [] = refl
last_hash-append h v (r ∷ rows) = last_hash-append (hash_of r) v rows

module _ (d : Digest) where
  -- Of rows that are chained, those in front are.
  check_from-front :
      (prev : String) (i n : ℕ) (xs ys : List Value)
      → check_from d prev i (xs ++ ys) ≡ chained n
      → check_from d prev i xs ≡ chained (length xs + i)
  unfolding check_from
  check_from-front prev i n [] ys h = ap chained (omega arith)
  check_from-front prev i n (v ∷ xs) ys h =
      let (row, e, l, k) = check_from-first d prev i n v (xs ++ ys) h in
      rw e (
        check_from-linked d prev i row xs l
        ∙ (check_from-front (expected d prev row) (suc i) n xs ys k ∙ ap chained (omega arith)))

  is_linked-prev :
      (prev : String) (row : Fields)
      → is_linked d prev row ≡ true
      → text_of (get "prev_hash" row) ≡ some prev
  unfolding is_linked
  is_linked-prev prev row h = text_of-is_text prev (get "prev_hash" row) (ground (arith, h))

  chained_second :
      (prev : String) (i n : ℕ) (old next : Fields) (rest : List Value)
      → check_from d prev i (obj old ∷ obj next ∷ rest) ≡ chained n
      → is_linked d (expected d prev old) next ≡ true
  unfolding check_from
  chained_second prev i n old next rest h = ground (arith, h)

  same_text : {a b : String} → ◌≡◌ {A = Option String} (some a) (some b) → a ≡ b
  same_text h = cc

  -- A row stands in another row's place: it is reported, or the next one is, or it is expected to
  -- declare the same hash.
  replaced :
      (prev : String) (i n : ℕ) (old new next : Fields) (rest : List Value)
      → check_from d prev i (obj old ∷ obj next ∷ rest) ≡ chained n
      → (check_from d prev i (obj new ∷ obj next ∷ rest) ≡ broken i)
        ⊎ ((check_from d prev i (obj new ∷ obj next ∷ rest) ≡ broken (suc i))
            ⊎ (expected d prev new ≡ expected d prev old))
  unfolding check_from
  replaced prev i n old new next rest h = elim (Bool-cases (is_linked d prev new)) [
    | inr e ↦ inl (rw e refl)
    | inl e ↦ elim (Bool-cases (is_linked d (expected d prev new) next)) [
      | inr f ↦ inr (inl (rw (e, f) refl))
      | inl f ↦
          let first = chained_second prev i n old next rest h in
          inr (
            inr (
              same_text (
                sym (is_linked-prev (expected d prev new) next f)
                ∙ is_linked-prev (expected d prev old) next first)))
    ]
  ]

  verify-from :
      (v : Verdict) (front tail : List (Option Value)) (row : Fields)
      → check_from d genesis 0 (read front ++ obj row ∷ read tail) ≡ v
      → verify d (front ++ some (obj row) ∷ tail) ≡ v
  unfolding verify read
  verify-from v front tail row h =
      rw (read-append front (some (obj row) ∷ tail))
        (check_from-verify_rows d v (read front) (read tail) (obj row) h)

  -- One row of a ledger that verifies, but for the last, is edited in any way: `verify` reports that row
  -- or the one behind it, unless SHA-256 gives the edited row's text the digest of the old one's.
  pub edit_is_reported :
      (n : ℕ) (front : List (Option Value)) (old new next : Fields) (rest : List (Option Value))
      → verify d (front ++ some (obj old) ∷ some (obj next) ∷ rest) ≡ chained n
      → (verify d (front ++ some (obj new) ∷ some (obj next) ∷ rest) ≡ broken (length (read front)))
        ⊎ ((verify d (front ++ some (obj new) ∷ some (obj next) ∷ rest)
              ≡ broken (suc (length (read front))))
            ⊎ ((prev : String) × (last_hash (some genesis) (read front) ≡ some prev)
                × (expected d prev new ≡ expected d prev old)))
  unfolding verify read
  edit_is_reported n front old new next rest h =
      let ends =
        sym (
          ap (λ rows. verify_rows d rows)
            (read-append front (some (obj old) ∷ some (obj next) ∷ rest)))
        ∙ h in
      let whole =
        verify_rows-check_from d n (read front ++ obj old ∷ obj next ∷ read rest) (inl ends) in
      let fine = check_from-front genesis 0 n (read front) (obj old ∷ obj next ∷ read rest) whole in
      let (prev, l, a, f) =
        check_from-append d genesis 0 (length (read front) + 0) (read front) fine in
      let place : length (read front) + 0 ≡ length (read front) = omega arith in
      elim (replaced prev (length (read front) + 0) n old new next (read rest)
        (sym (f (obj old ∷ obj next ∷ read rest)) ∙ whole)) [
          | inl e ↦ inl (
              verify-from (broken (length (read front))) front (some (obj next) ∷ rest) new
                (f (obj new ∷ obj next ∷ read rest) ∙ (e ∙ ap broken place)))
          | inr (inl e) ↦ inr (
              inl (
                verify-from (broken (suc (length (read front)))) front (some (obj next) ∷ rest) new
                  (f (obj new ∷ obj next ∷ read rest) ∙ (e ∙ ap (λ i. broken (suc i)) place))))
          | inr (inr e) ↦ inr (inr (prev, l, e))
        ]

  -- Two processes append to a ledger that verifies, and both read it before either writes: `verify`
  -- reports the second row, unless the first one's digest is the hash that it is linked to.
  pub fork_is_reported :
      (n : ℕ) (lines : List (Option Value)) (e f : Entry) (a b : Fields)
      → IsIntact d n lines
      → is_blank e.1 ≡ false
      → is_blank f.1 ≡ false
      → next_row d lines e.0 e.1 e.2 e.3 ≡ some a
      → next_row d lines f.0 f.1 f.2 f.3 ≡ some b
      → (verify d (lines ++ some (obj a) ∷ some (obj b) ∷ []) ≡ broken (suc n))
        ⊎ (last_hash (some genesis) (read (lines ++ some (obj a) ∷ []))
            ≡ last_hash (some genesis) (read lines))
  unfolding verify read
  fork_is_reported n lines e f a b h k m p q =
      let (prev, a', l, u, links, g) = next_row-IsIntact d n lines e.0 e.1 e.2 e.3 k h in
      let (prev', b', l', u', links', g') = next_row-IsIntact d n lines f.0 f.1 f.2 f.3 m h in
      let first : a' ≡ a = cc (u, p) in
      let second : b' ≡ b = cc (u', q) in
      let before : prev' ≡ prev = same_text (sym l' ∙ l) in
      let a_links : is_linked d prev a ≡ true =
        subst (λ r. is_linked d prev r ≡ true) first links in
      let b_links : is_linked d prev b ≡ true =
        subst (λ t. is_linked d t b ≡ true) before
          (subst (λ r. is_linked d prev' r ≡ true) second links') in
      let begun = g (obj a ∷ obj b ∷ []) ∙ check_from-linked d prev n a (obj b ∷ []) a_links in
      elim (Bool-cases (is_linked d (expected d prev a) b)) [
        | inr o ↦ inl (
            verify-from (broken (suc n)) lines (some (obj b) ∷ []) a
              (begun ∙ check_from-unlinked d (expected d prev a) (suc n) b [] o))
        | inl o ↦ inr (
            ap (last_hash (some genesis)) (read-append lines (some (obj a) ∷ []))
            ∙ (last_hash-append (some genesis) (obj a) (read lines)
                ∙ (is_linked-hash d prev a a_links
                    ∙ (sym (is_linked-prev (expected d prev a) b o)
                        ∙ (is_linked-prev prev b b_links ∙ sym l)))))
      ]
