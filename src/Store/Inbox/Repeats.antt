-- ===== src/Store/Inbox/Repeats.antt =====
-- Artifacts that the dedupe table does not hold: signald/inbox.py, `Inbox`.
use trading_execution.Prelude.{
  ℕ, zero, suc, ◌+◌, length, [], ◌∷◌, ◌++◌, length-append, ◌≡◌, refl, false, none, List, String,
  arith, str_eq,
}
use trading_execution.Prelude.Results.{ok, err}
use trading_execution.Json.{Fields, obj, end, has_key, get, is_truthy}
use trading_execution.Contract.{
  envelope, Stamp, Wire, Version, validate_envelope, check_compatibility, parse_semver, check_body,
  require_str,
}
use trading_execution.Store.Inbox.{
  Row, latest_of, keyed, Inbox, Dropped, body, state_of, key_for, unreadable_key, dead_letter,
  admit_valid, admit_invalid, admit_body, admit,
}
use trading_execution.Store.Inbox.Once.{
  state_of-append, Step, offer, step, run, times_accepted, flag, lets_in,
}

-- The same step, that many times.
unfoldable pub repeat : ℕ → Step → List Step
repeat zero s = []
repeat (suc n) s = s ∷ repeat n s

length-snoc {ℓ} : {A : Type ℓ} (x : A) (xs : List A) → length (xs ++ (x ∷ [])) ≡ suc (length xs)
length-snoc x xs = omega (arith, length-append xs (x ∷ []))

other_row :
    (rows : List Row) (r : Row) (key : String)
    → str_eq r.key key ≡ false
    → state_of rows key ≡ none
    → state_of (rows ++ (r ∷ [])) key ≡ none
other_row rows r key o h = ground (arith, state_of-append rows r key, o, h)

blank_lem : (rows : List Row) → latest_of "" none (keyed rows) ≡ none
unfolding latest_of keyed
blank_lem [] = refl
blank_lem (r ∷ rows) = ground (arith, blank_lem rows)

blank_key_unseen : (rows : List Row) → state_of rows "" ≡ none
unfolding state_of
blank_key_unseen rows = blank_lem rows

module _ (w : Wire) where
  blank_step :
      (i : Inbox) (d : Dropped) (raw : Fields) (now : Stamp) (version : Version)
      → d.content ≡ body raw
      → key_for w raw ≡ ""
      → validate_envelope w (obj raw) now ≡ ok version
      → flag (lets_in "" (step w i (offer d now)).0) ≡ 1
  unfolding step
  blank_step i d raw now version c k v =
      rw (c, admit, v, admit_body, k, admit_valid, blank_key_unseen i.rows) refl

  -- A valid artifact whose key is empty, as that of a decision hash that is a bare `sha256:` prefix, is
  -- accepted at every poll.
  pub blank_key_repeats :
      (n : ℕ) (i : Inbox) (d : Dropped) (raw : Fields) (now : Stamp) (version : Version)
      → d.content ≡ body raw
      → key_for w raw ≡ ""
      → validate_envelope w (obj raw) now ≡ ok version
      → times_accepted w "" i (repeat n (offer d now)) ≡ n
  unfolding times_accepted repeat
  blank_key_repeats zero i d raw now version c k v = refl
  blank_key_repeats (suc n) i d raw now version c k v = omega (
    arith,
    blank_step i d raw now version c k v,
    blank_key_repeats n (step w i (offer d now)).1 d raw now version c k v,
  )

  empty_invalid : (now : Stamp) → validate_envelope w (obj end) now ≡ err (envelope "missing_field")
  unfolding validate_envelope check_compatibility parse_semver has_key check_body require_str get
  empty_invalid now = refl

  empty_key : w.t.strip "" ≡ "" → key_for w end ≡ w.sha256_of end
  unfolding key_for get is_truthy
  empty_key e = rw e refl

  empty_step :
      (i : Inbox) (d : Dropped) (now : Stamp)
      → d.content ≡ body end
      → w.t.strip "" ≡ ""
      → str_eq (unreadable_key d.name "") (w.sha256_of end) ≡ false
      → state_of i.rows (w.sha256_of end) ≡ none
      → (length (step w i (offer d now)).1.letters ≡ suc (length i.letters))
        × (state_of (step w i (offer d now)).1.rows (w.sha256_of end) ≡ none)
  unfolding step
  empty_step i d now c e o h =
      rw (c, admit, empty_invalid now, admit_body, empty_key e, admit_invalid, h, dead_letter)
        (length-snoc _ i.letters, other_row i.rows _ (w.sha256_of end) o h)

  -- A file with an empty object is dead-lettered at every poll: it is looked up under the hash of its
  -- body and recorded under its name.
  pub empty_body_repeats :
      (n : ℕ) (i : Inbox) (d : Dropped) (now : Stamp)
      → d.content ≡ body end
      → w.t.strip "" ≡ ""
      → str_eq (unreadable_key d.name "") (w.sha256_of end) ≡ false
      → state_of i.rows (w.sha256_of end) ≡ none
      → length (run w i (repeat n (offer d now))).letters ≡ n + length i.letters
  unfolding run repeat
  empty_body_repeats zero i d now c e o h = omega arith
  empty_body_repeats (suc n) i d now c e o h =
      let (more, unseen) = empty_step i d now c e o h in
      omega (arith, more, empty_body_repeats n (step w i (offer d now)).1 d now c e o unseen)
