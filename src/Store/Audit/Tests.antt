-- ===== src/Store/Audit/Tests.antt =====
-- A small ledger, and the theorems on it.
use Prim.Native.String.{◌++◌ as append_text}
use trading_execution.Prelude.{
  ◌≡◌, refl, suc, ◌+◌, Option, some, List, [], ◌∷◌, ◌++◌, ◌⊎◌, inr, String, length,
}
use trading_execution.Json.{Value, Fields, obj, str, end, get, without, is_truthy}
use trading_execution.Store.Audit.{
  Digest, empty_ledger, chained, broken, genesis, read, last_hash, expected, is_linked, check_from,
  verify_rows, verify, unsealed, seal, next_row, append, Entry, append_all,
}
use trading_execution.Store.Audit.Chain.{IsIntact, append_all-verify}
use trading_execution.Store.Audit.Tamper.{edit_is_reported, fork_is_reported}

abbrev text : Value → String
text (str s) = s
text _ = ""

-- A toy digest: the text itself, marked, of the kind and the hash that a row is linked to.
abbrev digest : Digest
digest = record {
  sha256_hex = λ s. append_text "h" s;
  dumps = λ row. append_text (text (get "kind" row)) (text (get "prev_hash" row));
}

ledgers : Unit {0}
unfolding without genesis read last_hash expected is_linked check_from verify_rows verify unsealed
    seal next_row append append_all get is_truthy
ledgers = tt

abbrev entries : List Entry
entries = ("t0", "start", "", end) ∷ ("t1", "stop", "", end) ∷ []

append_all-verify_example :
    (added : List (Option Value)) × (append_all digest [] entries ≡ some ([] ++ added))
    × IsIntact digest (0 + 2) ([] ++ added)
unfolding ledgers
append_all-verify_example =
    append_all-verify digest 0 [] entries (inr (refl, refl)) (refl, (refl, tt))

unfoldable first : Fields
unfolding ledgers
first = seal digest genesis (unsealed 0 "t0" "start" "" end genesis)

unfoldable second : Fields
unfolding ledgers first
second =
    seal digest (expected digest genesis first)
      (unsealed 1 "t1" "stop" "" end (expected digest genesis first))

-- The first row with another kind, and the hash that it had.
unfoldable edited : Fields
unfolding ledgers
edited = seal digest genesis (unsealed 0 "t0" "other" "" end genesis)

two_rows : verify digest ([] ++ some (obj first) ∷ some (obj second) ∷ []) ≡ chained 2
unfolding ledgers first second
two_rows = refl

edit_seen : verify digest (some (obj edited) ∷ some (obj second) ∷ []) ≡ broken 1
unfolding ledgers first second edited
edit_seen = refl

edit_is_reported_example :
    (verify digest ([] ++ some (obj edited) ∷ some (obj second) ∷ []) ≡ broken (length (read [])))
    ⊎ ((verify digest ([] ++ some (obj edited) ∷ some (obj second) ∷ [])
          ≡ broken (suc (length (read []))))
        ⊎ ((prev : String) × (last_hash (some genesis) (read []) ≡ some prev)
            × (expected digest prev edited ≡ expected digest prev first)))
edit_is_reported_example = edit_is_reported digest 2 [] first edited second [] two_rows

empty_verifies : verify digest [] ≡ empty_ledger
unfolding ledgers
empty_verifies = refl

first_row : next_row digest [] "t0" "start" "" end ≡ some first
unfolding ledgers first
first_row = refl

edited_row : next_row digest [] "t0" "other" "" end ≡ some edited
unfolding ledgers edited
edited_row = refl

-- Two processes write a first row each.
fork_is_reported_example :
    (verify digest ([] ++ some (obj first) ∷ some (obj edited) ∷ []) ≡ broken 1)
    ⊎ (last_hash (some genesis) (read ([] ++ some (obj first) ∷ []))
        ≡ last_hash (some genesis) (read []))
fork_is_reported_example =
    fork_is_reported digest 0 [] ("t0", "start", "", end) ("t0", "other", "", end) first edited
      (inr (empty_verifies, refl)) refl refl first_row edited_row
