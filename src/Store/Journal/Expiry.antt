-- ===== src/Store/Journal/Expiry.antt =====
-- How long a decision stays handled: signald/stores.py, `Journal`.
use trading_execution.Prelude.{
  ◌≡◌, refl, Bool, false, Option, List, [], ◌∷◌, ◌++◌, String, str_eq, arith, ◌||◌, ◌&&◌, any,
}
use trading_execution.Store.Journal.{
  JournalRow, processed, signal, Signal, mark_processed, is_processed, add_signal, still_holds,
  suppresses,
}

any-append {ℓ} :
    {A : Type ℓ} (p : A → Bool) (xs ys : List A) → any p (xs ++ ys) ≡ (any p xs || any p ys)
any-append p [] ys = refl
any-append p (x ∷ xs) ys = ground (arith, any-append p xs ys)

-- What the journal is told.
pub data Entry : Type 0 where
  mark : String → String → String → Option String → Entry
  emit : Signal → Entry

unfoldable pub write_all : List JournalRow → List Entry → List JournalRow
unfolding mark_processed add_signal
write_all rows [] = rows
write_all rows (mark h t o m ∷ es) = write_all (mark_processed rows h t o m) es
write_all rows (emit s ∷ es) = write_all (add_signal rows s) es

-- The entry handles the decision under the mandate that is asked for.
abbrev pub handles : String → Option String → Entry → Bool
handles decision_hash asked (mark h t o recorded) =
    str_eq h decision_hash && still_holds recorded asked
handles decision_hash asked (emit s) = false

-- A decision counts as handled, after any sequence of entries, exactly if it did before or some entry marks
-- it without a mandate, or under the mandate that is asked for, or if none is asked for: an emission
-- suppresses forever, and a refusal until the mandate changes.
pub is_processed-write_all :
    (rows : List JournalRow) (es : List Entry) (decision_hash : String) (asked : Option String)
    → is_processed (write_all rows es) decision_hash asked
      ≡ (is_processed rows decision_hash asked || any (handles decision_hash asked) es)
unfolding is_processed write_all mark_processed add_signal
is_processed-write_all rows [] decision_hash asked = ground arith
is_processed-write_all rows (mark h t o m ∷ es) decision_hash asked = ground (
  arith,
  is_processed-write_all (mark_processed rows h t o m) es decision_hash asked,
  any-append (suppresses decision_hash asked) rows (processed h t o m ∷ []),
)
is_processed-write_all rows (emit s ∷ es) decision_hash asked = ground (
  arith,
  is_processed-write_all (add_signal rows s) es decision_hash asked,
  any-append (suppresses decision_hash asked) rows (signal s ∷ []),
)
