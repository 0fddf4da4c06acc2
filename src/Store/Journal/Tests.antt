-- ===== src/Store/Journal/Tests.antt =====
-- A refusal under one mandate, and the theorem on it.
use trading_execution.Prelude.{◌≡◌, refl, false, some, List, [], ◌∷◌, any, ◌||◌}
use trading_execution.Store.Journal.{mark_processed, is_processed}
use trading_execution.Store.Journal.Expiry.{Entry, mark, write_all, handles, is_processed-write_all}

abbrev entries : List Entry
entries = mark "d1" "ABC" "blocked" (some "m1") ∷ []

-- The refusal has gone with its mandate.
reopened : is_processed (write_all [] entries) "d1" (some "m2") ≡ false
unfolding is_processed write_all mark_processed
reopened = refl

is_processed-write_all_test :
    is_processed (write_all [] entries) "d1" (some "m2")
    ≡ (is_processed [] "d1" (some "m2") || any (handles "d1" (some "m2")) entries)
is_processed-write_all_test = is_processed-write_all [] entries "d1" (some "m2")
