-- ===== src/Store/Audit.antt =====
-- The hash-chained audit ledger: signald/stores.py, `AuditChain`. The file is the list of its decoded
-- lines: what the code's JSON writer has written is what the reader finds.
pub mod Chain
pub mod Tamper
mod Tests
use Prim.Native.String.{◌++◌ as append_text}
use trading_execution.Prelude.{
  ℕ, suc, Bool, true, false, Option, none, some, List, [], ◌∷◌, ◌++◌, String, str_eq, if◌then◌else◌,
  ◌&&◌, length,
}
use trading_execution.Prelude.Int.{pos}
use trading_execution.Json.{Value, Fields, obj, str, int, null, end, field, get, is_truthy, without}

-- What the code calls of Python's runtime.
pub record Digest : Type 0 where
  -- `hashlib.sha256(text.encode("utf-8")).hexdigest()`
  pub sha256_hex : String → String
  -- `json.dumps(row, sort_keys=True, default=str)`
  pub dumps : Fields → String

-- What `verify` answers; a line that is JSON and no mapping raises.
pub data Verdict : Type 0 where
  empty_ledger : Verdict
  chained : ℕ → Verdict
  broken : ℕ → Verdict
  raised : Verdict

unfoldable pub genesis : String
genesis = "0000000000000000000000000000000000000000000000000000000000000000"

-- `read`: a line that cannot be parsed is an empty row
unfoldable pub read : List (Option Value) → List Value
read [] = []
read (none ∷ lines) = obj end ∷ read lines
read (some v ∷ lines) = v ∷ read lines

-- `value == text`
abbrev pub is_text : String → Value → Bool
is_text s (str u) = str_eq u s
is_text s _ = false

-- `rows[-1]["hash"]` as the text that a hash is linked to: `none` raises
abbrev pub text_of : Value → Option String
text_of (str s) = some s
text_of _ = none

abbrev pub hash_of : Value → Option String
hash_of (obj row) = text_of (get "hash" row)
hash_of _ = none

unfoldable pub last_hash : Option String → List Value → Option String
last_hash h [] = h
last_hash h (v ∷ vs) = last_hash (hash_of v) vs

-- the row that `append` builds behind the hash `prev`
unfoldable pub unsealed : ℕ → String → String → String → Fields → String → Fields
unsealed index ts kind reason payload prev = field "index" (int (pos index)) (
    field "ts" (str ts) (
      field "kind" (str kind) (
        field "reason" (str reason)
          (field "data" (obj payload) (field "prev_hash" (str prev) end)))))

module _ (d : Digest) where
  -- the hash that a row behind `prev` must declare
  unfoldable pub expected : String → Fields → String
  unfolding without
  expected prev row = d.sha256_hex (append_text prev (d.dumps (without "hash" row)))

  -- a row passes behind the hash `prev`
  unfoldable pub is_linked : String → Fields → Bool
  unfolding expected
  is_linked prev row =
      is_text (expected prev row) (get "hash" row)
      && (is_text prev (get "prev_hash" row) && is_truthy (get "kind" row))

  -- the loop of `verify`
  unfoldable pub check_from : String → ℕ → List Value → Verdict
  unfolding is_linked
  check_from prev i [] = chained i
  check_from prev i (obj row ∷ rows) =
      let rest = check_from (expected prev row) (suc i) rows in
      if is_linked prev row then rest else broken i
  check_from prev i (_ ∷ rows) = raised

  unfoldable pub verify_rows : List Value → Verdict
  unfolding check_from
  verify_rows [] = empty_ledger
  verify_rows (v ∷ vs) = check_from genesis 0 (v ∷ vs)

  -- `verify`
  unfoldable pub verify : List (Option Value) → Verdict
  unfolding verify_rows read
  verify lines = verify_rows (read lines)

  unfoldable pub seal : String → Fields → Fields
  unfolding expected
  seal prev row = field "hash" (str (expected prev row)) row

  -- the row that `append` writes: `none` raises, as the last row has no hash to link to
  unfoldable pub next_row : List (Option Value) → String → String → String → Fields → Option Fields
  unfolding read last_hash genesis unsealed seal
  next_row lines ts kind reason payload = elim (last_hash (some genesis) (read lines)) [
    | none ↦ none
    | some prev ↦ some (seal prev (unsealed (length (read lines)) ts kind reason payload prev))
  ]

  -- `append`
  unfoldable pub append :
      List (Option Value) → String → String → String → Fields → Option (List (Option Value))
  unfolding next_row
  append lines ts kind reason payload = elim (next_row lines ts kind reason payload) [
    | none ↦ none
    | some row ↦ some (lines ++ (some (obj row) ∷ []))
  ]

-- One call of `append`: its time, kind, reason and data.
abbrev pub Entry : Type 0
Entry = String × String × String × Fields

-- A sequence of appends.
unfoldable pub append_all : Digest → List (Option Value) → List Entry → Option (List (Option Value))
unfolding append
append_all d lines [] = some lines
append_all d lines ((ts, kind, reason, payload) ∷ es) =
    elim (append d lines ts kind reason payload) [ none ↦ none | some more ↦ append_all d more es ]
