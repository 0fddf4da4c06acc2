-- ===== src/Contract.antt =====
-- The contract of the artifacts that the research layer drops: signald/contracts.py and the
-- vocabulary of signald/schema.py. Of an error the stable code is modelled, its text is not.
pub mod Versions
pub mod Claims
pub mod Offsets
pub mod Tests
use trading_execution.Prelude.{
  ℕ, ◌*◌, ◌^◌, ◌==◌, Bool, true, false, not, Option, none, some, List, [], ◌∷◌, String, str_eq,
  if◌then◌else◌, ◌&&◌, ◌||◌, ltb, length, all, is_some,
}
use trading_execution.Prelude.Int.{ℤ, pos, eqb_ℤ, ltb_ℤ, leb_ℤ}
use trading_execution.Prelude.Float.{Float, fin, leb_f, zero_f}
use trading_execution.Prelude.Results.{Result, ok, err, ◌>>=◌, ◌>>◌, guard, or_raise}
use trading_execution.Json.{
  Value, Fields, null, str, obj, int, num, bool, get, has_key, without, Text, to_text, or_empty,
  is_truthy, is_blank, one_of,
}

-- What a boundary check may raise: `EnvelopeError` with its reason code, or an error of the runtime
-- that nothing catches.
pub data Reject : Type 0 where
  envelope : String → Reject
  type_error value_error overflow_error : Reject

-- A datetime: with an offset, a moment in UTC; without one, a reading of the wall clock.
pub data Stamp : Type 0 where
  aware : ℕ → Stamp
  naive : ℕ → Stamp

-- What `float(v)` does.
pub data ToFloat : Type 0 where
  to_float : Float → ToFloat
  not_a_number too_large : ToFloat

-- What the code calls of Python's runtime.
pub record Wire : Type 0 where
  pub t : Text
  -- `text.split(".")` and `p.isdigit()`
  pub split_dots : String → List String
  pub is_digits : String → Bool
  pub float : Value → ToFloat
  -- `text[:-1] + "+00:00"` of a text that ends in Z, and `datetime.fromisoformat`
  pub fix_zone : String → String
  pub from_iso : String → Option Stamp
  -- the moment of a reading of the host's clock
  pub local : ℕ → ℕ
  -- `uuid.UUID(text).version`: `none` for what is not a UUID or has no version
  pub uuid_version : String → Option ℕ
  -- `text.removeprefix("sha256:")`
  pub bare_hash : String → String
  -- `json.dumps(obj, sort_keys=True, default=str)` and the SHA-256 of its bytes
  pub sha256_of : Fields → String

abbrev pub Checked : Type 0 → Type 0
Checked A = Result Reject A

abbrev pub reject {ℓ} : {A : Type ℓ} → String → Result Reject A
reject code = err (envelope code)

abbrev pub Version : Type 0
Version = ℤ × ℤ × ℤ

-- `VALID_DIRECTIONS`: the keys of `DIRECTION_TO_ACTION`
abbrev pub directions : List String
directions = "add" ∷ "buy" ∷ "hold" ∷ "reduce" ∷ "sell" ∷ "exit" ∷ "none" ∷ []

-- the keys of `RATING_TO_DIRECTION`
abbrev pub ratings : List String
ratings =
    "buy" ∷ "overweight" ∷ "outperform" ∷ "hold" ∷ "underweight" ∷ "underperform" ∷ "sell" ∷ []

-- `VALID_DATA_QUALITY`
abbrev pub qualities : List String
qualities = "fresh" ∷ "stale" ∷ "partial" ∷ "unknown" ∷ []

abbrev pub actions : List String
actions = "BUY" ∷ "HOLD" ∷ "REDUCE" ∷ "EXIT" ∷ "NONE" ∷ []

abbrev pub permissions : List String
permissions = "ALLOW" ∷ "REDUCE" ∷ "BLOCK" ∷ []

abbrev pub sleeves : List String
sleeves = "swing" ∷ "intraday" ∷ []

-- 100.0
unfoldable pub hundred_f : Float
hundred_f = fin (pos (100 * 2 ^ 1074))

-- `is_v11`: the tuple is at least (1, 1, 0)
unfoldable pub is_v11 : Version → Bool
is_v11 (major, minor, patch) =
    ltb_ℤ (pos 1) major
    || (eqb_ℤ major (pos 1)
        && (ltb_ℤ (pos 1) minor || (eqb_ℤ minor (pos 1) && leb_ℤ (pos 0) patch)))

-- `raw.get(key, default)`
abbrev pub get_default : String → Value → Fields → Value
get_default key default raw = if has_key key raw then get key raw else default

module _ (w : Wire) where
  abbrev pub stripped : Value → String
  stripped v = w.t.strip (or_empty w.t v)

  abbrev pub part_int : List String → Checked ℤ
  part_int [] = ok (pos 0)
  part_int (p ∷ ps) = or_raise (w.t.parse_int p) value_error

  abbrev pub rest_of : List String → List String
  rest_of [] = []
  rest_of (p ∷ ps) = ps

  -- `parse_semver` of a text
  unfoldable pub semver_of : String → Checked Version
  semver_of text = do
    guard (not (is_blank text)) (envelope "invalid_version")
    let parts = w.split_dots text
    guard (not (ltb 3 (length parts)) && all w.is_digits parts) (envelope "invalid_version")
    major ← part_int parts
    minor ← part_int (rest_of parts)
    patch ← part_int (rest_of (rest_of parts))
    ok (major, minor, patch)

  -- `parse_semver`
  unfoldable pub parse_semver : Value → Checked Version
  unfolding semver_of
  parse_semver (bool b) = reject "invalid_version"
  parse_semver (int n) = ok (n, pos 0, pos 0)
  parse_semver v = semver_of (stripped v)

  -- `check_compatibility`
  unfoldable pub check_compatibility : Value → Checked Version
  unfolding parse_semver
  check_compatibility v = do
    parsed ← parse_semver v
    guard (eqb_ℤ parsed.0 (pos 1)) (envelope "unknown_major")
    ok parsed

  -- `_require_str`
  unfoldable pub require_str : Fields → String → Checked String
  require_str raw key = elim (get key raw) [
    | null ↦ reject "missing_field"
    | v ↦
        if is_blank (w.t.strip (to_text w.t v))
        then reject "missing_field"
        else ok (w.t.strip (to_text w.t v))
  ]

  -- `_check_closed`
  unfoldable pub check_closed : Value → List String → Checked (Unit {0})
  check_closed null allowed = ok tt
  check_closed v allowed =
      guard (one_of (w.t.strip (to_text w.t v)) allowed) (envelope "invalid_enum")

  -- `_parse_iso`
  unfoldable pub parse_iso : Value → Bool → Checked Stamp
  parse_iso v require_offset = do
    guard (not (is_blank (stripped v))) (envelope "missing_field")
    stamp ← or_raise (w.from_iso (w.fix_zone (stripped v))) (envelope "invalid_timestamp")
    elim stamp [
      | aware at ↦ ok (aware at)
      | naive at ↦ if require_offset then reject "naive_timestamp" else ok (naive at)
    ]

  -- `verify_artifact_hash`
  unfoldable pub verify_artifact_hash : Fields → Checked (Unit {0})
  unfolding without
  verify_artifact_hash raw = do
    let declared = stripped (get "artifact_sha256" raw)
    guard (not (is_blank declared)) (envelope "missing_field")
    guard
        (str_eq (w.bare_hash declared)
          (w.sha256_of (without "artifact_sha256" (without "decision_hash" raw))))
        (envelope "artifact_hash_mismatch")

  -- the direction or the rating says what to do
  unfoldable pub is_resolved : Fields → Bool
  is_resolved raw =
      one_of (w.t.lower (stripped (get "direction" raw))) directions
      || one_of (w.t.lower (stripped (get "rating" raw))) ratings

  abbrev pub quality_of : Value → Value
  quality_of v = if is_truthy v then str (w.t.lower (w.t.strip (to_text w.t v))) else null

  unfoldable pub check_score : Value → Checked (Unit {0})
  check_score null = ok tt
  check_score v = elim (w.float v) [
    | too_large ↦ err overflow_error
    | not_a_number ↦ reject "invalid_opportunity_score"
    | to_float x ↦
        guard (leb_f zero_f x && leb_f x hundred_f) (envelope "invalid_opportunity_score")
  ]

  unfoldable pub check_beta : Value → Checked (Unit {0})
  check_beta null = ok tt
  check_beta v = elim (w.float v) [
    | too_large ↦ err overflow_error
    | not_a_number ↦ reject "invalid_net_beta"
    | to_float x ↦ ok tt
  ]

  abbrev pub is_null : Value → Bool
  is_null null = true
  is_null _ = false

  -- the body of an artifact of any version, behind its version
  unfoldable pub check_body : Fields → Checked (Unit {0})
  unfolding require_str check_closed is_resolved check_score check_beta
  check_body raw = do
    ticker ← require_str raw "ticker"
    check_closed (get "direction" raw) directions
    check_closed (get "action" raw) actions
    check_closed (get "trade_permission" raw) permissions
    guard (is_null (get "trade_permission" raw)) (envelope "producer_set_permission")
    check_closed (get "sleeve" raw) sleeves
    check_closed (quality_of (get "data_quality" raw)) qualities
    guard (is_resolved raw) (envelope "unresolvable_action")
    check_score (get "opportunity_score" raw)
    check_beta (get "net_beta" raw)

  abbrev pub service_of : Value → String
  service_of (obj producer) = stripped (get "service" producer)
  service_of _ = ""

  abbrev pub is_uuid4 : String → Bool
  is_uuid4 key = elim (w.uuid_version key) [ none ↦ false | some v ↦ v == 4 ]

  -- what schema 1.1 asks for on top
  unfoldable pub check_strict : Fields → Checked (Unit {0})
  unfolding verify_artifact_hash
  check_strict raw = do
    guard (is_truthy (get "expires_at" raw)) (envelope "missing_field")
    guard (is_truthy (get "idempotency_key" raw)) (envelope "missing_field")
    guard (is_truthy (get "producer" raw)) (envelope "missing_field")
    guard (is_truthy (get "artifact_sha256" raw)) (envelope "missing_field")
    guard (is_uuid4 (w.t.strip (to_text w.t (get "idempotency_key" raw))))
        (envelope "invalid_idempotency_key")
    guard (not (is_blank (service_of (get "producer" raw)))) (envelope "invalid_producer")
    verify_artifact_hash raw

  -- a stamp that may be missing
  unfoldable pub optional_iso : Value → Bool → Checked (Option Stamp)
  unfolding parse_iso
  optional_iso v strict =
      if is_truthy v then (do stamp ← parse_iso v strict; ok (some stamp)) else ok none

  -- `_as_aware`
  abbrev pub moment : Stamp → ℕ
  moment (aware at) = at
  moment (naive at) = w.local at

  -- `a < b` of two datetimes: one with an offset and one without raises TypeError
  abbrev pub is_earlier : Stamp → Stamp → Checked Bool
  is_earlier (aware a) (aware b) = ok (ltb a b)
  is_earlier (naive a) (naive b) = ok (ltb a b)
  is_earlier a b = err type_error

  abbrev pub check_order : Stamp → Option Stamp → Checked (Unit {0})
  check_order expired none = ok tt
  check_order expired (some produced) = do
    early ← is_earlier expired produced
    guard (not early) (envelope "invalid_timestamp")

  unfoldable pub check_expiry : Option Stamp → Value → Bool → Stamp → Checked (Unit {0})
  unfolding optional_iso
  check_expiry none produced_at strict now = ok tt
  check_expiry (some expired) produced_at strict now = do
    produced ← optional_iso produced_at strict
    check_order expired produced
    guard (not (ltb (moment expired) (moment now))) (envelope "expired")

  -- `validate_envelope`
  unfoldable pub validate_envelope : Value → Stamp → Checked Version
  unfolding check_compatibility check_body optional_iso check_strict check_expiry is_v11
  validate_envelope (obj raw) now = do
    version ← check_compatibility (get_default "schema_version" (int (pos 1)) raw)
    check_body raw
    expired ← optional_iso (get "expires_at" raw) (is_v11 version)
    (if is_v11 version then check_strict raw else ok tt)
    check_expiry expired (get "produced_at" raw) (is_v11 version) now
    ok version
  validate_envelope v now = reject "not_an_object"
