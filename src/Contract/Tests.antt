-- ===== src/Contract/Tests.antt =====
-- An artifact of version 1.1 and one of version 1.0, and the theorems on them.
use trading_execution.Prelude.{
  ◌≡◌, refl, true, false, Option, none, some, [], ◌∷◌, str_eq, if◌then◌else◌, ◌⊎◌,
}
use trading_execution.Prelude.Int.{pos, eqb_ℤ}
use trading_execution.Prelude.Results.{ok, err}
use trading_execution.Json.{
  Fields, null, str, obj, int, end, field, get, has_key, without, is_truthy, to_text, Text,
}
use trading_execution.Contract.{
  type_error, Stamp, aware, naive, Wire, not_a_number, is_v11, get_default, semver_of, parse_semver,
  check_compatibility, require_str, check_closed, parse_iso, verify_artifact_hash, is_resolved,
  check_score, check_beta, check_body, check_strict, optional_iso, check_expiry, validate_envelope,
}
use trading_execution.Contract.Versions.{HasVersion, IsOld}
use trading_execution.Contract.Claims.{IsTimely, IsStrict, validate_envelope-Permitted}
use trading_execution.Contract.Offsets.{mixed_offsets_raise}

abbrev toy_text : Text
toy_text = record {
  strip = λ s. s;
  lower = λ s. s;
  upper = λ s. s;
  show = λ v. "";
  repr = λ v. "";
  parse_int = λ s. some (pos (if str_eq s "1" then 1 else 0));
  parse_float = λ s. none;
  contains = λ a b. false;
}

-- A toy of the runtime: it knows the texts of the two artifacts below.
abbrev pub wire : Wire
wire = record {
  t = toy_text;
  split_dots = λ s. if str_eq s "1.1.0" then "1" ∷ "1" ∷ "0" ∷ [] else s ∷ [];
  is_digits = λ s. true;
  float = λ v. not_a_number;
  fix_zone = λ s. s;
  from_iso = λ s. some (if str_eq s "local" then naive 50 else aware 200);
  local = λ n. n;
  uuid_version = λ s. some 4;
  bare_hash = λ s. if str_eq s "sha256:" then "" else s;
  sha256_of = λ b. "digest";
}

abbrev pub strict : Fields
strict = field "schema_version" (str "1.1.0") (
    field "ticker" (str "ABC") (
      field "direction" (str "add") (
        field "expires_at" (str "late") (
          field "idempotency_key" (str "key") (
            field "producer"
              (obj (field "service" (str "research") (field "run_id" (str "r1") end)))
              (field "artifact_sha256" (str "digest") end))))))

abbrev pub loose : Fields
loose = field "ticker" (str "ABC") (
    field "rating" (str "buy")
      (field "expires_at" (str "late") (field "produced_at" (str "local") end)))

unfoldable pub checks : Unit {0}
unfolding get has_key without is_truthy to_text is_v11 semver_of parse_semver check_compatibility
    require_str check_closed parse_iso verify_artifact_hash is_resolved check_score check_beta
    check_body check_strict optional_iso check_expiry validate_envelope
checks = tt

pub passes : validate_envelope wire (obj strict) (aware 100) ≡ ok (pos 1, pos 1, pos 0)
unfolding checks
passes = refl

validate_envelope-Permitted_example :
    (raw : Fields) × (obj strict ≡ obj raw)
    × HasVersion wire raw (pos 1, pos 1, pos 0)
    × (eqb_ℤ (pos 1) (pos 1) ≡ true)
    × (get "trade_permission" raw ≡ null)
    × (is_resolved wire raw ≡ true)
    × ((expired : Option Stamp) × (optional_iso wire
            (get "expires_at" raw)
            (is_v11 (pos 1, pos 1, pos 0))
          ≡ ok expired)
        × IsTimely wire (aware 100) expired)
    × (IsOld wire (pos 1, pos 1, pos 0) ⊎ IsStrict wire raw)
validate_envelope-Permitted_example =
    validate_envelope-Permitted wire (obj strict) (aware 100) (pos 1, pos 1, pos 0) passes

loose_version :
    check_compatibility wire (get_default "schema_version" (int (pos 1)) loose)
    ≡ ok (pos 1, pos 0, pos 0)
unfolding checks
loose_version = refl

loose_is_old : is_v11 (pos 1, pos 0, pos 0) ≡ false
unfolding checks
loose_is_old = refl

loose_body : check_body wire loose ≡ ok tt
unfolding checks
loose_body = refl

loose_expires :
    optional_iso wire (get "expires_at" loose) (is_v11 (pos 1, pos 0, pos 0))
    ≡ ok (some (aware 200))
unfolding checks
loose_expires = refl

loose_produced :
    optional_iso wire (get "produced_at" loose) (is_v11 (pos 1, pos 0, pos 0))
    ≡ ok (some (naive 50))
unfolding checks
loose_produced = refl

mixed_offsets_raise_test : validate_envelope wire (obj loose) (aware 100) ≡ err type_error
mixed_offsets_raise_test =
    mixed_offsets_raise wire loose (aware 100) (pos 1, pos 0, pos 0) 200 50 loose_version
      loose_is_old loose_body loose_expires loose_produced
