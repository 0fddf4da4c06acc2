-- ===== src/Contract/Offsets.antt =====
-- Stamps of which one has an offset and one has none: signald/contracts.py, `validate_envelope`.
use trading_execution.Prelude.{◌≡◌, refl, ℕ, false, some}
use trading_execution.Prelude.Int.{pos}
use trading_execution.Prelude.Results.{ok, err}
use trading_execution.Json.{Fields, obj, int, get}
use trading_execution.Contract.{
  type_error, Stamp, aware, naive, Wire, Version, is_v11, get_default, check_compatibility,
  check_body, optional_iso, check_expiry, validate_envelope,
}

-- An artifact below version 1.1 that passes every check of its body, runs out at a moment with an offset
-- and was produced at a reading of a clock without one is not rejected: the comparison of the two raises
-- TypeError, which is no `EnvelopeError`.
pub mixed_offsets_raise :
    (w : Wire) (raw : Fields) (now : Stamp) (version : Version) (expired produced : ℕ)
    → check_compatibility w (get_default "schema_version" (int (pos 1)) raw) ≡ ok version
    → is_v11 version ≡ false
    → check_body w raw ≡ ok tt
    → optional_iso w (get "expires_at" raw) (is_v11 version) ≡ ok (some (aware expired))
    → optional_iso w (get "produced_at" raw) (is_v11 version) ≡ ok (some (naive produced))
    → validate_envelope w (obj raw) now ≡ err type_error
unfolding validate_envelope check_expiry
mixed_offsets_raise w raw now version expired produced a b c d e = rw (a, c, d, b, e) refl
