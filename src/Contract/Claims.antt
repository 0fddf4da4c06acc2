-- ===== src/Contract/Claims.antt =====
-- What an artifact that passes the boundary has shown: signald/contracts.py, `validate_envelope`.
use trading_execution.Prelude.{
  ◌≡◌, ◌≤◌, refl, ap, subst, ◌==◌, Bool, true, false, not, Option, none, some, String, str_eq,
  arith, inl, inr, if◌then◌else◌, ltb, Option-cases, Bool-cases, ◌⊎◌,
}
use trading_execution.Prelude.Int.{pos, eqb_ℤ}
use trading_execution.Prelude.Results.{ok, guard, >>=-eq-ok, >>-eq-ok, guard-eq-ok}
use trading_execution.Json.{
  Value, Fields, null, str, obj, int, num, bool, arr, get, without, is_truthy, is_blank, to_text,
}
use trading_execution.Contract.{
  Reject, Stamp, Wire, Checked, Version, is_v11, get_default, stripped, permissions, directions,
  actions, sleeves, qualities, quality_of, check_compatibility, parse_semver, require_str,
  check_closed, check_body, is_resolved, is_null, verify_artifact_hash, check_strict, is_uuid4,
  service_of, optional_iso, moment, check_order, check_expiry, validate_envelope,
}
use trading_execution.Contract.Versions.{HasVersion, IsOld, old_lem, version_lem}

guard-ok : (b : Bool) (e : Reject) → ◌≡◌ {A = Checked (Unit {0})} (guard b e) (ok tt) → b ≡ true
guard-ok true e h = refl
guard-ok false e h = cc

null_lem : (w : Wire) (v : Value) → is_null w v ≡ true → v ≡ null
null_lem w null h = refl
null_lem w (str s) h = cc
null_lem w (obj f) h = cc
null_lem w (int n) h = cc
null_lem w (num x) h = cc
null_lem w (bool b) h = cc
null_lem w (arr a) h = cc

module _ (w : Wire) where
  -- The artifact has not run out, if it says when it does.
  abbrev pub IsTimely : Stamp → Option Stamp → Type 0
  IsTimely now none = Unit
  IsTimely now (some expired) = moment w now ≤ moment w expired

  -- What an artifact of schema 1.1 carries on top.
  abbrev pub IsStrict : Fields → Type 0
  IsStrict raw =
      (is_truthy (get "expires_at" raw) ≡ true)
      × (w.uuid_version (w.t.strip (to_text w.t (get "idempotency_key" raw))) ≡ some 4)
      × (str_eq (w.bare_hash (stripped w (get "artifact_sha256" raw)))
            (w.sha256_of (without "artifact_sha256" (without "decision_hash" raw)))
          ≡ true)

  abbrev Strict : Bool → Fields → Type 0
  Strict true raw = IsStrict raw
  Strict false raw = Unit

  age_lem :
      (v : Version) (raw : Fields)
      → eqb_ℤ v.0 (pos 1) ≡ true
      → Strict (is_v11 v) raw
      → IsOld w v ⊎ IsStrict raw
  age_lem v raw one h = elim (Bool-cases (is_v11 v)) [
    | inl new ↦ inr (subst (λ b. Strict b raw) new h)
    | inr old ↦ inl (old_lem w v one old)
  ]

  compatible_lem :
      (v : Value) (version : Version)
      → check_compatibility w v ≡ ok version
      → eqb_ℤ version.0 (pos 1) ≡ true
  unfolding check_compatibility
  compatible_lem v version h =
      let (parsed, a, k) = >>=-eq-ok (parse_semver w v) _ h in
      let (b, l) = guard-eq-ok (eqb_ℤ parsed.0 (pos 1)) _ _ k in
      let same : parsed ≡ version = cc l in subst (λ x. eqb_ℤ x.0 (pos 1) ≡ true) same b

  body_lem :
      (raw : Fields)
      → check_body w raw ≡ ok tt
      → (is_null w (get "trade_permission" raw) ≡ true) × (is_resolved w raw ≡ true)
  unfolding check_body
  body_lem raw h =
      let (ticker, a, h1) = >>=-eq-ok (require_str w raw "ticker") _ h in
      let (b, h2) = >>-eq-ok (check_closed w (get "direction" raw) directions) _ h1 in
      let (c, h3) = >>-eq-ok (check_closed w (get "action" raw) actions) _ h2 in
      let (d, h4) = >>-eq-ok (check_closed w (get "trade_permission" raw) permissions) _ h3 in
      let (free, h5) = guard-eq-ok (is_null w (get "trade_permission" raw)) _ _ h4 in
      let (e, h6) = >>-eq-ok (check_closed w (get "sleeve" raw) sleeves) _ h5 in
      let (f, h7) =
        >>-eq-ok (check_closed w (quality_of w (get "data_quality" raw)) qualities) _ h6 in
      let (resolved, h8) = guard-eq-ok (is_resolved w raw) _ _ h7 in (free, resolved)

  hash_lem :
      (raw : Fields)
      → verify_artifact_hash w raw ≡ ok tt
      → str_eq
          (w.bare_hash (stripped w (get "artifact_sha256" raw)))
          (w.sha256_of (without "artifact_sha256" (without "decision_hash" raw)))
        ≡ true
  unfolding verify_artifact_hash
  hash_lem raw h =
      let (a, k) = guard-eq-ok (not (is_blank (stripped w (get "artifact_sha256" raw)))) _ _ h in
      guard-ok _ _ k

  uuid4_lem : (key : String) → is_uuid4 w key ≡ true → w.uuid_version key ≡ some 4
  uuid4_lem key h = elim (Option-cases (w.uuid_version key)) [
    | inl e ↦ let no : false ≡ true = rw (e, is_uuid4) at h in cc
    | inr (v, e) ↦
        let four : (v == 4) ≡ true = rw (e, is_uuid4) at h in rw e (ap some (ground (arith, four)))
  ]

  strict_lem : (raw : Fields) → check_strict w raw ≡ ok tt → IsStrict raw
  unfolding check_strict
  strict_lem raw h =
      let (a, h1) = guard-eq-ok (is_truthy (get "expires_at" raw)) _ _ h in
      let (b, h2) = guard-eq-ok (is_truthy (get "idempotency_key" raw)) _ _ h1 in
      let (c, h3) = guard-eq-ok (is_truthy (get "producer" raw)) _ _ h2 in
      let (d, h4) = guard-eq-ok (is_truthy (get "artifact_sha256" raw)) _ _ h3 in
      let (e, h5) =
        guard-eq-ok (is_uuid4 w (w.t.strip (to_text w.t (get "idempotency_key" raw)))) _ _ h4 in
      let (f, h6) = guard-eq-ok (not (is_blank (service_of w (get "producer" raw)))) _ _ h5 in
      (a, uuid4_lem _ e, hash_lem raw h6)

  if_Strict :
      (b : Bool) (raw : Fields)
      → ◌≡◌ {A = Checked (Unit {0})} (if b then check_strict w raw else ok tt) (ok tt)
      → Strict b raw
  if_Strict true raw h = strict_lem raw h
  if_Strict false raw h = tt

  timely_lem :
      (expired : Option Stamp) (produced : Value) (strict : Bool) (now : Stamp)
      → check_expiry w expired produced strict now ≡ ok tt
      → IsTimely now expired
  unfolding check_expiry
  timely_lem none produced strict now h = tt
  timely_lem (some expired) produced strict now h =
      let (p, a, h1) = >>=-eq-ok (optional_iso w produced strict) _ h in
      let (b, h2) = >>-eq-ok (check_order w expired p) _ h1 in
      let in_time = guard-ok (not (ltb (moment w expired) (moment w now))) _ h2 in
      ground (arith, in_time)

  -- An artifact that the boundary lets in is a mapping; the version that is returned is the one that its
  -- schema_version says, 1 where it says none, and its major number is 1; it sets no permission of its
  -- own; its direction or its rating says what to do; if it says when it runs out, that is not over; and
  -- unless that version is below 1.1.0 it says when it runs out, carries a UUID of version 4 as its key,
  -- and the hash that it declares is that of its body.
  pub validate_envelope-Permitted :
      (v : Value) (now : Stamp) (version : Version)
      → validate_envelope w v now ≡ ok version
      → (raw : Fields) × (v ≡ obj raw)
        × HasVersion w raw version
        × (eqb_ℤ version.0 (pos 1) ≡ true)
        × (get "trade_permission" raw ≡ null)
        × (is_resolved w raw ≡ true)
        × ((expired : Option Stamp) × (optional_iso w (get "expires_at" raw) (is_v11 version)
              ≡ ok expired)
            × IsTimely now expired)
        × (IsOld w version ⊎ IsStrict raw)
  unfolding validate_envelope
  validate_envelope-Permitted (obj raw) now version h =
      let (v', a, h1) =
        >>=-eq-ok (check_compatibility w (get_default "schema_version" (int (pos 1)) raw)) _ h in
      let (b, h2) = >>-eq-ok (check_body w raw) _ h1 in
      let (expired, c, h3) = >>=-eq-ok (optional_iso w (get "expires_at" raw) (is_v11 v')) _ h2 in
      let (d, h4) = >>-eq-ok (if is_v11 v' then check_strict w raw else ok tt) _ h3 in
      let (e, h5) =
        >>-eq-ok (check_expiry w expired (get "produced_at" raw) (is_v11 v') now) _ h4 in
      let same : v' ≡ version = cc h5 in
      let own = body_lem raw b in
      (
        raw,
        refl,
        subst (HasVersion w raw) same (version_lem w raw v' a),
        subst (λ x. eqb_ℤ x.0 (pos 1) ≡ true) same
            (compatible_lem (get_default "schema_version" (int (pos 1)) raw) v' a),
        null_lem w (get "trade_permission" raw) own.0,
        own.1,
        (
          expired,
          subst (λ x. optional_iso w (get "expires_at" raw) (is_v11 x) ≡ ok expired) same c,
          timely_lem expired (get "produced_at" raw) (is_v11 v') now e,
        ),
        subst (λ x. IsOld w x ⊎ IsStrict raw) same
            (age_lem v' raw (compatible_lem (get_default "schema_version" (int (pos 1)) raw) v' a)
              (if_Strict (is_v11 v') raw d)),
      )
  validate_envelope-Permitted null now version h = cc
  validate_envelope-Permitted (str s) now version h = cc
  validate_envelope-Permitted (int n) now version h = cc
  validate_envelope-Permitted (num x) now version h = cc
  validate_envelope-Permitted (bool b) now version h = cc
  validate_envelope-Permitted (arr a) now version h = cc
