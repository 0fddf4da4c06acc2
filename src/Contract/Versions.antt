-- ===== src/Contract/Versions.antt =====
-- The version that an artifact says: signald/contracts.py, `parse_semver` and `check_compatibility`.
use trading_execution.Prelude.{
  ◌≡◌, ◌≤◌, refl, ap, ◌∙◌, subst, true, false, not, some, String, List, [], ◌∷◌, ◌⊎◌, ◌&&◌, arith,
  inl, inr, ltb, length, all, Option-cases, Bool-cases,
}
use trading_execution.Prelude.Int.{ℤ, pos, eqb_ℤ, leb_ℤ, ltb_ℤ}
use trading_execution.Prelude.Results.{ok, err, >>=-eq-ok, guard-eq-ok}
use trading_execution.Json.{
  Value, Fields, null, str, obj, int, num, bool, arr, get, has_key, or_empty, is_blank,
}
use trading_execution.Contract.{
  Wire, Checked, Version, is_v11, get_default, check_compatibility, parse_semver, semver_of,
  part_int, rest_of, value_error,
}

module _ (w : Wire) where
  -- A part of a version text: the number that it spells, and 0 for one that is missing.
  abbrev pub Part : List String → ℤ → Type 0
  Part [] n = n ≡ pos 0
  Part (p ∷ ps) n = w.t.parse_int p ≡ some n

  abbrev pub tail_of : List String → List String
  tail_of [] = []
  tail_of (p ∷ ps) = ps

  -- The version that a text spells, at most three numbers with dots between them.
  abbrev pub Spells : List String → Version → Type 0
  Spells ps version =
      (length ps ≤ 3)
      × (all w.is_digits ps ≡ true)
      × Part ps version.0
      × Part (tail_of ps) version.1
      × Part (tail_of (tail_of ps)) version.2

  -- The version that a value says: a number is a major version, and what is neither a number nor a
  -- boolean is read as a text.
  abbrev pub Says : Value → Version → Type 0
  Says (int n) version = version ≡ (n, pos 0, pos 0)
  Says (bool b) version = ⊥
  Says v version = Spells (w.split_dots (w.t.strip (or_empty w.t v))) version

  -- The version of an artifact: one that says none has version 1.
  abbrev pub HasVersion : Fields → Version → Type 0
  HasVersion raw version =
      ((has_key "schema_version" raw ≡ true) × Says (get "schema_version" raw) version)
      ⊎ ((has_key "schema_version" raw ≡ false) × (version ≡ (pos 1, pos 0, pos 0)))

  -- A version below 1.1.0, where the major number is 1.
  abbrev pub IsOld : Version → Type 0
  IsOld version =
      (leb_ℤ version.1 (pos 0) ≡ true)
      ⊎ ((eqb_ℤ version.1 (pos 1) ≡ true) × (ltb_ℤ version.2 (pos 0) ≡ true))

  pub old_lem : (v : Version) → eqb_ℤ v.0 (pos 1) ≡ true → is_v11 v ≡ false → IsOld v
  unfolding is_v11
  old_lem (major, minor, patch) h k = ground (arith, h, k)

  part_lem : (ps : List String) (n : ℤ) → part_int w ps ≡ ok n → Part ps n
  part_lem [] n h = cc
  part_lem (p ∷ ps) n h = elim (Option-cases (w.t.parse_int p)) [
    | inl e ↦ let no : ◌≡◌ {A = Checked ℤ} (err value_error) (ok n) = rw e at h in cc
    | inr (m, e) ↦ let same : ◌≡◌ {A = Checked ℤ} (ok m) (ok n) = rw e at h in rw e (cc same)
  ]

  rest_lem : (ps : List String) → rest_of w ps ≡ tail_of ps
  rest_lem [] = refl
  rest_lem (p ∷ ps) = refl

  semver_lem :
      (text : String) (version : Version)
      → semver_of w text ≡ ok version
      → Spells (w.split_dots text) version
  unfolding semver_of
  semver_lem text version h =
      let ps = w.split_dots text in
      let (a, h1) = guard-eq-ok (not (is_blank text)) _ _ h in
      let (b, h2) = guard-eq-ok (not (ltb 3 (length ps)) && all w.is_digits ps) _ _ h1 in
      let (major, c, h3) = >>=-eq-ok (part_int w ps) _ h2 in
      let (minor, d, h4) = >>=-eq-ok (part_int w (rest_of w ps)) _ h3 in
      let (patch, e, h5) = >>=-eq-ok (part_int w (rest_of w (rest_of w ps))) _ h4 in
      let same : (major, minor, patch) ≡ version = cc h5 in
      subst (Spells ps) same (
        ground (arith, b),
        ground (arith, b),
        part_lem ps major c,
        subst (λ q. Part q minor) (rest_lem ps) (part_lem _ minor d),
        subst (λ q. Part q patch) (rest_lem (rest_of w ps) ∙ ap tail_of (rest_lem ps))
            (part_lem _ patch e),
      )

  says_lem : (v : Value) (version : Version) → parse_semver w v ≡ ok version → Says v version
  unfolding parse_semver
  says_lem (bool b) version h = cc
  says_lem (int n) version h = cc
  says_lem null version h = semver_lem _ version h
  says_lem (str s) version h = semver_lem _ version h
  says_lem (obj f) version h = semver_lem _ version h
  says_lem (num x) version h = semver_lem _ version h
  says_lem (arr a) version h = semver_lem _ version h

  compatible-Says :
      (v : Value) (version : Version) → check_compatibility w v ≡ ok version → Says v version
  unfolding check_compatibility
  compatible-Says v version h =
      let (parsed, a, k) = >>=-eq-ok (parse_semver w v) _ h in
      let (b, l) = guard-eq-ok (eqb_ℤ parsed.0 (pos 1)) _ _ k in
      let same : parsed ≡ version = cc l in subst (Says v) same (says_lem v parsed a)

  pub version_lem :
      (raw : Fields) (version : Version)
      → check_compatibility w (get_default "schema_version" (int (pos 1)) raw) ≡ ok version
      → HasVersion raw version
  version_lem raw version h = elim (Bool-cases (has_key "schema_version" raw)) [
    | inl there ↦ inl (there, compatible-Says _ version (rw there at h))
    | inr missing ↦ inr (missing, compatible-Says (int (pos 1)) version (rw missing at h))
  ]
