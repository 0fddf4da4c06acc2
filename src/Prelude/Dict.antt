-- ===== src/Prelude/Dict.antt =====
-- A Python dict keyed by texts, in insertion order.
use Prim.Native.String.{String}
use text.Mathlib.Text.{◌==◌ as str_eq}
use text.Mathlib.TextEquality.{eq_iff}
use text.Mathlib.TextPositions.{eq_refl}
use mathlib.Core.Path.{◌≡◌, refl, subst}
use mathlib.Core.Bool.{false}
use mathlib.Core.Option.{Option, none, some}
use mathlib.Core.List.{List, [], ◌∷◌}
use native.Mathlib.Omega.{arith}
use mathlib.Core.Logic.{inl, inr}
use trading_execution.Prelude.Tests.{if◌then◌else◌, Bool-cases}
use trading_execution.Prelude.Lists.{All}

module _ {ℓ} {V : Type ℓ} where
  -- `d.get(k)`
  unfoldable pub lookup : String → List (String × V) → Option V
  lookup k [] = none
  lookup k ((j, v) ∷ m) = if str_eq j k then some v else lookup k m

  -- `d[k] = v`
  unfoldable pub insert : String → V → List (String × V) → List (String × V)
  insert key new [] = (key, new) ∷ []
  insert key new ((i, old) ∷ d) =
      if str_eq i key then (key, new) ∷ d else (i, old) ∷ insert key new d

  -- `d.pop(k, None)`
  unfoldable pub erase : String → List (String × V) → List (String × V)
  erase k [] = []
  erase k ((j, w) ∷ m) = if str_eq j k then m else (j, w) ∷ erase k m

  -- A key that was written reads as what was written, and every other key as before.
  pub lookup-insert :
      (key other : String) (new : V) (d : List (String × V))
      → lookup other (insert key new d) ≡ (if str_eq key other then some new else lookup other d)
  unfolding lookup insert
  lookup-insert key other new [] = refl
  lookup-insert key other new ((i, old) ∷ d) =
      let rest = lookup-insert key other new d in
      ground (arith, rest, eq_iff i other, eq_iff i key, eq_iff key other)

  pub All-insert {κ} :
      (P : String × V → Type κ) (k : String) (v : V) (m : List (String × V))
      → All P m
      → P (k, v)
      → All P (insert k v m)
  unfolding insert
  All-insert P k v [] h p = (p, tt)
  All-insert P k v ((j, w) ∷ m) h p = elim (Bool-cases (str_eq j k)) [
    | inl same ↦ rw same (p, h.1)
    | inr other ↦ rw other (h.0, All-insert P k v m h.1 p)
  ]

  pub All-lookup {κ} :
      (P : String × V → Type κ) (k : String) {v : V} (m : List (String × V))
      → All P m
      → lookup k m ≡ some v
      → P (k, v)
  unfolding lookup
  All-lookup P k [] h e = cc
  All-lookup P k {v} ((j, w) ∷ m) h e = elim (Bool-cases (str_eq j k)) [
    | inl same ↦
        let found : some w ≡ some v = rw same at e in
        subst (λ x. P (x, v)) ((eq_iff j k).0 same) (subst (λ x. P (j, x)) (cc found) h.0)
    | inr other ↦ All-lookup P k m h.1 (rw other at e)
  ]

  -- No key stands twice.
  abbrev pub IsUnique : List (String × V) → Type ℓ
  IsUnique [] = Unit
  IsUnique ((k, v) ∷ m) = (lookup k m ≡ none) × IsUnique m

  pub lookup-insert_self :
      (k : String) (v : V) (m : List (String × V)) → lookup k (insert k v m) ≡ some v
  lookup-insert_self k v m = rw (lookup-insert, eq_refl)

  pub lookup-erase_ne :
      (k j : String) (m : List (String × V))
      → str_eq k j ≡ false
      → lookup j (erase k m) ≡ lookup j m
  unfolding lookup erase
  lookup-erase_ne k j [] h = refl
  lookup-erase_ne k j ((i, w) ∷ m) h =
      ground (arith, eq_iff k j, eq_iff i k, eq_iff i j, lookup-erase_ne k j m)

  pub lookup-erase_self :
      (k : String) (m : List (String × V)) → IsUnique m → lookup k (erase k m) ≡ none
  unfolding lookup erase
  lookup-erase_self k [] u = refl
  lookup-erase_self k ((i, w) ∷ m) (new, u) = elim (Bool-cases (str_eq i k)) [
    | inl same ↦ rw same (subst (λ j. lookup j m ≡ none) ((eq_iff i k).0 same) new)
    | inr other ↦ rw (other, lookup) (rw other (lookup-erase_self k m u))
  ]

  lookup-nil : (k : String) → lookup k [] ≡ none
  unfolding lookup
  lookup-nil k = refl

  still_new :
      (i k : String) (v : V) (m : List (String × V))
      → str_eq i k ≡ false
      → lookup i m ≡ none
      → lookup i (insert k v m) ≡ none
  still_new i k v m h new = ground (arith, lookup-insert k i v m, eq_iff i k, eq_iff k i)

  pub insert-IsUnique :
      (k : String) (v : V) (m : List (String × V)) → IsUnique m → IsUnique (insert k v m)
  unfolding insert
  insert-IsUnique k v [] u = (lookup-nil k, tt)
  insert-IsUnique k v ((i, w) ∷ m) (new, u) = elim (Bool-cases (str_eq i k)) [
    | inl same ↦ rw same (subst (λ j. lookup j m ≡ none) ((eq_iff i k).0 same) new, u)
    | inr other ↦ rw other (still_new i k v m other new, insert-IsUnique k v m u)
  ]

  -- A key that is new to a dict is new to what is left of it.
  new-erase :
      (i k : String) (m : List (String × V))
      → IsUnique m
      → lookup i m ≡ none
      → lookup i (erase k m) ≡ none
  new-erase i k m u h = elim (Bool-cases (str_eq k i)) [
    | inl same ↦
        subst (λ j. lookup j (erase k m) ≡ none) ((eq_iff k i).0 same) (lookup-erase_self k m u)
    | inr other ↦ rw (lookup-erase_ne k i m other) h
  ]

  pub erase-IsUnique : (k : String) (m : List (String × V)) → IsUnique m → IsUnique (erase k m)
  unfolding erase
  erase-IsUnique k [] u = tt
  erase-IsUnique k ((i, w) ∷ m) (new, u) = elim (Bool-cases (str_eq i k)) [
    | inl same ↦ rw same u
    | inr other ↦ rw other (new-erase i k m u new, erase-IsUnique k m u)
  ]
