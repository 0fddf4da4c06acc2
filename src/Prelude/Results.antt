-- ===== src/Prelude/Results.antt =====
-- Fallible code: a value, or the exception that was raised.
use mathlib.Core.Path.{◌≡◌, refl}
use mathlib.Core.Logic.{◌⊎◌, inl, inr}
use mathlib.Core.Bool.{Bool, true, false}
use mathlib.Core.Option.{Option, none, some}

pub data Result {ℓ κ} (E : Type ℓ) (A : Type κ) : Type (ℓ ⊔ κ) where
  ok : A → Result E A
  err : E → Result E A

infixl 5 ◌>>=◌ ◌>>◌
abbrev pub ◌>>=◌ {ℓ κ μ} :
    {E : Type ℓ} {A : Type κ} {B : Type μ} → Result E A → (A → Result E B) → Result E B
ok a >>= f = f a
err e >>= f = err e

abbrev pub ◌>>◌ {ℓ μ} : {E : Type ℓ} {B : Type μ} → Result E (Unit {0}) → Result E B → Result E B
m >> k = m >>= λ _. k

-- `if not test: raise e`
abbrev pub guard {ℓ} : {E : Type ℓ} → Bool → E → Result E (Unit {0})
guard true e = ok tt
guard false e = err e

abbrev pub or_raise {ℓ κ} : {E : Type ℓ} {A : Type κ} → Option A → E → Result E A
or_raise none e = err e
or_raise (some a) e = ok a

-- A bind that succeeds has a first part that did, and goes on with its value.
pub >>=-eq-ok {ℓ κ μ} :
    {E : Type ℓ} {A : Type κ} {C : Type μ} {c : C} (first : Result E A) (next : A → Result E C)
    → first >>= next ≡ ok c
    → (x : A) × (first ≡ ok x) × (next x ≡ ok c)
>>=-eq-ok (err e) next returned = cc
>>=-eq-ok (ok x) next returned = (x, refl, returned)

-- What holds of a result that was returned.
abbrev pub Returns {ℓ κ μ} : {E : Type ℓ} {A : Type κ} → (A → Type μ) → Result E A → Type μ
Returns P (ok a) = P a
Returns P (err e) = Unit

-- To split on a computed result and keep the equation.
pub Result-cases {ℓ κ} :
    {E : Type ℓ} {A : Type κ} (r : Result E A) → ((a : A) × (r ≡ ok a)) ⊎ ((e : E) × (r ≡ err e))
Result-cases (ok a) = inl (a, refl)
Result-cases (err e) = inr (e, refl)

-- A sequence that succeeds has two parts that did.
pub >>-eq-ok {ℓ κ} :
    {E : Type ℓ} {C : Type κ} {c : C} (first : Result E (Unit {0})) (next : Result E C)
    → first >> next ≡ ok c
    → (first ≡ ok tt) × (next ≡ ok c)
>>-eq-ok (err e) next returned = cc
>>-eq-ok (ok x) next returned = (refl, returned)

-- A guard that was passed held.
pub guard-eq-ok {ℓ κ} :
    {E : Type ℓ} {C : Type κ} {c : C} (b : Bool) (e : E) (next : Result E C)
    → guard b e >> next ≡ ok c
    → (b ≡ true) × (next ≡ ok c)
guard-eq-ok true e next returned = (refl, returned)
guard-eq-ok false e next returned = cc
