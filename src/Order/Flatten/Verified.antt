-- ===== src/Order/Flatten/Verified.antt =====
-- What it takes to call the book flat: signald/order/flatten.py, `verify_flat`.
use trading_execution.Prelude.{
  ℕ, zero, suc, ◌+◌, ◌≤◌, ◌<◌, ◌≡◌, refl, sym, ◌∙◌, Bool, true, false, Option, some, List, [], ◌∷◌,
  String, arith, inl, inr, if◌then◌else◌, leb, All, is_empty, any, sort, any-sort, text_le,
  Bool-cases, Option-cases, str_eq, eq_refl,
}
use trading_execution.Prelude.Results.{Result, ok, err}
use trading_execution.Risk.State.{Position}
use trading_execution.Order.Flatten.{
  dust_shares, is_residual, residual_symbols, is_flat, FlatAnswer, flat, unavailable, residual,
  verify_from, verify_flat,
}

empty_lem : (xs : List String) → is_empty xs ≡ true → (p : String → Bool) → any p xs ≡ false
empty_lem [] h p = refl
empty_lem (x ∷ xs) h p = cc

kept_lem :
    (s : String) (rest : List String)
    → any (λ t. str_eq t s) (if any (λ t. str_eq t s) rest then rest else s ∷ rest) ≡ false
    → ⊥
kept_lem s rest h = ground (arith, h, eq_refl s)

residual_lem :
    (ps : List Position)
    → ((f : String → Bool) → any f (residual_symbols dust_shares ps) ≡ false)
    → All (λ p. is_residual dust_shares p ≡ false) ps
unfolding residual_symbols
residual_lem [] h = tt
residual_lem (p ∷ ps) h = elim (Bool-cases (is_residual dust_shares p)) [
  | inl e ↦
      absurd
        (kept_lem p.symbol (residual_symbols dust_shares ps) (rw e at h (λ s. str_eq s p.symbol)))
  | inr e ↦ (e, residual_lem ps (rw e at h))
]

is_flat_lem :
    (ps : List Position)
    → (is_flat dust_shares ps).0 ≡ true
    → All (λ p. is_residual dust_shares p ≡ false) ps
unfolding is_flat
is_flat_lem ps h = residual_lem ps (λ f.
    sym (any-sort f text_le (residual_symbols dust_shares ps))
    ∙ empty_lem (sort text_le (residual_symbols dust_shares ps)) h f)

abbrev IsRead : (ℕ → Option (List Position)) → ℕ → ℕ → Type 0
IsRead read k n =
    (j : ℕ) × (k ≤ j)
    × (j < k + n)
    × (ps : List Position) × (read j ≡ some ps)
    × All (λ p. is_residual dust_shares p ≡ false) ps

verify_from_lem :
    (read : ℕ → Option (List Position)) (k n : ℕ) (syms : List String)
    → verify_from read k n (residual syms) ≡ flat
    → IsRead read k n
unfolding verify_from
verify_from_lem read k zero syms h = cc
verify_from_lem read k (suc n) syms h = elim (Option-cases (read k)) [
  | inl e ↦ let no : unavailable ≡ flat = rw (e, verify_from) at h in cc
  | inr (ps, e) ↦ elim (Bool-cases (is_flat dust_shares ps).0) [
    | inl f ↦ (k, omega arith, omega arith, ps, e, is_flat_lem ps f)
    | inr f ↦
        let (j, low, high, qs, g, each) =
          verify_from_lem read (suc k) n (is_flat dust_shares ps).1 (rw (e, f, verify_from) at h) in
        (j, omega (arith, low), omega (arith, high), qs, g, each)
  ]
]

-- The book is called flat only on a read of the broker's positions that was made within the attempts,
-- that the broker answered, and in which no position is larger than the dust of one share.
pub verify_flat-IsRead :
    (read : ℕ → Option (List Position)) (attempts : ℕ)
    → verify_flat read attempts ≡ ok flat
    → (j : ℕ) × (j < attempts)
      × (ps : List Position) × (read j ≡ some ps)
      × All (λ p. is_residual dust_shares p ≡ false) ps
unfolding verify_flat
verify_flat-IsRead read attempts h = elim (Bool-cases (leb 1 attempts)) [
  | inr e ↦
      let no : ◌≡◌ {A = Result String FlatAnswer} (err "attempts must be >= 1") (ok flat) =
        rw (e, verify_flat) at h in
      cc
  | inl e ↦
      let given : ◌≡◌ {A = Result String FlatAnswer}
          (ok (verify_from read 0 attempts (residual []))) (ok flat) =
        rw (e, verify_flat) at h in
      let (j, low, high, ps, f, each) = verify_from_lem read 0 attempts [] (cc given) in
      (j, omega (arith, high), ps, f, each)
]
