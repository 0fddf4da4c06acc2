-- ===== src/Order/Guard/Admission.antt =====
-- What the guard lets through, and what it names: signald/order/guard.py, `guard`.
use trading_execution.Prelude.{
  ◌≡◌, refl, Bool, true, false, some, List, [], ◌∷◌, ◌++◌, String, str_eq, All, ap, ◌∙◌, is_empty,
  head?, arith, Bool-cases, Option-cases, inl, inr, ◌&&◌,
}
use trading_execution.Prelude.Int.{pos, leb_ℤ}
use trading_execution.Prelude.Float.{Float, ltb_f}
use trading_execution.Prelude.Results.{Result, ok, Result-cases}
use trading_execution.Json.{one_of}
use trading_execution.Risk.State.{book_notional}
use trading_execution.Risk.Gate.Context.{Mandate}
use trading_execution.Order.Intent.{OrderIntent}
use trading_execution.Order.Guard.{
  Raised, GuardRuntime, GuardContext, allowed_order_types, permitting_verdicts, gate_verdict_ok,
  approval_ok, stop_ok, is_open_id, duplicate_ok, wash_ok, mandate_allows, mandate_ok,
  effective_notional, over, buying_power_ok, guard_checks, clears, failing, guard,
}

-- A list of checks, each of which was passed.
abbrev pub AllClear : List (String × Result Raised Bool) → Type 0
AllClear ks = All (λ k. clears k.1 ≡ true) ks

failing-empty :
    (ks : List (String × Result Raised Bool)) → is_empty (failing ks) ≡ true → AllClear ks
unfolding failing
failing-empty [] h = tt
failing-empty ((name, r) ∷ ks) h = elim (Bool-cases (clears r)) [
  | inl e ↦ (e, failing-empty ks (rw (e, failing) at h))
  | inr e ↦ let no : false ≡ true = rw (e, failing) at h in cc
]

failing-first :
    (pre : List (String × Result Raised Bool)) (name : String) (r : Result Raised Bool)
    (post : List (String × Result Raised Bool))
    → AllClear pre
    → clears r ≡ false
    → failing (pre ++ (name, r) ∷ post) ≡ name ∷ failing post
unfolding failing
failing-first [] name r post h e = rw (e, failing) refl
failing-first (k ∷ ks) name r post h e = rw (h.0, failing) (failing-first ks name r post h.1 e)

module _ (rt : GuardRuntime) (i : OrderIntent) (c : GuardContext) where
  -- What holds of an intent that the guard lets through.
  pub record Admitted : Type 0 where
    pub quantity : leb_ℤ (pos 1) i.qty ≡ true
    pub limit_order : one_of i.order_type allowed_order_types ≡ true
    pub permitted : (v : String) × (c.gate_verdict ≡ some v) × (one_of v permitting_verdicts ≡ true)
    pub mandated : (m : Mandate) × (c.mandate ≡ some m) × (mandate_allows rt i c m ≡ true)
    pub approved : approval_ok c ≡ true
    pub affordable :
        (n : Float) × (effective_notional rt i c ≡ ok n)
        × (over rt c.book.buying_power n ≡ false)
        × ((str_eq i.side "buy"
              && ltb_f
                  (rt.a.mul c.config.leverage_cap c.book.equity)
                  (rt.a.add (book_notional rt.a c.book) n))
            ≡ false)
    pub protected : stop_ok i ≡ true
    pub unsent : is_open_id i.client_order_id c.open_orders ≡ ok false
    pub uncrossed : wash_ok i c ≡ true

  gate_verdict_ok-some :
      gate_verdict_ok c ≡ true
      → (v : String) × (c.gate_verdict ≡ some v) × (one_of v permitting_verdicts ≡ true)
  gate_verdict_ok-some h = elim (Option-cases c.gate_verdict) [
    | inl e ↦ let no : false ≡ true = rw (e, gate_verdict_ok) at h in cc
    | inr (v, e) ↦ (v, e, rw (e, gate_verdict_ok) at h)
  ]

  mandate_ok-some :
      mandate_ok rt i c ≡ true
      → (m : Mandate) × (c.mandate ≡ some m) × (mandate_allows rt i c m ≡ true)
  unfolding mandate_ok
  mandate_ok-some h = elim (Option-cases c.mandate) [
    | inl e ↦ ground arith
    | inr (m, e) ↦ (m, e, ground arith)
  ]

  buying_power_ok-some :
      clears (buying_power_ok rt i c) ≡ true
      → (n : Float) × (effective_notional rt i c ≡ ok n)
        × (over rt c.book.buying_power n ≡ false)
        × ((str_eq i.side "buy"
              && ltb_f
                  (rt.a.mul c.config.leverage_cap c.book.equity)
                  (rt.a.add (book_notional rt.a c.book) n))
            ≡ false)
  unfolding buying_power_ok
  buying_power_ok-some h = elim (Result-cases (effective_notional rt i c)) [
    | inl (n, e) ↦ (n, e, ground arith, ground arith)
    | inr (x, e) ↦ ground arith
  ]

  duplicate_ok-unsent :
      clears (duplicate_ok i c) ≡ true → is_open_id i.client_order_id c.open_orders ≡ ok false
  unfolding duplicate_ok
  duplicate_ok-unsent h = ground arith

  -- An intent that the guard lets through has a whole quantity of at least one, an order type that
  -- carries a limit or a stop, a permitting verdict of the gate, a live mandate that allows it, the
  -- approval that was required, a protective stop, an id that no open order has, and no opposite side in
  -- the other sleeve. Its notional is not greater than the buying power, where that is known; and for a
  -- buy, the book with its notional is not greater than the leverage cap. A sale has no test of leverage,
  -- and a comparison with NaN counts as not greater.
  pub guard-Admitted : (guard rt i c).ok ≡ true → Admitted
  unfolding guard guard_checks
  guard-Admitted h =
      let p = failing-empty (guard_checks rt i c) h in
      let late = p.1.1.1.1.1.1.1 in
      record {
        quantity = p.1.0;
        limit_order = p.1.1.0;
        permitted = gate_verdict_ok-some p.1.1.1.1.1.0;
        mandated = mandate_ok-some p.1.1.1.1.0;
        approved = p.1.1.1.1.1.1.0;
        affordable = buying_power_ok-some late.0;
        protected = late.1.1.0;
        unsent = duplicate_ok-unsent late.1.1.1.0;
        uncrossed = late.1.1.1.1.0;
      }

  -- A check that fails, or raises, denies the intent; and where every check before it in the table is
  -- passed, it is the one that the denial names.
  pub guard-binding :
      (pre : List (String × Result Raised Bool)) (name : String) (r : Result Raised Bool)
      (post : List (String × Result Raised Bool))
      → guard_checks rt i c ≡ pre ++ (name, r) ∷ post
      → AllClear pre
      → clears r ≡ false
      → ((guard rt i c).ok ≡ false) × ((guard rt i c).binding ≡ some name)
  unfolding guard
  guard-binding pre name r post split h e =
      let reasons = ap failing split ∙ failing-first pre name r post h e in
      (ap is_empty reasons, ap head? reasons)
