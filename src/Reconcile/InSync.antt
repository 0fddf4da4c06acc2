-- ===== src/Reconcile/InSync.antt =====
-- What a report without drift shows: signald/reconcile.py, `reconcile`.
use trading_execution.Prelude.{
  ◌≡◌, refl, ap, sym, subst, ◌∙◌, Bool, true, false, not, Option, none, some, List, [], ◌∷◌, ◌++◌,
  String, arith, inl, inr, ◌⊎◌, any, All, is_empty, sort, any-sort, Bool-cases,
}
use trading_execution.Prelude.Float.{Float, nan, Arith, ltb_f, abs_f}
use trading_execution.Prelude.Results.{ok, >>=-eq-ok}
use trading_execution.Reconcile.{
  BrokerOrder, Drift, ReconcileReport, symbols, known_ids, is_closed, is_known, order_drift,
  net_from, quantity, is_off, position_drift, cash_drift, report, Inputs, drift_of, comes_before,
  reconcile,
}

abbrev yes_to : Drift → Bool
yes_to d = true

empty_any : (ds : List Drift) → is_empty ds ≡ true → any yes_to ds ≡ false
empty_any [] h = refl
empty_any (d ∷ ds) h = cc

any_empty : (ds : List Drift) → any yes_to ds ≡ false → is_empty ds ≡ true
any_empty [] h = refl
any_empty (d ∷ ds) h = cc

empty-append :
    (ds es : List Drift) → is_empty (ds ++ es) ≡ true → (is_empty ds ≡ true) × (is_empty es ≡ true)
empty-append [] es h = (refl, h)
empty-append (d ∷ ds) es h = cc

-- The order is finished, or it is one of ours.
abbrev pub IsAccounted : (String → String) → List String → BrokerOrder → Type 0
IsAccounted lower known o = (is_closed lower o ≡ true) ⊎ (is_known lower known o ≡ true)

orders_lem :
    (lower : String → String) (known : List String) (os : List BrokerOrder)
    → is_empty (order_drift lower known os) ≡ true
    → All (IsAccounted lower known) os
unfolding order_drift
orders_lem lower known [] h = tt
orders_lem lower known (o ∷ os) h = elim (Bool-cases (is_closed lower o)) [
  | inl e ↦ (inl e, orders_lem lower known os (rw e at h))
  | inr e ↦ elim (Bool-cases (is_known lower known o)) [
    | inl f ↦ (inr f, orders_lem lower known os (rw (e, f) at h))
    | inr f ↦ let no : false ≡ true = rw (e, f) at h in cc
  ]
]

nan_lem : (x : Float) → ltb_f x (abs_f nan) ≡ false
unfolding ltb_f
nan_lem x = ground arith

module _ (a : Arith) where
  positions_lem :
      (l b : List (String × Float)) (tolerance : Float) (ss : List String)
      → is_empty (position_drift a l b tolerance ss) ≡ true
      → All (λ s. is_off a l b tolerance s ≡ false) ss
  unfolding position_drift
  positions_lem l b tolerance [] h = tt
  positions_lem l b tolerance (s ∷ ss) h = elim (Bool-cases (is_off a l b tolerance s)) [
    | inl e ↦ let no : false ≡ true = rw e at h in cc
    | inr e ↦ (e, positions_lem l b tolerance ss (rw e at h))
  ]

  -- The cash is known on neither side, or on both and within the tolerance.
  abbrev pub IsBalanced : Option Float → Option Float → Float → Type 0
  IsBalanced none none tolerance = Unit
  IsBalanced (some l) (some b) tolerance = ltb_f tolerance (abs_f (a.sub l b)) ≡ false
  IsBalanced _ _ tolerance = ⊥

  cash_lem :
      (l b : Option Float) (tolerance : Float)
      → is_empty (cash_drift a l b tolerance) ≡ true
      → IsBalanced l b tolerance
  unfolding cash_drift
  cash_lem none none tolerance h = tt
  cash_lem none (some b) tolerance h = cc
  cash_lem (some l) none tolerance h = cc
  cash_lem (some l) (some b) tolerance h = ground (arith, h)

  -- A report that is ok lets the caller go on; then the fills and the positions of every symbol that either
  -- side names differ by no more than the tolerance, every order of the broker is finished or known here, and
  -- the cash is known on neither side or agrees. A report that is not ok halts.
  pub reconcile-InSync :
      (lower : String → String) (i : Inputs a) (r : ReconcileReport)
      → reconcile a lower i ≡ ok r
      → (r.halt ≡ not r.ok)
        × ((r.ok ≡ false)
            ⊎ ((l : List (String × Float)) × (b : List (String × Float)) × (net_from a []
                    i.local_fills
                  ≡ ok l)
                × (net_from a [] i.broker_positions ≡ ok b)
                × All (λ s. is_off a l b i.share_tolerance s ≡ false) (symbols l b)
                × All (IsAccounted lower (known_ids i.local_open_orders)) i.broker_orders
                × IsBalanced i.cash_local i.cash_broker i.cash_tolerance))
  unfolding reconcile drift_of
  reconcile-InSync lower i r h =
      let (l, e, h1) = >>=-eq-ok (net_from a [] i.local_fills) _ h in
      let (b, f, h2) = >>=-eq-ok (net_from a [] i.broker_positions) _ h1 in
      let drift = drift_of a lower i l b in
      let same : report a (sort comes_before drift) ≡ r = cc h2 in
      (
        subst (λ (x : ReconcileReport). x.halt ≡ not x.ok) same refl,
        elim (Bool-cases r.ok) [
          | inr k ↦ inl k
          | inl k ↦
              let none_left : is_empty drift ≡ true = any_empty drift (
                sym (any-sort yes_to comes_before drift)
                ∙ empty_any (sort comes_before drift)
                    (ap (λ (x : ReconcileReport). x.ok) same ∙ k)) in
              let (p, rest) =
                empty-append (position_drift a l b i.share_tolerance (symbols l b)) _ none_left in
              let (o, c) =
                empty-append (order_drift lower (known_ids i.local_open_orders) i.broker_orders) _
                  rest in
              inr (
                l,
                b,
                e,
                f,
                positions_lem l b i.share_tolerance (symbols l b) p,
                orders_lem lower (known_ids i.local_open_orders) i.broker_orders o,
                cash_lem i.cash_local i.cash_broker i.cash_tolerance c,
              )
        ],
      )

  -- A symbol whose quantity at the broker is NaN is never out of tolerance, whatever the fills say.
  pub nan_is_in_sync :
      (l b : List (String × Float)) (tolerance : Float) (s : String)
      → ((x : Float) → a.sub x nan ≡ nan)
      → quantity a b s ≡ nan
      → is_off a l b tolerance s ≡ false
  nan_is_in_sync l b tolerance s law h = rw (h, law (quantity a l s)) (nan_lem tolerance)
