-- ===== src/Order/State/Invariant.antt =====
-- What holds of the manager after every event: the stored quantities, the recorded executions,
-- and how each order stands in what follows.
use trading_execution.Prelude.{
  ◌≡◌, refl, false, Option, none, some, List, [], ◌∷◌, ◌++◌, String, str_eq, eq_iff, arith, inl,
  inr, All, if◌then◌else◌, Bool-cases, Option-cases, subst, sym, ap, ◌∙◌,
}
use trading_execution.Prelude.Dict.{lookup, lookup-insert, All-insert, All-lookup}
use trading_execution.Prelude.Int.{ℤ, pos, ◌+ℤ◌, ◌≤ℤ◌, int_laws, +ℤ_assoc, +ℤ_zero}
use trading_execution.Prelude.Float.{Arith}
use trading_execution.Prelude.Results.{Result, ok, err, Result-cases}
use trading_execution.Json.{Value, Text}
use trading_execution.Order.State.Types.{Status, status_of, OrderState, Fill, Manager, Exc}
use trading_execution.Order.State.Apply.{base_filled}
use trading_execution.Order.State.Stream.{
  record_anomaly, fill_list, apply, run, restore_one, restore_all, restore, is_inconsistent,
  with_status, sort_by, Reported,
}
use trading_execution.Order.State.Judged.{Counts}
use trading_execution.Order.State.Evolution.{Evolves, Evolves-refl, Evolves-trans}
use trading_execution.Order.State.Effect.{Effect, apply-Effect}

-- A stored state stands under its own id, and has filled between nothing and everything.
abbrev pub IsSound : String × OrderState → Type 0
IsSound (cid, s) = (s.client_order_id ≡ cid) × (pos 0 ≤ℤ s.filled_qty) × (s.filled_qty ≤ℤ s.qty)

abbrev pub IsValid : Manager → Type 0
IsValid m = All IsSound m.states

-- The sum of the recorded executions of one order.
unfoldable pub executed : String → List Fill → ℤ
executed cid [] = pos 0
executed cid (f ∷ fs) =
    if str_eq f.client_order_id cid then f.qty +ℤ executed cid fs else executed cid fs

-- No order has more recorded executions than its state counts as filled.
abbrev pub IsCounted : Manager → Type 0
IsCounted m = (cid : String) → executed cid m.fills ≤ℤ base_filled (lookup cid m.states)

Counts_nonneg :
    (cid : String) (prev : Option OrderState) (f : Option Fill) (n : ℤ)
    → Counts cid prev f n
    → pos 0 ≤ℤ base_filled prev
    → pos 0 ≤ℤ n
Counts_nonneg cid none none n c h = c
Counts_nonneg cid none (some f) n c h = grind int_laws
Counts_nonneg cid (some p) none n c h = grind int_laws
Counts_nonneg cid (some p) (some f) n c h = grind int_laws

base_filled_nonneg :
    (m : Manager) (cid : String) → IsValid m → pos 0 ≤ℤ base_filled (lookup cid m.states)
base_filled_nonneg m cid v = elim (Option-cases (lookup cid m.states)) [
  | inl missing ↦ rw missing (omega arith)
  | inr (p, found) ↦ rw found (All-lookup IsSound cid m.states v found).1
]

Effect-IsValid :
    (t : Text) (e : Value) (m : Manager) (r : Manager × Option OrderState)
    → Effect t e m r
    → IsValid m
    → IsValid r.0
Effect-IsValid t e m r (inl (same, _, _)) v = subst (All IsSound) (sym same) v
Effect-IsValid t e m r (inr (cid, s, f, _, same, out, states, _, _, counts, le, _)) v =
    subst (All IsSound) (sym states) (
      All-insert IsSound cid s m.states v (
        same,
        Counts_nonneg cid (lookup cid m.states) f s.filled_qty counts (base_filled_nonneg m cid v),
        le,
      ))

-- How every order of one manager stands in a later one.
abbrev pub Grows : Manager → Manager → Type 0
Grows m m' = (cid : String) → Evolves (lookup cid m.states) (lookup cid m'.states)

Effect-Grows :
    (t : Text) (e : Value) (m : Manager) (r : Manager × Option OrderState)
    → Effect t e m r
    → Grows m r.0
Effect-Grows t e m r (inl (same, _, _)) cid =
    subst (λ d. Evolves (lookup cid m.states) (lookup cid d)) (sym same)
      (Evolves-refl (lookup cid m.states))
Effect-Grows t e m r (inr (k, s, f, _, _, _, states, _, _, _, _, evolves)) cid =
    subst (λ d. Evolves (lookup cid m.states) (lookup cid d)) (sym states)
      (rw (lookup-insert k cid s m.states) (elim (Bool-cases (str_eq k cid)) [
        | inl same ↦
            rw same
              (subst (λ j. Evolves (lookup j m.states) (some s)) ((eq_iff k cid).0 same) evolves)
        | inr other ↦ rw other (Evolves-refl (lookup cid m.states))
      ]))

executed-append :
    (cid : String) (fs gs : List Fill)
    → executed cid (fs ++ gs) ≡ executed cid fs +ℤ executed cid gs
unfolding executed
executed-append cid [] gs = omega int_laws
executed-append cid (f ∷ fs) gs = elim (Bool-cases (str_eq f.client_order_id cid)) [
  | inl same ↦ rw same (
      ap (λ n. f.qty +ℤ n) (executed-append cid fs gs)
      ∙ sym (+ℤ_assoc f.qty (executed cid fs) (executed cid gs)))
  | inr other ↦ rw other (executed-append cid fs gs)
]

-- The executions of one applied event, against the quantities counted before and after it.
Counts-executed :
    (cid : String) (prev : Option OrderState) (f : Option Fill) (n total : ℤ)
    → Counts cid prev f n
    → total ≤ℤ base_filled prev
    → total +ℤ executed cid (fill_list f) ≤ℤ n
unfolding executed
Counts-executed cid none none n total c h = omega int_laws
Counts-executed cid (some p) none n total c h = rw c (omega int_laws)
Counts-executed cid none (some f) n total (named, _, counted) h =
    rw ((eq_iff f.client_order_id cid).1 named, counted) (omega int_laws)
Counts-executed cid (some p) (some f) n total (named, _, counted) h =
    rw ((eq_iff f.client_order_id cid).1 named, counted) (omega int_laws)

-- An event of one order adds no execution to another.
executed_other :
    (cid j : String) (prev : Option OrderState) (f : Option Fill) (n : ℤ)
    → Counts cid prev f n
    → str_eq cid j ≡ false
    → executed j (fill_list f) ≡ pos 0
unfolding executed
executed_other cid j prev none n c h = refl
executed_other cid j prev (some f) n (named, _, _) h = rw (named, h)

Effect-IsCounted :
    (t : Text) (e : Value) (m : Manager) (r : Manager × Option OrderState)
    → Effect t e m r
    → IsCounted m
    → IsCounted r.0
Effect-IsCounted t e m r (inl (states, fills, _)) c j = rw (states, fills) (c j)
Effect-IsCounted t e m r (inr (cid, s, f, _, _, _, states, fills, _, counts, _, _)) c j =
    rw (states, fills, executed-append j m.fills (fill_list f), lookup-insert cid j s m.states)
      (elim (Bool-cases (str_eq cid j)) [
        | inl same ↦ rw same (
            subst (λ k. executed k m.fills +ℤ executed k (fill_list f) ≤ℤ s.filled_qty)
              ((eq_iff cid j).0 same)
              (Counts-executed cid (lookup cid m.states) f s.filled_qty (executed cid m.fills)
                counts (c cid)))
        | inr other ↦
            rw
              (
                other,
                executed_other cid j (lookup cid m.states) f s.filled_qty counts other,
                +ℤ_zero (executed j m.fills),
              )
              (c j)
      ])

module _ (t : Text) (a : Arith) where
  -- A stream of updates that does not raise, of any length and content, keeps every stored
  -- quantity between nothing and everything, records no more executions of an order than its state
  -- counts, and lets no order regress: no filled quantity falls, every status moves along legal
  -- transitions, and a terminal status never moves again.
  pub run_history :
      (es : List (String × Value)) (m : Manager) {m' : Manager}
      → run t a m es ≡ ok m'
      → IsValid m
      → IsCounted m
      → IsValid m' × IsCounted m' × Grows m m'
  unfolding run
  run_history [] m {m'} h v c =
      let same : m ≡ m' = cc h in
      subst (λ x. IsValid x × IsCounted x × Grows m x) same
        (v, c, λ cid. Evolves-refl (lookup cid m.states))
  run_history ((now, e) ∷ es) m {m'} h v c = elim (Result-cases (apply t a now m e)) [
    | inl (r, q) ↦
        let effect = apply-Effect t a now m e q in
        let (v', c', grows) =
          run_history es r.0 (rw (q, run) at h) (Effect-IsValid t e m r effect v)
            (Effect-IsCounted t e m r effect c) in
        (
          v',
          c',
          λ cid.
              Evolves-trans (lookup cid m.states) (lookup cid r.0.states) (lookup cid m'.states)
                (Effect-Grows t e m r effect cid) (grows cid),
        )
    | inr (x, q) ↦
        let raised_here : ◌≡◌ {A = Result Exc Manager} (err x) (ok m') = rw (q, run) at h in cc
  ]

consistent-IsSound :
    (r : Reported) (s : Status)
    → is_inconsistent r ≡ false
    → IsSound (r.client_order_id, with_status r s)
unfolding is_inconsistent
consistent-IsSound r s h = ground arith

restore_one-IsValid : (m : Manager) (r : Reported) → IsValid m → IsValid (restore_one m r)
unfolding restore_one record_anomaly
restore_one-IsValid m r v = elim (Option-cases (status_of r.status)) [
  | inl unknown ↦ rw (unknown, restore_one) v
  | inr (s, known) ↦
      rw (known, restore_one)
        (elim (Bool-cases (is_inconsistent r)) [
          | inl wrong ↦ rw wrong v
          | inr right ↦ rw right (
              All-insert IsSound r.client_order_id (with_status r s) m.states v
                (consistent-IsSound r s right))
        ])
]

restore_all-IsValid : (rs : List Reported) (m : Manager) → IsValid m → IsValid (restore_all m rs)
unfolding restore_all
restore_all-IsValid [] m v = v
restore_all-IsValid (r ∷ rs) m v =
    restore_all-IsValid rs (restore_one m r) (restore_one-IsValid m r v)

-- A cold start from any list of broker states keeps every stored state under its own id with its
-- filled quantity between nothing and everything.
pub restore-IsValid : (m : Manager) (rs : List Reported) → IsValid m → IsValid (restore m rs)
unfolding restore
restore-IsValid m rs v = restore_all-IsValid (sort_by (λ r. r.client_order_id) rs) m v
