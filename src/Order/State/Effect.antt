-- ===== src/Order/State/Effect.antt =====
-- What one event may do to the manager.
use trading_execution.Prelude.{
  ◌≡◌, refl, false, Option, some, [], ◌∷◌, ◌++◌, String, ◌⊎◌, inl, inr, Bool-cases, subst, sym,
  none,
}
use trading_execution.Prelude.Dict.{lookup, insert}
use trading_execution.Prelude.Int.{◌≤ℤ◌}
use trading_execution.Prelude.Float.{Arith}
use trading_execution.Prelude.Results.{Result, ok, err}
use trading_execution.Json.{Value, str, obj, get, Fields, end, field, Text, is_blank}
use trading_execution.Order.State.Types.{OrderState, Fill, Anomaly, Manager, Stop, bad, raised}
use trading_execution.Order.State.Apply.{judge}
use trading_execution.Order.State.Stream.{
  Applied, prior, record_anomaly, fill_list, commit, settle, apply_known, apply_order, apply,
}
use trading_execution.Order.State.Judged.{judge_lem, Counts}
use trading_execution.Order.State.Evolution.{Evolves, Evolves-of_judged}

-- The event is a mapping with an order that has this id.
abbrev pub Names : Value → String → Type 0
Names e cid =
    (event : Fields) × (order : Fields) × (e ≡ obj event)
    × (get "order" event ≡ obj order)
    × (get "client_order_id" order ≡ str cid)
    × (is_blank cid ≡ false)

-- An anomaly carries the event itself, or what stands for one that is no mapping.
abbrev pub Carries : Text → Value → Value → Type 0
Carries t (obj event) raw = raw ≡ obj event
Carries t e raw = raw ≡ obj (field "raw" (str (t.repr e)) end)

-- The order that an anomaly blames, if any, is the one that the event names.
abbrev pub Blames : Value → Option String → Type 0
Blames e none = Unit
Blames e (some cid) = Names e cid

-- What an event may do: one anomaly is recorded and no order and no execution changes, or the one
-- order that is named gets the state that is returned, and at most one execution is appended.
abbrev pub Effect : Text → Value → Manager → Manager × Option OrderState → Type 0
Effect t e m (m', out) =
    ((m'.states ≡ m.states)
      × (m'.fills ≡ m.fills)
      × ((x : Anomaly) × (m'.anomalies ≡ m.anomalies ++ x ∷ [])
          × Carries t e x.raw
          × Blames e x.client_order_id
          × (out ≡ prior m x.client_order_id)))
    ⊎ ((cid : String) × (s : OrderState) × (f : Option Fill) × Names e cid
        × (s.client_order_id ≡ cid)
        × (out ≡ some s)
        × (m'.states ≡ insert cid s m.states)
        × (m'.fills ≡ m.fills ++ fill_list f)
        × (m'.anomalies ≡ m.anomalies)
        × Counts cid (lookup cid m.states) f s.filled_qty
        × (s.filled_qty ≤ℤ s.qty)
        × Evolves (lookup cid m.states) (some s))

module _ (t : Text) (e : Value) where
  anomaly-Effect :
      (m : Manager) (x : Anomaly)
      → Carries t e x.raw
      → Blames e x.client_order_id
      → Effect t e m (record_anomaly m x, prior m x.client_order_id)
  unfolding record_anomaly
  anomaly-Effect m x raw own = inl (refl, refl, (x, refl, raw, own, refl))

  commit-Effect :
      (a : Arith) (now : String) (m : Manager) (event order : Fields) (cid : String)
      (s : OrderState) (f : Option Fill)
      → Names e cid
      → judge t a now event order cid (lookup cid m.states) ≡ ok (s, f)
      → Effect t e m (commit m cid s f, some s)
  unfolding commit
  commit-Effect a now m event order cid s f named h =
      let (same, counts, le, follows) = judge_lem t a now event order cid (lookup cid m.states) h in
      inr (
        cid,
        s,
        f,
        named,
        same,
        refl,
        refl,
        refl,
        refl,
        counts,
        le,
        Evolves-of_judged (lookup cid m.states) cid f s counts follows,
      )

  returned-Effect :
      (m : Manager) (p : Manager × Option OrderState) {r : Manager × Option OrderState}
      → ◌≡◌ {A = Applied} (ok p) (ok r)
      → Effect t e m p
      → Effect t e m r
  returned-Effect m p {r} h k = let same : p ≡ r = cc h in subst (Effect t e m) same k

  settle-Effect :
      (a : Arith) (now : String) (m : Manager) (event order : Fields) (cid : String)
      {r : Manager × Option OrderState}
      → e ≡ obj event
      → Names e cid
      → settle m (obj event) cid (judge t a now event order cid (lookup cid m.states)) ≡ ok r
      → Effect t e m r
  unfolding settle
  settle-Effect a now m event order cid {r} own named h =
      go (judge t a now event order cid (lookup cid m.states)) refl h
    where
      go :
          (j : Result Stop (OrderState × Option Fill))
          → judge t a now event order cid (lookup cid m.states) ≡ j
          → settle m (obj event) cid j ≡ ok r
          → Effect t e m r
      go (ok (s, f)) l k = returned-Effect m _ k (commit-Effect a now m event order cid s f named l)
      go (err (bad code detail)) l k =
          returned-Effect m _ k
            (anomaly-Effect m _ (subst (λ v. Carries t v (obj event)) (sym own) refl) named)
      go (err (raised x)) l k = cc

module _ (t : Text) (a : Arith) where
  apply_known-Effect :
      (now : String) (m : Manager) (event order : Fields) (v : Value)
      {r : Manager × Option OrderState}
      → get "order" event ≡ obj order
      → get "client_order_id" order ≡ v
      → apply_known t a now m event order v ≡ ok r
      → Effect t (obj event) m r
  unfolding apply_known
  apply_known-Effect now m event order (str cid) o c h = elim (Bool-cases (is_blank cid)) [
    | inl blank ↦
        returned-Effect t (obj event) m _ (rw blank at h) (anomaly-Effect t (obj event) m _ refl tt)
    | inr named ↦
        settle-Effect t (obj event) a now m event order cid refl (event, order, refl, o, c, named)
          (rw named at h)
  ]
  apply_known-Effect now m event order _ o c h =
      returned-Effect t (obj event) m _ h (anomaly-Effect t (obj event) m _ refl tt)

  apply_order-Effect :
      (now : String) (m : Manager) (event : Fields) (v : Value) {r : Manager × Option OrderState}
      → get "order" event ≡ v
      → apply_order t a now m event v ≡ ok r
      → Effect t (obj event) m r
  unfolding apply_order
  apply_order-Effect now m event (obj order) o h =
      apply_known-Effect now m event order (get "client_order_id" order) o refl h
  apply_order-Effect now m event _ o h =
      returned-Effect t (obj event) m _ h (anomaly-Effect t (obj event) m _ refl tt)

  -- Every event that does not raise is recorded as one anomaly, which carries the event and blames no
  -- order but the one that the event names, and changes no order and no execution; or it gives the one
  -- order whose id stands in the event's order its next state, which is returned, and the manager never
  -- mixes the two.
  pub apply-Effect :
      (now : String) (m : Manager) (e : Value) {r : Manager × Option OrderState}
      → apply t a now m e ≡ ok r
      → Effect t e m r
  unfolding apply
  apply-Effect now m (obj event) h = apply_order-Effect now m event (get "order" event) refl h
  apply-Effect now m e h = returned-Effect t e m _ h (anomaly-Effect t e m _ refl tt)
