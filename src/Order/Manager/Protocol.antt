-- ===== src/Order/Manager/Protocol.antt =====
-- The order of writes, submissions and queries in a run of `submit_with_retry`.
use trading_execution.Prelude.{
  ℕ, zero, suc, ◌+◌, ◌≤◌, ◌≡◌, refl, Bool, true, false, some, ◌∷◌, String, arith, Bool-cases, inl,
  inr, if_intro, sym, subst, ◌<◌,
}
use trading_execution.Json.{null, obj, Fields, Text}
use trading_execution.Order.Intent.{OrderIntent}
use trading_execution.Order.Manager.Session.{
  Method, Reply, answered, timed_out, failed, Row, Event, Log, World, SubmitResult, Action, audit,
  write, call,
}
use trading_execution.Order.Manager.Broker.{
  submit_payload, is_duplicate, status_is, status_in, broker_status, working, refusals,
}
use trading_execution.Order.Manager.Actions.{
  id_field, give_up, resolve, on_body, on_submit, submit, query, mapping, on_found, retry,
  submit_with_retry, is_unsettled,
}
use trading_execution.Order.Manager.Quiet.{Quietly, on_submit-Quietly}

-- The log in which the intent's pending row has been written and, directly after it, the intent
-- was submitted.
abbrev pub sent : OrderIntent → String → Reply → Log → Log
sent i at r l = Event.called Method.submit (submit_payload i) r ∷ Event.wrote (Row.pending i at) ∷ l

-- The log in which the broker has been asked for the order.
abbrev pub asked : OrderIntent → Reply → Log → Log
asked i r l = Event.called Method.query (id_field i.client_order_id) r ∷ l

module _ (t : Text) (i : OrderIntent) where
  -- The second log follows the first by so many submissions of the intent: each stands on its
  -- pending row, and each but the first stands on a query that the broker answered not_found.
  pub data Rounds (l : Log) : ℕ → Log → Type 0 where
    first : (at : String) (r : Reply) {k : Log} → Quietly (sent i at r l) k → Rounds l 1 k
    again :
        {n : ℕ} {k k' : Log} (body : Fields) (kind reason : String) (fields : Fields) (at : String)
        (r : Reply)
        → Rounds l n k
        → status_is (broker_status t body) "not_found" ≡ true
        → Quietly
            (sent i at r (Event.audited kind reason fields ∷ asked i (answered (obj body)) k))
            k'
        → Rounds l (suc n) k'

  -- A whole run: the rounds, and at most one further query, behind which nothing is submitted.
  pub data Session (l : Log) : ℕ → Log → Type 0 where
    settled : {n : ℕ} {k : Log} → Rounds l n k → Session l n k
    queried :
        {n : ℕ} {k : Log} (r : Reply) (kind reason : String) (fields : Fields)
        → Rounds l n k
        → Session l n (Event.audited kind reason fields ∷ asked i r k)

  Rounds-pos : {l : Log} {n : ℕ} {k : Log} → Rounds l n k → 0 < n
  Rounds-pos (first at r q) = omega arith
  Rounds-pos (again body kind reason fields at r h e q) = omega arith

  Session-pos : {l : Log} {n : ℕ} {k : Log} → Session l n k → 0 < n
  Session-pos (settled h) = Rounds-pos h
  Session-pos (queried r kind reason fields h) = Rounds-pos h

module _ (t : Text) (w : World) where
  on_body_id :
      (i : OrderIntent) (body : Fields) (l : Log)
      → (on_body t w i body l).0.client_order_id ≡ i.client_order_id
  unfolding on_body give_up resolve audit write
  on_body_id i body l = if_intro Q (is_duplicate t body) refl (
      if_intro Q (status_is (broker_status t body) "not_found") refl (
        if_intro Q (status_in (broker_status t body) working) refl
          (if_intro Q (status_in (broker_status t body) refusals) refl refl)))
    where
      Q : Action SubmitResult → Type 0
      Q m = (m l).0.client_order_id ≡ i.client_order_id

  on_submit_id :
      (i : OrderIntent) (r : Reply) (l : Log)
      → (on_submit t w i r l).0.client_order_id ≡ i.client_order_id
  unfolding on_submit give_up
  on_submit_id i timed_out l = refl
  on_submit_id i failed l = refl
  on_submit_id i (answered null) l = refl
  on_submit_id i (answered (obj body)) l = on_body_id i body l
  on_submit_id i (answered _) l = refl

  submit_id : (i : OrderIntent) (l : Log) → (submit t w i l).0.client_order_id ≡ i.client_order_id
  unfolding submit
  submit_id i l = on_submit_id i _ _

  submit-Rounds : (i : OrderIntent) (l : Log) → Rounds t i l 1 (submit t w i l).1
  unfolding submit write call
  submit-Rounds i l = first (w.now l) _ (on_submit-Quietly t w i _ _)

  -- What is left of the rounds, from a log that has had some.
  abbrev Continues : OrderIntent → Log → ℕ → Log → Type 0
  Continues i l bound k = (c : ℕ) × (c ≤ bound) × Session t i l c k

  -- A resubmission with what follows it, behind a query that was answered not_found.
  resend-Session :
      (i : OrderIntent) (l : Log) (bound c : ℕ) (k : Log) (r : SubmitResult) (body : Fields)
      (next : SubmitResult → Action SubmitResult)
      → ((s : SubmitResult) (d : ℕ) (j : Log)
          → s.client_order_id ≡ i.client_order_id
          → Rounds t i l d j
          → d ≤ suc c
          → Continues i l bound (next s j).1)
      → Rounds t i l c k
      → c ≤ bound
      → Continues i l bound (on_found t w i r next (some body) (asked i (answered (obj body)) k)).1
  unfolding on_found audit submit write call
  resend-Session i l bound c k r body next follow h le =
      elim (Bool-cases (status_is (broker_status t body) "not_found")) [
        | inl missing ↦ rw missing (
            follow _ (suc c) _ (on_submit_id i _ _)
              (again body _ _ _ _ _ h missing (on_submit-Quietly t w i _ _)) (omega arith))
        | inr known ↦ rw known (c, le, queried _ _ _ _ h)
      ]

  on_found-Session :
      (i : OrderIntent) (l : Log) (bound c : ℕ) (k : Log) (r : SubmitResult) (reply : Reply)
      (next : SubmitResult → Action SubmitResult)
      → ((s : SubmitResult) (d : ℕ) (j : Log)
          → s.client_order_id ≡ i.client_order_id
          → Rounds t i l d j
          → d ≤ suc c
          → Continues i l bound (next s j).1)
      → Rounds t i l c k
      → c ≤ bound
      → Continues i l bound (on_found t w i r next (mapping t w reply) (asked i reply k)).1
  unfolding on_found audit
  on_found-Session i l bound c k r (answered (obj body)) next follow h le =
      resend-Session i l bound c k r body next follow h le
  on_found-Session i l bound c k r (answered _) next follow h le = (c, le, queried _ _ _ _ h)
  on_found-Session i l bound c k r _ next follow h le = (c, le, queried _ _ _ _ h)

  retry-Session :
      (n : ℕ) (i : OrderIntent) (l : Log) (b : Bool) (r : SubmitResult) (c bound : ℕ) (k : Log)
      → r.client_order_id ≡ i.client_order_id
      → Rounds t i l c k
      → c + n ≤ bound
      → Continues i l bound (retry t w n i b r k).1
  unfolding retry query call
  retry-Session zero i l b r c bound k e h le = (c, omega arith, settled h)
  retry-Session (suc n) i l b r c bound k e h le =
      if_intro (λ (m : Action SubmitResult). Continues i l bound (m k).1) (is_unsettled r.status)
        (subst
          (λ cid.
            Continues i l bound
              (on_found t w i r (retry t w n i true)
                (mapping t w (w.transport k Method.query (id_field cid)))
                (Event.called Method.query (id_field cid)
                    (w.transport k Method.query (id_field cid))
                  ∷ k)).1)
          (sym e)
          (on_found-Session i l bound c k r _ (retry t w n i true)
            (λ s d j named rounds few.
              retry-Session n i l true s d bound j named rounds (omega arith))
            h (omega arith)))
        (c, omega arith, settled h)

  -- Whatever the broker answers, a run of `submit_with_retry` submits the intent at least once and
  -- at most `attempts` times; each submission stands directly on its durable pending row, each but
  -- the first stands on a query of the order that the broker answered not_found, and behind a query
  -- that was answered otherwise nothing is submitted any more.
  pub submit_with_retry-Session :
      (i : OrderIntent) (attempts : ℕ) (l : Log)
      → 0 < attempts
      → (c : ℕ) × (0 < c) × (c ≤ attempts) × Session t i l c (submit_with_retry t w i attempts l).1
  unfolding submit_with_retry
  submit_with_retry-Session i zero l h = absurd (omega arith)
  submit_with_retry-Session i (suc n) l h =
      let (c, le, s) =
        retry-Session n i l false (submit t w i l).0 1 (suc n) (submit t w i l).1 (submit_id i l)
          (submit-Rounds i l) (omega arith) in
      (c, Session-pos t i s, le, s)
