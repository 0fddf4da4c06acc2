-- ===== src/Order/Manager/Recovery.antt =====
-- What the recovery sweep finds after a submission.
use trading_execution.Prelude.{
  ◌≡◌, refl, Bool, true, false, Option, none, some, List, [], ◌∷◌, String, if_intro, ◌⊎◌, inl, inr,
  all, not, str_eq, arith, subst, sym, Bool-cases, if◌then◌else◌,
}
use text.Mathlib.TextEquality.{eq_iff}
use trading_execution.Prelude.Dict.{
  lookup, IsUnique, lookup-insert_self, lookup-erase_self, insert-IsUnique, erase-IsUnique,
}
use trading_execution.Json.{null, obj, Fields, Text, is_blank, one_of}
use trading_execution.Order.Intent.{OrderIntent}
use trading_execution.Order.Manager.Session.{
  Method, Reply, answered, timed_out, failed, Row, Event, Log, World, Outcome, SubmitResult, audit,
  write, call,
}
use trading_execution.Order.Manager.Broker.{
  is_duplicate, status_is, status_in, broker_status, working, refusals, submit_payload,
}
use trading_execution.Order.Manager.Actions.{give_up, resolve, on_body, on_submit, submit}
use trading_execution.Order.Manager.Pending.{take_row, live}

live-IsUnique : (l : Log) → IsUnique (live l)
unfolding live take_row
live-IsUnique [] = tt
live-IsUnique (Event.wrote (Row.pending i at) ∷ l) =
    if_intro IsUnique (is_blank i.client_order_id) (live-IsUnique l)
      (insert-IsUnique i.client_order_id (Row.pending i at) (live l) (live-IsUnique l))
live-IsUnique (Event.wrote (Row.resolution cid status at) ∷ l) =
    if_intro IsUnique (is_blank cid) (live-IsUnique l)
      (erase-IsUnique cid (live l) (live-IsUnique l))
live-IsUnique (Event.called method payload reply ∷ l) = live-IsUnique l
live-IsUnique (Event.audited kind reason fields ∷ l) = live-IsUnique l

abbrev pub is_rejected : Outcome → Bool
is_rejected Outcome.rejected = true
is_rejected _ = false

-- The broker's answer refuses the order: a body with a status of refusal that is no report of a duplicate.
abbrev pub refuses : Text → Reply → Bool
refuses t (answered (obj body)) =
    if is_duplicate t body then false else status_in (broker_status t body) refusals
refuses t _ = false

-- After a submission: an order that the broker refused is reported as rejected and gone from the sweep, any
-- other is not and stands there with its row.
abbrev pub IsSwept : Text → OrderIntent → String → Reply → SubmitResult × Log → Type 0
IsSwept t i at reply (r, k) =
    ((refuses t reply ≡ true)
      × (is_rejected r.status ≡ true)
      × (lookup i.client_order_id (live k) ≡ none))
    ⊎ ((refuses t reply ≡ false)
        × (is_rejected r.status ≡ false)
        × (lookup i.client_order_id (live k) ≡ some (Row.pending i at)))

-- A text of the one list is none of the other.
disjoint_lem :
    (s : String) (us vs : List String)
    → all (λ u. not (one_of u vs)) us ≡ true
    → one_of s us ≡ true
    → one_of s vs ≡ false
disjoint_lem s [] vs h k = cc
disjoint_lem s (u ∷ us) vs h k = elim (Bool-cases (str_eq s u)) [
  | inl same ↦ subst (λ x. one_of x vs ≡ false) (sym ((eq_iff s u).0 same)) (ground (arith, h))
  | inr other ↦ disjoint_lem s us vs (ground (arith, h)) (rw other at k)
]

status_disjoint :
    (s : Option String) (us : List String)
    → all (λ u. not (one_of u refusals)) us ≡ true
    → status_in s us ≡ true
    → status_in s refusals ≡ false
status_disjoint none us h k = refl
status_disjoint (some s) us h k = disjoint_lem s us refusals h k

missing_lem : (s : Option String) → status_is s "not_found" ≡ true → status_in s refusals ≡ false
missing_lem none h = refl
missing_lem (some s) h = status_disjoint (some s) ("not_found" ∷ []) refl (ground (arith, h))

module _ (t : Text) (w : World) (i : OrderIntent) (at : String) (l : Log)
    (named : is_blank i.client_order_id ≡ false)
    (there : lookup i.client_order_id (live l) ≡ some (Row.pending i at)) where
  on_body-IsSwept : (body : Fields) → IsSwept t i at (answered (obj body)) (on_body t w i body l)
  unfolding on_body give_up resolve audit write live take_row
  on_body-IsSwept body = elim (Bool-cases (is_duplicate t body)) [
    | inl dup ↦ rw (dup, on_body) (inr (refl, refl, there))
    | inr fresh ↦ elim (Bool-cases (status_is (broker_status t body) "not_found")) [
      | inl missing ↦
          rw (fresh, missing, on_body)
            (inr (missing_lem (broker_status t body) missing, refl, there))
      | inr known ↦ elim (Bool-cases (status_in (broker_status t body) working)) [
        | inl works ↦
            rw (fresh, known, works, on_body)
              (inr (status_disjoint (broker_status t body) working refl works, refl, there))
        | inr idle ↦ elim (Bool-cases (status_in (broker_status t body) refusals)) [
          | inl refused ↦
              rw (fresh, known, idle, refused, on_body)
                (inl (
                  refl,
                  refl,
                  rw named (lookup-erase_self i.client_order_id (live l) (live-IsUnique l)),
                ))
          | inr other ↦ rw (fresh, known, idle, other, on_body) (inr (refl, refl, there))
        ]
      ]
    ]
  ]

  give_up-IsSwept :
      (reply : Reply) (o : Outcome) (cid detail : String) (body : Option Fields) (extra : Fields)
      → refuses t reply ≡ false
      → is_rejected o ≡ false
      → IsSwept t i at reply (give_up t w o cid detail body extra l)
  unfolding give_up audit live
  give_up-IsSwept reply o cid detail body extra h k = inr (h, k, there)

  on_submit-IsSwept : (r : Reply) → IsSwept t i at r (on_submit t w i r l)
  unfolding on_submit
  on_submit-IsSwept timed_out = give_up-IsSwept timed_out _ _ _ _ _ refl refl
  on_submit-IsSwept failed = give_up-IsSwept failed _ _ _ _ _ refl refl
  on_submit-IsSwept (answered null) = give_up-IsSwept (answered null) _ _ _ _ _ refl refl
  on_submit-IsSwept (answered (obj body)) = on_body-IsSwept body
  on_submit-IsSwept (answered r) = give_up-IsSwept (answered r) _ _ _ _ _ refl refl

-- What the broker answers to the submission, behind the pending row.
abbrev pub answer_of : World → OrderIntent → Log → Reply
answer_of w i l =
    w.transport (Event.wrote (Row.pending i (w.now l)) ∷ l) Method.submit (submit_payload i)

-- After a submission of an order with an id, whatever the broker answered and whatever the store held
-- before: if the answer is a body with a status of refusal that reports no duplicate, then the result is
-- rejected and the recovery sweep holds none of the order; in every other case, a timeout and a failure
-- among them, the result is not rejected and the sweep holds the order's row.
pub submit-IsSwept :
    (t : Text) (w : World) (i : OrderIntent) (l : Log)
    → is_blank i.client_order_id ≡ false
    → IsSwept t i (w.now l) (answer_of w i l) (submit t w i l)
unfolding submit write call live take_row
submit-IsSwept t w i l named =
    on_submit-IsSwept t w i (w.now l) _ named
      (rw named (lookup-insert_self i.client_order_id (Row.pending i (w.now l)) (live l))) _
