-- ===== src/Order/Manager/Retried.antt =====
-- The mark that a submission was retried: signald/order/manager.py, `submit_with_retry`.
use trading_execution.Prelude.{
  ℕ, zero, suc, ◌≡◌, refl, sym, Bool, true, false, Option, none, some, Bool-cases, inl, inr,
}
use trading_execution.Prelude.Results.{ok}
use trading_execution.Json.{Fields, Text}
use trading_execution.Order.Intent.{OrderIntent}
use trading_execution.Order.Manager.Session.{Log, World, Outcome, SubmitResult, Action}
use trading_execution.Order.Manager.Broker.{status_is, broker_status}
use trading_execution.Order.Manager.Actions.{
  is_unsettled, submit, on_found, retry, submit_with_retry,
}

-- The broker timed out, or was unavailable.
abbrev pub awaits : Outcome → Bool
awaits Outcome.timeout = true
awaits Outcome.unavailable = true
awaits _ = false

awaits_lem : (o : Outcome) → is_unsettled o ≡ awaits o
awaits_lem Outcome.timeout = refl
awaits_lem Outcome.unavailable = refl
awaits_lem Outcome.submitted = refl
awaits_lem Outcome.duplicate = refl
awaits_lem Outcome.rejected = refl
awaits_lem Outcome.not_found = refl
awaits_lem Outcome.canceled = refl
awaits_lem Outcome.replaced = refl

-- The mark of a run with so many attempts behind the first, from the result of the first.
abbrev pub mark : ℕ → SubmitResult → Bool
mark zero first = true
mark (suc n) first = awaits first.status

module _ (t : Text) (w : World) (i : OrderIntent) where
  on_found-retried :
      (r : SubmitResult) (next : SubmitResult → Action SubmitResult) (found : Option Fields)
      (l : Log)
      → ((s : SubmitResult) (k : Log) → (next s k).0.retried ≡ true)
      → (on_found t w i r next found l).0.retried ≡ true
  unfolding on_found
  on_found-retried r next none l follow = refl
  on_found-retried r next (some body) l follow =
      elim (Bool-cases (status_is (broker_status t body) "not_found")) [
        | inl missing ↦ rw missing (follow _ _)
        | inr known ↦ rw known refl
      ]

  -- Behind a first query, or without a round that is left, every result is marked.
  retry-retried : (n : ℕ) (r : SubmitResult) (l : Log) → (retry t w n i true r l).0.retried ≡ true
  unfolding retry
  retry-retried zero r l = refl
  retry-retried (suc n) r l = elim (Bool-cases (is_unsettled r.status)) [
    | inl open_yet ↦
        rw open_yet (on_found-retried r (retry t w n i true) _ _ (λ s k. retry-retried n s k))
    | inr settled ↦ rw settled refl
  ]

  rounds-mark :
      (n : ℕ) (r : SubmitResult) (l : Log) → (retry t w n i false r l).0.retried ≡ mark n r
  unfolding retry
  rounds-mark zero r l = refl
  rounds-mark (suc n) r l =
      rw (sym (awaits_lem r.status)) (elim (Bool-cases (is_unsettled r.status)) [
        | inl open_yet ↦
            rw open_yet (on_found-retried r (retry t w n i true) _ _ (λ s k. retry-retried n s k))
        | inr settled ↦ rw settled refl
      ])

  -- For any number of attempts of at least one, and whatever the broker answers over the whole run, there is
  -- a result. With one attempt it is marked as retried, although nothing is retried; with more it is marked
  -- exactly if the first submission ended in a timeout or an unavailable broker.
  pub submit_with_retry-retried :
      (n : ℕ) (l : Log)
      → (r : SubmitResult) × ((submit_with_retry t w i (suc n) l).0 ≡ ok r)
        × (r.retried ≡ mark n (submit t w i l).0)
  unfolding submit_with_retry
  submit_with_retry-retried n l = (_, refl, rounds-mark n (submit t w i l).0 (submit t w i l).1)
