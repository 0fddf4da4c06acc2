-- ===== src/Order/Manager/Actions.antt =====
-- The actions of `OrderManager`: signald/order/manager.py.
use Prim.Native.String.{◌++◌ as append}
use trading_execution.Prelude.{
  ℕ, zero, suc, Bool, true, false, Option, none, some, String, if◌then◌else◌, is_none,
}
use trading_execution.Prelude.Int.{ℤ}
use trading_execution.Prelude.Float.{Float}
use trading_execution.Prelude.Results.{Result, ok, err}
use trading_execution.Json.{null, int, str, obj, Fields, end, field, Text, type_name}
use trading_execution.Order.Intent.{OrderIntent}
use trading_execution.Order.Manager.Session.{
  Method, Reply, answered, timed_out, failed, Row, World, Outcome, SubmitResult, Action, ◌>>=◌,
  ◌>>◌, pure, write, audit, call,
}
use trading_execution.Order.Manager.Broker.{
  working, refusals, replacements, status_in, status_is, broker_status, reason, is_duplicate,
  submit_payload, price_field,
}

abbrev pub id_field : String → Fields
id_field cid = field "client_order_id" (str cid) end

-- the data of an audit row on an intent
abbrev pub intent_fields : String → OrderIntent → Fields
intent_fields cid i = field "client_order_id" (str cid) (field "intent_id" (str i.intent_id) end)

-- the data of the audit row on a refusal
abbrev pub refusal_fields : String → Option String → Fields → Fields
refusal_fields cid status rest =
    field "client_order_id" (str cid)
      (field "broker_status" (elim status [ none ↦ null | some s ↦ str s ]) rest)

-- `intent_id=intent.intent_id`
abbrev pub intent_id_field : OrderIntent → Fields
intent_id_field i = field "intent_id" (str i.intent_id) end

abbrev pub outcome_text : Outcome → String
outcome_text Outcome.timeout = "timeout"
outcome_text Outcome.not_found = "not_found"
outcome_text _ = "unavailable"

abbrev pub is_unsettled : Outcome → Bool
is_unsettled Outcome.unavailable = true
is_unsettled Outcome.timeout = true
is_unsettled _ = false

module _ (t : Text) (w : World) where
  abbrev pub result : Outcome → String → Option Fields → String → SubmitResult
  result status cid order detail = record {
    status = status;
    client_order_id = cid;
    order = order;
    detail = detail;
    retried = false;
  }

  abbrev pub show_status : Option String → String
  show_status none = t.repr null
  show_status (some s) = t.repr (str s)

  -- `_unavailable`; `extra` names the intent, where there is one
  unfoldable pub give_up : Outcome → String → String → Option Fields → Fields → Action SubmitResult
  give_up status cid detail body extra = do
    audit "order_unavailable" detail (
        field "client_order_id" (str cid) (field "broker_status" (str (outcome_text status)) extra))
    pure (result status cid body detail)

  -- `resolve`
  unfoldable pub resolve : String → String → Action (Unit {0})
  resolve cid status = do
    write w (λ at. Row.resolution cid status at)
    audit "order_resolved" (append "resolved as " status)
        (field "client_order_id" (str cid) (field "status" (str status) end))

  -- `submit` behind the broker's answer, where that is a mapping
  unfoldable pub on_body : OrderIntent → Fields → Action SubmitResult
  on_body i body =
      let cid = i.client_order_id in
      let status = broker_status t body in
      if is_duplicate t body
      then (do
        audit "order_duplicate" "client_order_id already exists at the broker" (intent_fields cid i)
        pure (result Outcome.duplicate cid (some body) (reason t body)))
      else (if status_is status "not_found"
          then give_up Outcome.not_found cid "broker reported not_found on submit" (some body)
              (intent_id_field i)
          else (if status_in status working
              then (do
                audit "order_submitted" "accepted by the broker" (intent_fields cid i)
                pure (result Outcome.submitted cid (some body) "accepted"))
              else (if status_in status refusals
                  then (do
                    resolve cid "rejected"
                    audit "order_rejected" (reason t body)
                        (refusal_fields cid status (intent_id_field i))
                    pure (result Outcome.rejected cid (some body) (reason t body)))
                  else give_up Outcome.unavailable cid
                      (append "unknown broker status " (show_status status)) (some body)
                      (intent_id_field i))))

  unfoldable pub on_submit : OrderIntent → Reply → Action SubmitResult
  on_submit i timed_out =
      give_up Outcome.timeout i.client_order_id "transport timeout on submit" none
        (intent_id_field i)
  on_submit i failed =
      give_up Outcome.unavailable i.client_order_id "transport unavailable on submit" none
        (intent_id_field i)
  on_submit i (answered null) =
      give_up Outcome.unavailable i.client_order_id "transport returned no body" none
        (intent_id_field i)
  on_submit i (answered (obj body)) = on_body i body
  on_submit i (answered v) =
      give_up Outcome.unavailable i.client_order_id
        (append "non-mapping broker body " (type_name v)) none (intent_id_field i)

  -- `submit`: the pending row first, then the broker.
  unfoldable pub submit : OrderIntent → Action SubmitResult
  submit i = do
    write w (λ at. Row.pending i at)
    r ← call w Method.submit (submit_payload i)
    on_submit i r

  abbrev pub mapping : Reply → Option Fields
  mapping (answered (obj body)) = some body
  mapping _ = none

  abbrev pub failure : Reply → Outcome
  failure timed_out = Outcome.timeout
  failure _ = Outcome.unavailable

  -- `query`: None when the broker is unavailable
  unfoldable pub query : String → Action (Option Fields)
  query cid = do r ← call w Method.query (id_field cid); pure (mapping r)

  -- One round of `submit_with_retry` behind its query; `next` is what follows a resubmission.
  unfoldable pub on_found :
      OrderIntent
      → SubmitResult
      → (SubmitResult → Action SubmitResult)
      → Option Fields
      → Action SubmitResult
  on_found i r next none = do
    audit "order_unavailable"
        (append "query after "
          (append (outcome_text r.status) " was unavailable; not resubmitting"))
        (intent_fields r.client_order_id i)
    pure
        (record (result Outcome.unavailable r.client_order_id none
          (append "query after " (append (outcome_text r.status) " was unavailable"))) {
            retried = true;
          })
  on_found i r next (some body) =
      if status_is (broker_status t body) "not_found"
      then (do
        audit "order_retried" "query reported not_found; resubmitting"
            (intent_fields r.client_order_id i)
        r' ← submit i
        next r')
      else (do
        audit "order_retried" "query found the order; recovered without resubmitting"
            (intent_fields r.client_order_id i)
        pure
            (record (result Outcome.submitted r.client_order_id (some body)
              "recovered by client_order_id") { retried = true }))

  -- The rounds of `submit_with_retry` that are left.
  unfoldable pub retry : ℕ → OrderIntent → Bool → SubmitResult → Action SubmitResult
  retry zero i retried r = pure (record r { retried = true })
  retry (suc n) i retried r =
      if is_unsettled r.status
      then (query r.client_order_id >>= on_found i r (retry n i true))
      else pure (record r { retried = retried })

  -- `submit_with_retry`: fewer than one attempt raises ValueError
  unfoldable pub submit_with_retry : OrderIntent → ℕ → Action (Result String SubmitResult)
  submit_with_retry i zero = pure (err "attempts must be >= 1")
  submit_with_retry i (suc n) = do r ← submit i; r' ← retry n i false r; pure (ok r')

  -- `cancel`
  unfoldable pub cancel : String → Action SubmitResult
  cancel cid = do
    r ← call w Method.cancel (id_field cid)
    elim (mapping r) [
      | none ↦ give_up (failure r) cid "cancel transport unavailable" none end
      | some body ↦
          let status = broker_status t body in
          if status_is status "not_found"
          then (do
            resolve cid "not_found"
            pure (result Outcome.not_found cid (some body) "no such order to cancel"))
          else (if status_is status "canceled"
              then (do
                resolve cid "canceled"
                audit "order_canceled" "canceled at the broker" (id_field cid)
                pure (result Outcome.canceled cid (some body) "canceled"))
              else (if status_in status refusals
                  then (do
                    audit "order_rejected" (reason t body) (refusal_fields cid status end)
                    pure (result Outcome.rejected cid (some body) (reason t body)))
                  else give_up Outcome.unavailable cid
                      (append "unknown cancel status " (show_status status)) (some body) end))
    ]

  abbrev pub qty_field : Option ℤ → Fields → Fields
  qty_field none rest = rest
  qty_field (some q) rest = field "qty" (int q) rest

  unfoldable pub on_replace : String → Reply → Action SubmitResult
  on_replace cid r = elim (mapping r) [
    | none ↦ give_up (failure r) cid "replace transport unavailable" none end
    | some body ↦
        let status = broker_status t body in
        if status_is status "not_found"
        then pure (result Outcome.not_found cid (some body) "no such order to replace")
        else (if status_in status refusals
            then (do
              audit "order_rejected" (reason t body) (refusal_fields cid status end)
              pure (result Outcome.rejected cid (some body) (reason t body)))
            else (if status_in status replacements
                then (do
                  audit "order_replaced" "replaced at the broker" (id_field cid)
                  pure (result Outcome.replaced cid (some body) "replaced"))
                else give_up Outcome.unavailable cid
                    (append "unknown replace status " (show_status status)) (some body) end))
  ]

  -- `replace`: no field at all raises ValueError
  unfoldable pub replace : String → Option ℤ → Option Float → Action (Result String SubmitResult)
  unfolding price_field
  replace cid qty limit_price =
      if is_none qty
      then (if is_none limit_price then pure (err "replace requires qty or limit_price") else (do
        r ←
            call w Method.replace
              (field "client_order_id" (str cid) (price_field "limit_price" limit_price end))
        x ← on_replace cid r
        pure (ok x)))
      else (do
        r ← call w Method.replace (
            field "client_order_id" (str cid)
              (qty_field qty (price_field "limit_price" limit_price end)))
        x ← on_replace cid r
        pure (ok x))
