-- ===== src/Order/Manager/Broker.antt =====
-- How a broker body is read: signald/order/manager.py, the functions above the class.
use trading_execution.Prelude.{
  Bool, true, false, Option, none, some, List, [], ◌∷◌, String, str_eq, if◌then◌else◌, ◌&&◌,
}
use trading_execution.Prelude.Int.{pos, eqb_ℤ}
use trading_execution.Prelude.Float.{Float, fin, eqb_f}
use Prim.Native.Nat.{◌*◌, ◌^◌}
use trading_execution.Json.{
  Value, null, int, num, str, obj, Fields, end, field, get, Text, to_text, is_blank, or_none,
  is_truthy, one_of,
}
use trading_execution.Order.Intent.{OrderIntent}

-- `_WORKING`
abbrev pub working : List String
working = "accepted" ∷ "new" ∷ "pending_new" ∷ "submitted" ∷ "partially_filled" ∷ []

-- `_REJECTED`
abbrev pub refusals : List String
refusals = "rejected" ∷ "canceled" ∷ "expired" ∷ "stopped" ∷ "suspended" ∷ []

-- `_REPLACED`
abbrev pub replacements : List String
replacements = "replaced" ∷ "pending_replace" ∷ working

-- `status in texts`, where the status may be None
abbrev pub status_in : Option String → List String → Bool
status_in none texts = false
status_in (some s) texts = one_of s texts

abbrev pub status_is : Option String → String → Bool
status_is none u = false
status_is (some s) u = str_eq s u

-- `err.get("code") == 422`
unfoldable pub is_422 : Value → Bool
is_422 (int i) = eqb_ℤ i (pos 422)
is_422 (num x) = eqb_f x (fin (pos (422 * 2 ^ 1074)))
is_422 v = false

module _ (t : Text) where
  -- `_broker_status` of a mapping
  unfoldable pub broker_status : Fields → Option String
  unfolding to_text
  broker_status body = elim (get "status" body) [
    | null ↦ none
    | v ↦ or_none (t.lower (t.strip (to_text t v)))
  ]

  -- the first of the keys with a value that is true
  unfoldable pub first_reason : List String → Fields → Option String
  first_reason [] body = none
  first_reason (k ∷ ks) body =
      if is_truthy (get k body) then some (to_text t (get k body)) else first_reason ks body

  unfoldable pub other_reason : Fields → String
  unfolding first_reason
  other_reason body = elim (first_reason ("reject_reason" ∷ "reason" ∷ "detail" ∷ []) body) [
    | some s ↦ s
    | none ↦ if is_truthy (get "status" body) then to_text t (get "status" body) else "unknown"
  ]

  -- `_reason`
  unfoldable pub reason : Fields → String
  unfolding other_reason
  reason body = elim (get "error" body) [
    | obj e ↦ if is_truthy (get "message" e) then to_text t (get "message" e) else other_reason body
    | _ ↦ other_reason body
  ]

  -- `str(err.get("message", "")).lower()`: a missing message reads as the empty text.
  unfoldable pub error_message : Fields → String
  error_message e = elim (get "message" e) [ null ↦ t.lower "" | v ↦ t.lower (to_text t v) ]

  -- `_is_duplicate` of a mapping
  unfoldable pub is_duplicate : Fields → Bool
  unfolding is_422 error_message
  is_duplicate body = elim (get "error" body) [
    | obj e ↦
        if is_422 (get "code" e)
        then true
        else t.contains "client_order_id" (error_message e) && t.contains "unique" (error_message e)
    | _ ↦ false
  ]

-- `payload[key] = price` where there is one
unfoldable pub price_field : String → Option Float → Fields → Fields
price_field key none rest = rest
price_field key (some p) rest = field key (num p) rest

abbrev pub text_or : String → String → String
text_or s d = if is_blank s then d else s

-- `_submit_payload`
unfoldable pub submit_payload : OrderIntent → Fields
unfolding price_field
submit_payload i = field "client_order_id" (str i.client_order_id) (
    field "symbol" (str i.symbol) (
      field "side" (str i.side) (
        field "qty" (int i.qty) (
          field "type" (str (text_or i.order_type "limit")) (
            field "time_in_force" (str (text_or i.tif "day")) (
              price_field "limit_price" i.limit_price
                (price_field "stop_price" i.stop_price end)))))))
