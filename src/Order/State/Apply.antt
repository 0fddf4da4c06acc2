-- ===== src/Order/State/Apply.antt =====
-- Applying one trade update: signald/order/state.py, `OrderStateManager`. Every early
-- `return self._anomaly(...)` of `apply` is an `err (bad code detail)` of `judge`; what is recorded
-- then, and what is committed otherwise, is done by `apply`.
use Prim.Native.String.{◌++◌ as append}
use trading_execution.Prelude.{
  Bool, true, false, Option, none, some, String, if◌then◌else◌, get_or, is_none,
}
use trading_execution.Prelude.Int.{ℤ, pos, ◌+ℤ◌, ◌-ℤ◌, ltb_ℤ, leb_ℤ, eqb_ℤ}
use trading_execution.Prelude.Float.{Float, Arith}
use trading_execution.Prelude.Results.{Result, ok, err, guard, or_raise, ◌>>=◌, ◌>>◌}
use trading_execution.Json.{Value, null, str, arr, obj, Fields, get, Text, is_blank}
use trading_execution.Order.State.Types.{
  Status, status_of, event_status, is_fill_event, is_legal, same_status, OrderState, Fill,
  type_error, overflow_error, Stop, bad, raised,
}
use trading_execution.Order.State.Coerce.{opt_int, opt_float, opt_text}

-- `isinstance(v, str) and v`
unfoldable pub text_field : Value → String → Result Stop String
text_field (str s) code = if is_blank s then err (bad code "") else ok s
text_field v code = err (bad code "")

unfoldable pub object_field : Value → String → Result Stop Fields
object_field (obj fs) code = ok fs
object_field v code = err (bad code "")

-- The event's name, `none` where it is missing. A list or an object cannot be looked up in a
-- dict: Python raises TypeError.
unfoldable pub event_name : Value → Result Stop (Option String)
event_name null = ok none
event_name (str s) = elim (event_status s) [
  | none ↦ err (bad "unknown_event" "")
  | some _ ↦ ok (some s)
]
event_name (arr _) = err (raised type_error)
event_name (obj _) = err (raised type_error)
event_name v = err (bad "unknown_event" "")

-- The event's own status, where the order body has none.
unfoldable pub fallback_status : Option String → Result Stop Status
fallback_status none = err (bad "missing_status" "")
fallback_status (some s) = or_raise (event_status s) (bad "unknown_event" "")

unfoldable pub target_status : Value → Option String → Result Stop Status
unfolding fallback_status
target_status null name = fallback_status name
target_status (str s) name =
    if is_blank s then fallback_status name else or_raise (status_of s) (bad "unknown_status" "")
target_status v name = err (bad "unknown_status" "")

-- The text of a status, as the detail of an illegal transition shows it.
unfoldable pub status_text : Status → String
status_text Status.new = "new"
status_text Status.accepted = "accepted"
status_text Status.partially_filled = "partially_filled"
status_text Status.filled = "filled"
status_text Status.canceled = "canceled"
status_text Status.rejected = "rejected"
status_text Status.expired = "expired"
status_text Status.replaced = "replaced"
status_text Status.done_for_day = "done_for_day"

-- The guard on the transition from the state that is known.
unfoldable pub check_transition : Option OrderState → Status → Result Stop (Unit {0})
check_transition none target = ok tt
check_transition (some p) target =
    guard (if same_status target p.status then true else is_legal p.status target)
      (bad "illegal_transition" (append (status_text p.status) (append "->" (status_text target))))

abbrev pub base_filled : Option OrderState → ℤ
base_filled none = pos 0
base_filled (some p) = p.filled_qty

abbrev pub base_avg : Option OrderState → Option Float
base_avg none = none
base_avg (some p) = p.avg_fill_price

-- What `apply` reads of an event before the quantities.
pub record Reading : Type 0 where
  pub client_order_id : String
  pub name : Option String
  pub target : Status
  pub symbol : String
  pub side : String
  pub qty : ℤ
  pub broker_filled : Option ℤ
  pub broker_avg : Option Float
  pub order_id : Option String
  pub at : String
  pub reason : Option String

-- The advanced quantity and average, and the execution if the event is one.
pub record Advance : Type 0 where
  pub fill : Option Fill
  pub filled : ℤ
  pub avg : Option Float

module _ (t : Text) (a : Arith) where
  -- `(base_filled * base_avg + fill_qty * fill_price) / new_filled`
  unfoldable pub weighted : ℤ → Float → ℤ → Float → ℤ → Result Stop Float
  weighted base avg qty price total = do
    b ← or_raise (a.of_int base) (raised overflow_error)
    q ← or_raise (a.of_int qty) (raised overflow_error)
    n ← or_raise (a.of_int total) (raised overflow_error)
    ok (a.div (a.add (a.mul b avg) (a.mul q price)) n)

  unfoldable pub fill_quantity : Option ℤ → Option ℤ → ℤ → Result Stop ℤ
  fill_quantity (some q) broker base = ok q
  fill_quantity none (some b) base = ok (b -ℤ base)
  fill_quantity none none base = err (bad "missing_fill_qty" "")

  unfoldable pub fill_price : Option Float → Option Float → Result Stop Float
  fill_price (some p) broker = ok p
  fill_price none (some p) = ok p
  fill_price none none = err (bad "missing_fill_price" "")

  -- The cumulative quantity after the fill.
  unfoldable pub fill_total : Option ℤ → ℤ → ℤ → Result Stop ℤ
  fill_total none base qty = ok (base +ℤ qty)
  fill_total (some b) base qty = do
    guard (leb_ℤ base b) (bad "filled_qty_regressed" "")
    guard (eqb_ℤ b (base +ℤ qty)) (bad "filled_qty_mismatch" "")
    ok b

  unfoldable pub fill_average :
      Option Float → Option Float → ℤ → ℤ → Float → ℤ → Result Stop (Option Float)
  fill_average (some v) avg base qty price total = ok (some v)
  fill_average none none base qty price total = ok (some price)
  fill_average none (some v) base qty price total =
      if eqb_ℤ base (pos 0)
      then ok (some price)
      else (weighted base v qty price total >>= λ w. ok (some w))

  -- `_apply_fill`
  unfoldable pub apply_fill : Fields → Reading → Option OrderState → Result Stop Advance
  apply_fill event r prev = do
    given_qty ← opt_int t (get "qty" event) "bad_fill_qty"
    given_price ← opt_float t a (get "price" event) "bad_fill_price"
    qty ← fill_quantity given_qty r.broker_filled (base_filled prev)
    price ← fill_price given_price r.broker_avg
    guard (ltb_ℤ (pos 0) qty) (bad "non_positive_fill_qty" "")
    total ← fill_total r.broker_filled (base_filled prev) qty
    avg ← fill_average r.broker_avg (base_avg prev) (base_filled prev) qty price total
    ok (record {
      fill = some (record {
        client_order_id = r.client_order_id;
        order_id = r.order_id;
        symbol = r.symbol;
        side = r.side;
        qty = qty;
        price = price;
        at = r.at;
      });
      filled = total;
      avg = avg;
    })

  -- The branch of `apply` for an event that is no execution.
  unfoldable pub keep_filled : Reading → Option OrderState → Result Stop ℤ
  keep_filled r prev = elim r.broker_filled [
    | none ↦ ok (base_filled prev)
    | some b ↦ do
      guard (leb_ℤ (base_filled prev) b) (bad "filled_qty_regressed" "")
      guard (if is_none prev then true else eqb_ℤ b (base_filled prev))
          (bad "unexpected_filled_qty" "")
      ok b
  ]

  unfoldable pub keep : Reading → Option OrderState → Result Stop Advance
  unfolding keep_filled
  keep r prev = do
    total ← keep_filled r prev
    ok (record {
      fill = none;
      filled = total;
      avg = elim r.broker_avg [ none ↦ base_avg prev | some v ↦ some v ];
    })

  abbrev pub names_fill : Option String → Bool
  names_fill none = false
  names_fill (some s) = is_fill_event s

  unfoldable pub advance : Fields → Reading → Option OrderState → Result Stop Advance
  advance event r prev = if names_fill r.name then apply_fill event r prev else keep r prev

  -- The text fields of the order and of the event, up to the transition.
  unfoldable pub read : String → Fields → Fields → String → Option OrderState → Result Stop Reading
  read now event order cid prev = do
    name ← event_name (get "event" event)
    target ← target_status (get "status" order) name
    symbol ← text_field (get "symbol" order) "missing_symbol"
    side ← text_field (get "side" order) "missing_side"
    given_qty ← opt_int t (get "qty" order) "bad_qty"
    broker_filled ← opt_int t (get "filled_qty" order) "bad_filled_qty"
    broker_avg ← opt_float t a (get "filled_avg_price" order) "bad_filled_avg_price"
    qty ← or_raise given_qty (bad "missing_qty" "")
    check_transition prev target
    ok (record {
      client_order_id = cid;
      name = name;
      target = target;
      symbol = symbol;
      side = side;
      qty = qty;
      broker_filled = broker_filled;
      broker_avg = broker_avg;
      order_id = opt_text t (get "id" order);
      at = get_or (opt_text t (get "timestamp" event)) now;
      reason = elim (opt_text t (get "reject_reason" order)) [
        | none ↦ opt_text t (get "reason" event)
        | some x ↦ some x
      ];
    })

  abbrev pub state_of : Reading → Advance → OrderState
  state_of r v = record {
    client_order_id = r.client_order_id;
    order_id = r.order_id;
    symbol = r.symbol;
    side = r.side;
    qty = r.qty;
    filled_qty = v.filled;
    avg_fill_price = v.avg;
    status = r.target;
    updated_at = r.at;
    reason = r.reason;
  }

  -- The state that the event leads to, and its execution.
  unfoldable pub judge :
      String → Fields → Fields → String → Option OrderState → Result Stop (OrderState × Option Fill)
  judge now event order cid prev = do
    r ← read now event order cid prev
    v ← advance event r prev
    guard (leb_ℤ v.filled r.qty) (bad "filled_qty_exceeds_qty" "")
    ok (state_of r v, v.fill)
