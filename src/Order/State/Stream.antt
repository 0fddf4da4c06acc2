-- ===== src/Order/State/Stream.antt =====
-- The manager's operations: signald/order/state.py, `OrderStateManager`.
use mathlib.Core.Option
use trading_execution.Prelude.{
  Bool, Option, none, some, List, [], ◌∷◌, ◌++◌, String, if◌then◌else◌, ◌||◌, text_le, sort,
}
use trading_execution.Prelude.Dict.{lookup, insert}
use trading_execution.Prelude.Int.{ℤ, pos, ltb_ℤ}
use trading_execution.Prelude.Float.{Float, Arith}
use trading_execution.Prelude.Results.{Result, ok, err}
use trading_execution.Json.{Value, int, str, obj, Fields, end, field, get, Text, is_blank}
use trading_execution.Order.State.Types.{
  Status, status_of, OrderState, is_open, Fill, Anomaly, AuditRow, order_fill, order_state,
  order_anomaly, Manager, Exc, Stop, bad, raised,
}
use trading_execution.Order.State.Apply.{judge}

-- `OrderStateManager(now, audit)`
unfoldable pub fresh : Option (List AuditRow) → Manager
fresh audit = record { states = []; fills = []; anomalies = []; audit = audit }

-- `_states.get(cid) if cid is not None else None`
unfoldable pub prior : Manager → Option String → Option OrderState
prior m none = none
prior m (some cid) = lookup cid m.states

-- `_anomaly`: record the event, and leave the states as they are.
unfoldable pub record_anomaly : Manager → Anomaly → Manager
record_anomaly m x = record m {
  anomalies = m.anomalies ++ x ∷ [];
  audit = Option.map (λ rows. rows ++ order_anomaly x ∷ []) m.audit;
}

abbrev pub anomaly : Manager → String → String → Value → Option String → Manager × Option OrderState
anomaly m code detail raw cid = (
  record_anomaly m (record { code = code; detail = detail; client_order_id = cid; raw = raw }),
  prior m cid,
)

-- The rows of one applied event: its execution, then its state.
unfoldable pub audit_rows : OrderState → Option Fill → List AuditRow
audit_rows s none = order_state s ∷ []
audit_rows s (some f) = order_fill f ∷ order_state s ∷ []

abbrev pub fill_list : Option Fill → List Fill
fill_list none = []
fill_list (some f) = f ∷ []

-- The end of `apply`: store the state, append the execution, audit both.
unfoldable pub commit : Manager → String → OrderState → Option Fill → Manager
commit m cid s f = record m {
  states = insert cid s m.states;
  fills = m.fills ++ fill_list f;
  audit = Option.map (λ rows. rows ++ audit_rows s f) m.audit;
}

abbrev pub Applied : Type 0
Applied = Result Exc (Manager × Option OrderState)

unfoldable pub settle : Manager → Value → String → Result Stop (OrderState × Option Fill) → Applied
settle m raw cid (ok (s, f)) = ok (commit m cid s f, some s)
settle m raw cid (err (bad code detail)) = ok (anomaly m code detail raw (some cid))
settle m raw cid (err (raised e)) = err e

module _ (t : Text) (a : Arith) where
  unfoldable pub apply_known : String → Manager → Fields → Fields → Value → Applied
  apply_known now m event order (str cid) =
      if is_blank cid
      then ok (anomaly m "missing_client_order_id" "" (obj event) none)
      else settle m (obj event) cid (judge t a now event order cid (lookup cid m.states))
  apply_known now m event order v = ok (anomaly m "missing_client_order_id" "" (obj event) none)

  unfoldable pub apply_order : String → Manager → Fields → Value → Applied
  unfolding apply_known
  apply_order now m event (obj order) = apply_known now m event order (get "client_order_id" order)
  apply_order now m event v = ok (anomaly m "missing_order" "" (obj event) none)

  -- `apply`; `now` is the reading of the injected clock.
  unfoldable pub apply : String → Manager → Value → Applied
  unfolding apply_order
  apply now m (obj event) = apply_order now m event (get "order" event)
  apply now m v = ok (anomaly m "malformed_event" "" (obj (field "raw" (str (t.repr v)) end)) none)

  -- A stream of updates, each with the clock's reading: an exception ends it.
  unfoldable pub run : Manager → List (String × Value) → Result Exc Manager
  run m [] = ok m
  run m ((now, e) ∷ es) = elim (apply now m e) [ ok (m', _) ↦ run m' es | err x ↦ err x ]

-- `sorted(..., key=lambda s: s.client_order_id)`
unfoldable pub sort_by {ℓ} : {A : Type ℓ} → (A → String) → List A → List A
unfolding sort
sort_by key = sort (λ x y. text_le (key x) (key y))

unfoldable pub keep_open : List (String × OrderState) → List OrderState
unfolding is_open
keep_open [] = []
keep_open ((_, s) ∷ ss) = if is_open s then s ∷ keep_open ss else keep_open ss

-- `open_orders`
unfoldable pub open_orders : Manager → List OrderState
unfolding keep_open sort_by
open_orders m = sort_by (λ s. s.client_order_id) (keep_open m.states)

-- A state as the broker lists it at a cold start: its status is a text that nobody has checked.
pub record Reported : Type 0 where
  pub client_order_id : String
  pub order_id : Option String
  pub symbol : String
  pub side : String
  pub qty : ℤ
  pub filled_qty : ℤ
  pub avg_fill_price : Option Float
  pub status : String
  pub updated_at : String
  pub reason : Option String

abbrev pub with_status : Reported → Status → OrderState
with_status r s = record {
  client_order_id = r.client_order_id;
  order_id = r.order_id;
  symbol = r.symbol;
  side = r.side;
  qty = r.qty;
  filled_qty = r.filled_qty;
  avg_fill_price = r.avg_fill_price;
  status = s;
  updated_at = r.updated_at;
  reason = r.reason;
}

unfoldable pub is_inconsistent : Reported → Bool
is_inconsistent r = ltb_ℤ r.qty (pos 0) || (ltb_ℤ r.filled_qty (pos 0) || ltb_ℤ r.qty r.filled_qty)

unfoldable pub restore_one : Manager → Reported → Manager
restore_one m r = elim (status_of r.status) [
  | none ↦
      (anomaly m "restore_unknown_status" ""
        (obj (field "client_order_id" (str r.client_order_id) (field "status" (str r.status) end)))
        (some r.client_order_id)).0
  | some s ↦
      if is_inconsistent r
      then (anomaly m "restore_inconsistent_qty" ""
          (obj (
            field "client_order_id" (str r.client_order_id)
              (field "qty" (int r.qty) (field "filled_qty" (int r.filled_qty) end))))
          (some r.client_order_id)).0
      else record m { states = insert r.client_order_id (with_status r s) m.states }
]

unfoldable pub restore_all : Manager → List Reported → Manager
unfolding restore_one
restore_all m [] = m
restore_all m (r ∷ rs) = restore_all (restore_one m r) rs

-- `restore`
unfoldable pub restore : Manager → List Reported → Manager
unfolding restore_all sort_by
restore m rs = restore_all m (sort_by (λ r. r.client_order_id) rs)
