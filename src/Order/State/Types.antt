-- ===== src/Order/State/Types.antt =====
-- The statuses of an order and the records of signald/order/state.py.
use trading_execution.Prelude.{
  Bool, true, false, not, Option, none, some, List, String, str_eq, if◌then◌else◌,
}
use trading_execution.Prelude.Int.{ℤ, ◌-ℤ◌}
use trading_execution.Prelude.Float.{Float}
use trading_execution.Json.{Value}

-- `STATES`, the closed set of order statuses.
pub data Status : Type 0 where
  new accepted partially_filled filled canceled rejected expired replaced done_for_day : Status

-- `status in STATES`, with the member that it names.
unfoldable pub status_of : String → Option Status
status_of s =
    if str_eq s "new"
    then some new
    else if str_eq s "accepted"
    then some accepted
    else if str_eq s "partially_filled"
    then some partially_filled
    else if str_eq s "filled"
    then some filled
    else if str_eq s "canceled"
    then some canceled
    else if str_eq s "rejected"
    then some rejected
    else if str_eq s "expired"
    then some expired
    else if str_eq s "replaced"
    then some replaced
    else if str_eq s "done_for_day"
    then some done_for_day
    else none

-- `EVENT_TO_STATUS`
unfoldable pub event_status : String → Option Status
event_status s =
    if str_eq s "new"
    then some new
    else if str_eq s "accepted"
    then some accepted
    else if str_eq s "partial_fill"
    then some partially_filled
    else if str_eq s "fill"
    then some filled
    else if str_eq s "canceled"
    then some canceled
    else if str_eq s "rejected"
    then some rejected
    else if str_eq s "expired"
    then some expired
    else if str_eq s "replaced"
    then some replaced
    else if str_eq s "done_for_day"
    then some done_for_day
    else none

-- `event_name in FILL_EVENTS`
unfoldable pub is_fill_event : String → Bool
is_fill_event s = if str_eq s "partial_fill" then true else str_eq s "fill"

-- `TERMINAL_STATES`
unfoldable pub is_terminal : Status → Bool
is_terminal new = false
is_terminal accepted = false
is_terminal partially_filled = false
is_terminal _ = true

-- `t in LEGAL_TRANSITIONS[s]`
unfoldable pub is_legal : Status → Status → Bool
is_legal new t = true
is_legal accepted new = false
is_legal accepted t = true
is_legal partially_filled new = false
is_legal partially_filled accepted = false
is_legal partially_filled rejected = false
is_legal partially_filled t = true
is_legal filled filled = true
is_legal canceled canceled = true
is_legal rejected rejected = true
is_legal expired expired = true
is_legal replaced replaced = true
is_legal done_for_day done_for_day = true
is_legal _ _ = false

unfoldable pub Status-discrete : Discrete Status
Status-discrete = hlevel

-- `s == t` of two statuses
unfoldable pub same_status : Status → Status → Bool
same_status s t = elim (Status-discrete s t) [ yes _ ↦ true | no _ ↦ false ]

pub record OrderState : Type 0 where
  pub client_order_id : String
  pub order_id : Option String
  pub symbol : String
  pub side : String
  pub qty : ℤ
  pub filled_qty : ℤ
  pub avg_fill_price : Option Float
  pub status : Status
  pub updated_at : String
  pub reason : Option String

unfoldable pub open_qty : OrderState → ℤ
open_qty s = s.qty -ℤ s.filled_qty

unfoldable pub is_open : OrderState → Bool
is_open s = not (is_terminal s.status)

pub record Fill : Type 0 where
  pub client_order_id : String
  pub order_id : Option String
  pub symbol : String
  pub side : String
  pub qty : ℤ
  pub price : Float
  pub at : String

-- A recorded anomaly, by the parts of its text.
pub record Anomaly : Type 0 where
  pub code : String
  pub detail : String
  pub client_order_id : Option String
  pub raw : Value

-- The rows that the manager appends to the audit chain.
pub data AuditRow : Type 0 where
  order_fill : Fill → AuditRow
  order_state : OrderState → AuditRow
  order_anomaly : Anomaly → AuditRow

-- `OrderStateManager`: no audit chain is `none`.
pub record Manager : Type 0 where
  pub states : List (String × OrderState)
  pub fills : List Fill
  pub anomalies : List Anomaly
  pub audit : Option (List AuditRow)

-- What Python raises out of `apply`.
pub data Exc : Type 0 where
  type_error overflow_error : Exc

-- How the evaluation of an event stops early: an anomaly that is recorded, or an exception.
pub data Stop : Type 0 where
  bad : String → String → Stop
  raised : Exc → Stop
