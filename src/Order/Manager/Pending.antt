-- ===== src/Order/Manager/Pending.antt =====
-- The recovery sweep: signald/order/manager.py, `OrderManager.pending`.
use trading_execution.Prelude.{
  Bool, List, [], ◌∷◌, String, str_eq, if◌then◌else◌, map, text_le, sort,
}
use trading_execution.Prelude.Dict.{insert, erase}
use trading_execution.Json.{is_blank}
use trading_execution.Order.Manager.Session.{Row, Event, Log}

abbrev pub row_id : Row → String
row_id (Row.pending i at) = i.client_order_id
row_id (Row.resolution cid status at) = cid

-- One row of the store: a pending row is live, a resolution retires it.
unfoldable pub take_row : Row → List (String × Row) → List (String × Row)
take_row (Row.pending i at) live =
    if is_blank i.client_order_id then live else insert i.client_order_id (Row.pending i at) live
take_row (Row.resolution cid status at) live = if is_blank cid then live else erase cid live

-- `sorted(live, key=lambda c: (str(live[c].get("at", "")), c))`
abbrev pub row_at : Row → String
row_at (Row.pending i at) = at
row_at (Row.resolution cid status at) = at

abbrev pub older : String × Row → String × Row → Bool
older (c, r) (d, s) =
    if str_eq (row_at r) (row_at s) then text_le c d else text_le (row_at r) (row_at s)

-- The rows of a log that are live after it. The log has the newest event first.
unfoldable pub live : Log → List (String × Row)
unfolding take_row
live [] = []
live (Event.wrote row ∷ l) = take_row row (live l)
live (Event.called method payload reply ∷ l) = live l
live (Event.audited kind reason fields ∷ l) = live l

-- `pending`: the live rows, the oldest first.
unfoldable pub pending : Log → List Row
unfolding live
pending l = map (λ e. e.1) (sort older (live l))
