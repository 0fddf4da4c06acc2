-- ===== src/Order/State/Tests.antt =====
-- The life of one order, and the theorems on it.
use trading_execution.Prelude.{
  ◌≡◌, refl, false, Option, none, some, List, [], ◌∷◌, String, arith, map,
}
use trading_execution.Prelude.Results.{Result, ok, err}
use trading_execution.Order.State.Effect.{Effect, apply-Effect}
use trading_execution.Json.{Value, int, num, str, obj, Fields, end, field, Text, get, to_text}
use trading_execution.Order.State.Types.{
  Status, OrderState, Manager, Exc, event_status, status_of, is_fill_event, is_legal, same_status,
  Status-discrete,
}
use trading_execution.Order.State.Apply.{
  judge, read, event_name, target_status, text_field, check_transition, advance, keep, apply_fill,
  fallback_status, fill_average, fill_price, fill_quantity, fill_total, keep_filled, status_text,
  weighted,
}
use trading_execution.Order.State.Coerce.{
  opt_int, opt_float, finite, int_of_float, int_of_text, opt_text,
}
use trading_execution.Order.State.Stream.{
  restore, Reported, run, apply, fresh, settle, commit, apply_known, apply_order, audit_rows, prior,
  record_anomaly,
}
use trading_execution.Order.State.Invariant.{
  IsValid, IsCounted, Grows, run_history, restore-IsValid, executed,
}
use trading_execution.Prelude.Dict.{lookup, insert}
use trading_execution.Prelude.Float.{sum_with, fin, Arith, whole}
use trading_execution.Prelude.Int.{ℤ, pos, ◌+ℤ◌, ◌-ℤ◌}

-- A runtime on which texts are read as they stand, and no text is a number.
abbrev text : Text
text = record {
  strip = λ s. s;
  lower = λ s. s;
  upper = λ s. s;
  show = λ v. "value";
  repr = λ v. "value";
  parse_int = λ s. none;
  parse_float = λ s. none;
  contains = λ needle s. false;
}

abbrev arith_f : Arith
arith_f = record {
  add = λ x y. x;
  sub = λ x y. x;
  mul = λ x y. y;
  div = λ x y. x;
  of_int = λ n. some (fin n);
  sum = sum_with (λ x y. x) (fin (pos 0));
}

abbrev order_body : String → Fields
order_body status = field "client_order_id" (str "swi-1") (
    field "status" (str status)
      (field "symbol" (str "MSFT") (field "side" (str "buy") (field "qty" (int (pos 10)) end))))

abbrev accept : Value
accept = obj (field "event" (str "accepted") (field "order" (obj (order_body "accepted")) end))

abbrev execution : String → String → ℤ → Value
execution name status qty = obj (
    field "event" (str name) (
      field "qty" (int qty)
        (field "price" (num (fin (pos 7))) (field "order" (obj (order_body status)) end))))

-- The last event would take the order back: it is an anomaly.
abbrev day : List (String × Value)
day =
    ("t1", accept)
    ∷ ("t2", execution "partial_fill" "partially_filled" (pos 4))
    ∷ ("t3", execution "fill" "filled" (pos 6))
    ∷ ("t4", accept)
    ∷ []

abbrev empty : Manager
empty = fresh (some [])

empty-IsCounted : IsCounted empty
unfolding fresh executed lookup
empty-IsCounted cid = omega arith

abbrev finished : Result Exc Manager → Manager
finished (ok m) = m
finished (err e) = empty

abbrev final : Manager
final = finished (run text arith_f empty day)

-- All that a replay of events computes with.
replays : Unit {0}
unfolding run apply judge fresh executed get settle read event_name event_status target_status
    status_of text_field opt_int opt_float check_transition lookup advance is_fill_event keep commit
    insert to_text apply_fill fallback_status fill_average fill_price fill_quantity fill_total
    keep_filled status_text weighted finite int_of_float int_of_text opt_text apply_known
    apply_order audit_rows prior record_anomaly is_legal same_status whole ◌+ℤ◌ ◌-ℤ◌ Status-discrete
replays = tt

day_returns : run text arith_f empty day ≡ ok final
unfolding replays
day_returns = refl

-- The order is filled by two executions, and the last event is an anomaly.
day_fills :
    (executed "swi-1" final.fills ≡ pos 10)
    × (map (λ e. (e.1).status) final.states ≡ Status.filled ∷ [])
    × (map (λ x. x.code) final.anomalies ≡ "illegal_transition" ∷ [])
unfolding replays
day_fills = (refl, refl, refl)

run_history_example : IsValid final × IsCounted final × Grows empty final
unfolding fresh
run_history_example = run_history text arith_f day empty day_returns tt empty-IsCounted

abbrev second : Manager × Option OrderState
second = elim (apply text arith_f "t5" final (execution "fill" "filled" (pos 6))) [
  | ok r ↦ r
  | err e ↦ (final, none)
]

second_returns : apply text arith_f "t5" final (execution "fill" "filled" (pos 6)) ≡ ok second
unfolding replays
second_returns = refl

apply-Effect_example : Effect text (execution "fill" "filled" (pos 6)) final second
apply-Effect_example =
    apply-Effect text arith_f "t5" final (execution "fill" "filled" (pos 6)) second_returns

-- What the broker reports at a cold start: an order that is half filled, and one that claims to have
-- filled more than it has.
abbrev report : String → ℤ → Reported
report cid filled = record {
  client_order_id = cid;
  order_id = none;
  symbol = "MSFT";
  side = "buy";
  qty = pos 10;
  filled_qty = filled;
  avg_fill_price = none;
  status = "partially_filled";
  updated_at = "t0";
  reason = none;
}

abbrev reports : List Reported
reports = report "swi-2" (pos 12) ∷ report "swi-1" (pos 5) ∷ []

restore-IsValid_example : IsValid (restore empty reports)
unfolding fresh
restore-IsValid_example = restore-IsValid empty reports tt
