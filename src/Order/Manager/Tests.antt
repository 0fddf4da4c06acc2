-- ===== src/Order/Manager/Tests.antt =====
-- A broker that times out and knows nothing of the order, and the theorems on its session.
use trading_execution.Prelude.{◌≡◌, refl, ℕ, ◌<◌, ◌≤◌, false, none, some, [], arith}
use trading_execution.Prelude.Int.{pos}
use trading_execution.Prelude.Float.{fin}
use trading_execution.Prelude.Results.{ok}
use trading_execution.Json.{str, obj, field, end, Text}
use trading_execution.Order.Intent.{OrderIntent}
use trading_execution.Order.Manager.Session.{
  Method, Reply, answered, timed_out, failed, World, SubmitResult,
}
use trading_execution.Order.Manager.Actions.{submit, submit_with_retry}
use trading_execution.Order.Manager.Protocol.{Session, submit_with_retry-Session}
use trading_execution.Order.Manager.Retried.{mark, submit_with_retry-retried}
use trading_execution.Order.Manager.Recovery.{IsSwept, answer_of, submit-IsSwept}

abbrev text : Text
text = record {
  strip = λ s. s;
  lower = λ s. s;
  upper = λ s. s;
  show = λ v. "value";
  repr = λ v. "value";
  parse_int = λ s. none;
  parse_float = λ s. none;
  contains = λ needle s. false;
}

abbrev answer : Method → Reply
answer Method.submit = timed_out
answer Method.query = answered (obj (field "status" (str "not_found") end))
answer _ = failed

abbrev broker : World
broker = record { transport = λ l m f. answer m; now = λ l. "noon" }

abbrev intent : OrderIntent
intent = record {
  intent_id = "i1";
  sleeve = "swing";
  symbol = "MSFT";
  side = "buy";
  qty = pos 10;
  order_type = "limit";
  limit_price = some (fin (pos 7));
  stop_price = some (fin (pos 5));
  tif = "day";
  client_order_id = "swi-1";
  created_at = "noon";
  parent_proposal_id = none;
  extended_hours = false;
}

submit_with_retry-Session_example :
    (c : ℕ) × (0 < c)
    × (c ≤ 3)
    × Session text intent [] c (submit_with_retry text broker intent 3 []).1
submit_with_retry-Session_example = submit_with_retry-Session text broker intent 3 [] (omega arith)

submit-IsSwept_example :
    IsSwept text intent "noon" (answer_of broker intent []) (submit text broker intent [])
submit-IsSwept_example = submit-IsSwept text broker intent [] refl

submit_with_retry-retried_example :
    (r : SubmitResult) × ((submit_with_retry text broker intent 3 []).0 ≡ ok r)
    × (r.retried ≡ mark 2 (submit text broker intent []).0)
submit_with_retry-retried_example = submit_with_retry-retried text broker intent 2 []
