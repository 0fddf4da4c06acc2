-- ===== src/Order/Manager/Session.antt =====
-- What one session of the order manager does to the world: rows of the pending store, calls of the
-- broker and audit rows, in one log, the newest first. The broker and the clock are parameters:
-- both may answer in any way that depends on all that was done before.
use trading_execution.Prelude.{Bool, Option, List, ◌∷◌, String}
use trading_execution.Json.{Value, Fields}
use trading_execution.Order.Intent.{OrderIntent}

-- The methods of `OrderTransport`.
pub data Method : Type 0 where
  submit query cancel replace : Method

-- What a call of the transport ends in: a body (`null` is None), TimeoutError, or another
-- exception.
pub data Reply : Type 0 where
  answered : Value → Reply
  timed_out failed : Reply

-- A row of the pending store: `_append_pending`, or `resolve`.
pub data Row : Type 0 where
  pending : OrderIntent → String → Row
  resolution : String → String → String → Row

pub data Event : Type 0 where
  wrote : Row → Event
  called : Method → Fields → Reply → Event
  audited : String → String → Fields → Event

abbrev pub Log : Type 0
Log = List Event

pub record World : Type 0 where
  pub transport : Log → Method → Fields → Reply
  pub now : Log → String

-- `SubmitResult.status`
pub data Outcome : Type 0 where
  submitted duplicate rejected timeout not_found unavailable canceled replaced : Outcome

pub record SubmitResult : Type 0 where
  pub status : Outcome
  pub client_order_id : String
  pub order : Option Fields
  pub detail : String
  pub retried : Bool

-- An action of the manager.
abbrev pub Action : Type 0 → Type 0
Action A = Log → A × Log

infixl 5 ◌>>=◌ ◌>>◌
abbrev pub ◌>>=◌ : {A B : Type 0} → Action A → (A → Action B) → Action B
◌>>=◌ m f l = f (m l).0 (m l).1

abbrev pub ◌>>◌ : {A : Type 0} → Action (Unit {0}) → Action A → Action A
◌>>◌ m k l = k (m l).1

abbrev pub pure : {A : Type 0} → A → Action A
pure a l = (a, l)

-- `_atomic_append` of a row whose time stamp is read from the clock.
unfoldable pub write : World → (String → Row) → Action (Unit {0})
write w row l = (tt, Event.wrote (row (w.now l)) ∷ l)

-- `_audit`
unfoldable pub audit : String → String → Fields → Action (Unit {0})
audit kind reason fields l = (tt, Event.audited kind reason fields ∷ l)

-- `_call`
unfoldable pub call : World → Method → Fields → Action Reply
call w method payload l =
    (w.transport l method payload, Event.called method payload (w.transport l method payload) ∷ l)
