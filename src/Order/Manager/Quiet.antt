-- ===== src/Order/Manager/Quiet.antt =====
-- What the manager does after the broker has answered calls nobody: it audits, and may retire the
-- pending row.
use trading_execution.Prelude.{Option, ◌∷◌, String, if_intro}
use trading_execution.Json.{null, obj, Fields, Text}
use trading_execution.Order.Intent.{OrderIntent}
use trading_execution.Order.Manager.Session.{
  Reply, answered, timed_out, failed, Row, Event, Log, World, Outcome, SubmitResult, Action, audit,
  write,
}
use trading_execution.Order.Manager.Broker.{
  is_duplicate, status_is, status_in, broker_status, working, refusals,
}
use trading_execution.Order.Manager.Actions.{give_up, resolve, on_body, on_submit}

-- The second log is the first with audit rows and resolutions on top.
pub data Quietly (l : Log) : Log → Type 0 where
  here : Quietly l l
  audited :
      {k : Log} (kind reason : String) (fields : Fields)
      → Quietly l k
      → Quietly l (Event.audited kind reason fields ∷ k)
  resolved :
      {k : Log} (cid status at : String)
      → Quietly l k
      → Quietly l (Event.wrote (Row.resolution cid status at) ∷ k)

module _ (t : Text) (w : World) where
  pub give_up-Quietly :
      (o : Outcome) (cid detail : String) (body : Option Fields) (extra : Fields) (l : Log)
      → Quietly l (give_up t w o cid detail body extra l).1
  unfolding give_up audit
  give_up-Quietly o cid detail body extra l = audited _ _ _ here

  pub resolve-Quietly : (cid status : String) (l : Log) → Quietly l (resolve t w cid status l).1
  unfolding resolve write audit
  resolve-Quietly cid status l = audited _ _ _ (resolved _ _ _ here)

  pub on_body-Quietly :
      (i : OrderIntent) (body : Fields) (l : Log) → Quietly l (on_body t w i body l).1
  unfolding on_body give_up resolve audit write
  on_body-Quietly i body l = if_intro Q (is_duplicate t body) (audited _ _ _ here) (
      if_intro Q (status_is (broker_status t body) "not_found") (audited _ _ _ here) (
        if_intro Q (status_in (broker_status t body) working) (audited _ _ _ here) (
          if_intro Q (status_in (broker_status t body) refusals)
            (audited _ _ _ (audited _ _ _ (resolved _ _ _ here))) (audited _ _ _ here))))
    where
      Q : Action SubmitResult → Type 0
      Q m = Quietly l (m l).1

  pub on_submit-Quietly :
      (i : OrderIntent) (r : Reply) (l : Log) → Quietly l (on_submit t w i r l).1
  unfolding on_submit
  on_submit-Quietly i timed_out l = give_up-Quietly _ _ _ _ _ l
  on_submit-Quietly i failed l = give_up-Quietly _ _ _ _ _ l
  on_submit-Quietly i (answered null) l = give_up-Quietly _ _ _ _ _ l
  on_submit-Quietly i (answered (obj body)) l = on_body-Quietly i body l
  on_submit-Quietly i (answered _) l = give_up-Quietly _ _ _ _ _ l
