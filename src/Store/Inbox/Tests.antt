-- ===== src/Store/Inbox/Tests.antt =====
-- Files that are dropped, and the theorems on them.
use trading_execution.Prelude.{◌≡◌, refl, ◌+◌, ◌≤◌, none, List, [], ◌∷◌, str_eq, length, any}
use trading_execution.Prelude.Int.{pos}
use trading_execution.Prelude.Results.{ok, err}
use trading_execution.Json.{Fields, null, obj, str, end, field}
use trading_execution.Contract.{value_error, aware, validate_envelope}
use trading_execution.Contract.Tests.{wire, strict, checks}
use trading_execution.Store.Inbox.{
  Row, pending, Inbox, Dropped, undecodable, body, keyed, latest_of, state_of, seen, commit,
  key_for, dead_letter, admit_valid, admit_invalid, admit_body, admit_unreadable, admit,
}
use trading_execution.Store.Inbox.Once.{
  Step, offer, finish, step, run, times_accepted, flag, accepted_once,
}
use trading_execution.Store.Inbox.Pending.{is_open, pending-state_of}
use trading_execution.Store.Inbox.Repeats.{repeat, blank_key_repeats, empty_body_repeats}

abbrev fresh : Inbox
fresh = record { rows = []; letters = []; audit = []; quarantined = [] }

abbrev dropped : Fields → Dropped
dropped raw = record { path = "in/a.json"; name = "a.json"; content = body raw }

polls : Unit {0}
unfolding checks keyed latest_of state_of commit key_for dead_letter admit_valid admit_invalid
    admit_body admit_unreadable admit step run times_accepted
polls = tt

abbrev steps : List Step
steps =
    offer (dropped strict) (aware 100)
    ∷ offer (dropped strict) (aware 110)
    ∷ finish "research:r1:digest" "" "x"
    ∷ offer (dropped strict) (aware 120)
    ∷ []

-- It is let in the first time.
first_time : times_accepted wire "research:r1:digest" fresh steps ≡ 1
unfolding polls
first_time = refl

accepted_once_example :
    times_accepted wire "research:r1:digest" fresh steps + flag (seen [] "research:r1:digest") ≤ 1
accepted_once_example = accepted_once wire "research:r1:digest" fresh steps refl

-- A file that is not UTF-8.
undecodable_raises :
    admit wire fresh
      (record { path = "in/a.json"; name = "a.json"; content = undecodable })
      (aware 100)
    ≡ err value_error
unfolding polls
undecodable_raises = refl

-- An artifact with a hash that is only a prefix.
abbrev bare : Fields
bare =
    field "ticker" (str "ABC")
      (field "rating" (str "buy") (field "decision_hash" (str "sha256:") end))

bare_key : key_for wire bare ≡ ""
unfolding polls
bare_key = refl

bare_passes : validate_envelope wire (obj bare) (aware 100) ≡ ok (pos 1, pos 0, pos 0)
unfolding polls
bare_passes = refl

blank_key_repeats_example :
    times_accepted wire "" fresh (repeat 3 (offer (dropped bare) (aware 100))) ≡ 3
blank_key_repeats_example =
    blank_key_repeats wire 3 fresh (dropped bare) bare (aware 100) (pos 1, pos 0, pos 0) refl
      bare_key bare_passes

unseen : state_of [] "digest" ≡ none
unfolding polls
unseen = refl

empty_body_repeats_test :
    length (run wire fresh (repeat 3 (offer (dropped end) (aware 100)))).letters ≡ 3 + 0
empty_body_repeats_test =
    empty_body_repeats wire 3 fresh (dropped end) (aware 100) refl refl refl unseen

abbrev table : List Row
table =
    record {
      key = "k";
      state = "admitted";
      ticker = null;
      decision_hash = null;
      source = "";
      extra = end;
    }
    ∷ record {
      key = "j";
      state = "admitted";
      ticker = null;
      decision_hash = null;
      source = "";
      extra = end;
    }
    ∷ record {
      key = "k";
      state = "committed";
      ticker = null;
      decision_hash = null;
      source = "";
      extra = end;
    }
    ∷ []

pending-state_of_example : any (λ k. str_eq k "k") (pending table) ≡ is_open (state_of table "k")
pending-state_of_example = pending-state_of "k" table
