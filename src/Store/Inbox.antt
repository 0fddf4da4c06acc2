-- ===== src/Store/Inbox.antt =====
-- The inbox in front of the pipeline: signald/inbox.py, `Inbox`. A file that is written is a row that is
-- added; of a dead letter the reason code and the producer are modelled, its file names are not.
pub mod Once
pub mod Pending
pub mod Repeats
mod Tests
use Prim.Native.String.{◌++◌ as append}
use trading_execution.Prelude.{
  Bool, true, false, not, Option, none, some, List, [], ◌∷◌, ◌++◌, String, str_eq, if◌then◌else◌,
  ◌&&◌, is_some, text_le, sort, map,
}
use trading_execution.Prelude.Dict.{insert}
use trading_execution.Prelude.Results.{Result, ok, err}
use trading_execution.Json.{
  Value, Fields, null, str, obj, end, field, get, is_truthy, is_blank, or_none, or_empty,
}
use trading_execution.Contract.{
  Reject, envelope, type_error, value_error, overflow_error, Stamp, Wire, stripped, service_of,
  validate_envelope,
}

-- A line of inbox.jsonl.
pub record Row : Type 0 where
  pub key : String
  pub state : String
  pub ticker : Value
  pub decision_hash : Value
  pub source : String
  pub extra : Fields

-- `dead_letter`
pub record Letter : Type 0 where
  pub payload : Option Fields
  pub reason_code : String
  pub source : String
  pub producer : Option String

-- A signal that `quarantine` has put aside, with its sidecar.
pub record Quarantined : Type 0 where
  pub payload : Fields
  pub reason_code : String
  pub detail : String
  pub key : Option String

-- The admission kinds.
pub data Kind : Type 0 where
  accepted deduped dead_lettered : Kind

-- `Admission`
pub record Admission : Type 0 where
  pub kind : Kind
  pub key : String
  pub raw : Option Fields
  pub reason_code : Option String

-- The four places that the inbox writes to; an audit row is its kind and its key.
pub record Inbox : Type 0 where
  pub rows : List Row
  pub letters : List Letter
  pub audit : List (String × String)
  pub quarantined : List Quarantined

-- A dropped file: its path, its name, and what reading it gives. The stamp of one that cannot be read is
-- the text of its time and size; bytes that are not UTF-8 raise UnicodeDecodeError, a ValueError that is
-- none of the errors which `admit` catches.
pub data Content : Type 0 where
  undecodable : Content
  unreadable : String → Content
  body : Fields → Content

pub record Dropped : Type 0 where
  pub path : String
  pub name : String
  pub content : Content

-- `str(row.get("state") or "admitted")`
abbrev pub state_text : Row → String
state_text r = if is_blank r.state then "admitted" else r.state

-- `_rows`: a row without a key does not count
unfoldable pub keyed : List Row → List Row
keyed [] = []
keyed (r ∷ rs) = let rest = keyed rs in if is_blank r.key then rest else r ∷ rest

unfoldable pub latest_of : String → Option String → List Row → Option String
latest_of key state [] = state
latest_of key state (r ∷ rs) =
    latest_of key (if str_eq r.key key then some (state_text r) else state) rs

-- `state_of`
unfoldable pub state_of : List Row → String → Option String
unfolding keyed latest_of
state_of rows key = latest_of key none (keyed rows)

-- `seen`
abbrev pub seen : List Row → String → Bool
seen rows key = is_some (state_of rows key)

unfoldable pub latest : List (String × String) → List Row → List (String × String)
unfolding insert
latest states [] = states
latest states (r ∷ rs) = latest (insert r.key (state_text r) states) rs

unfoldable pub admitted_keys : List (String × String) → List String
admitted_keys [] = []
admitted_keys ((k, state) ∷ m) =
    let rest = admitted_keys m in if str_eq state "admitted" then k ∷ rest else rest

-- `pending`
unfoldable pub pending : List Row → List String
unfolding latest keyed admitted_keys sort
pending rows = sort text_le (admitted_keys (latest [] (keyed rows)))

abbrev pub committed_text : String
committed_text = "committed"

-- `commit`
unfoldable pub commit : Inbox → String → String → String → Inbox
unfolding state_of
commit i key signal_id source =
    if (elim (state_of i.rows key) [ none ↦ false | some s ↦ str_eq s committed_text ])
    then i
    else record i {
      rows =
          i.rows
          ++ (record {
            key = key;
            state = committed_text;
            ticker = null;
            decision_hash = null;
            source = source;
            extra = if is_blank signal_id then end else field "signal_id" (str signal_id) end;
          }
              ∷ []);
    }

-- `quarantine`
unfoldable pub quarantine : Inbox → Fields → String → String → String → Inbox
quarantine i produced reason_code reason key = record i {
  quarantined =
      i.quarantined
      ++ (record {
        payload = produced;
        reason_code = reason_code;
        detail = reason;
        key = or_none key;
      }
          ∷ []);
  audit = i.audit ++ (("quarantined", key) ∷ []);
}

abbrev pub unreadable_key : String → String → String
unreadable_key name stamp = append "unreadable:" (append name stamp)

module _ (w : Wire) where
  abbrev pub run_of : Value → String
  run_of (obj producer) = stripped w (get "run_id" producer)
  run_of _ = ""

  -- `key_for`
  unfoldable pub key_for : Fields → String
  key_for raw =
      let service = service_of w (get "producer" raw) in
      let run_id = run_of (get "producer" raw) in
      let artifact = stripped w (get "artifact_sha256" raw) in
      let decision = stripped w (get "decision_hash" raw) in
      if not (is_blank service) && (not (is_blank run_id) && not (is_blank artifact))
      then append service (append ":" (append run_id (append ":" (w.bare_hash artifact))))
      else if not (is_blank decision)
      then w.bare_hash decision
      else w.sha256_of raw

  abbrev pub is_empty_body : Fields → Bool
  is_empty_body end = true
  is_empty_body (field k v fs) = false

  -- `_dead_letter`: the letter, its row and its audit row
  unfoldable pub dead_letter :
      Inbox → Dropped → Option Fields → String → String → Option String → Admission × Inbox
  dead_letter i d raw code key producer = (
    record { kind = dead_lettered; key = key; raw = raw; reason_code = some code },
    record i {
      rows =
          i.rows
          ++ (record {
            key = key;
            state = "dead_lettered";
            ticker = elim raw [ none ↦ null | some fs ↦ get "ticker" fs ];
            decision_hash = elim raw [ none ↦ null | some fs ↦ get "decision_hash" fs ];
            source = d.path;
            extra = field "reason_code" (str code) end;
          }
              ∷ []);
      letters =
          i.letters
          ++ (record { payload = raw; reason_code = code; source = d.path; producer = producer }
              ∷ []);
      audit = i.audit ++ (("dead_lettered", key) ∷ []);
    },
  )

  -- the key that `_dead_letter` gives a body
  abbrev pub letter_key : Dropped → Fields → String
  letter_key d raw = if is_empty_body raw then unreadable_key d.name "" else key_for raw

  abbrev pub duplicate : String → Option Fields → Admission
  duplicate key raw = record { kind = deduped; key = key; raw = raw; reason_code = none }

  abbrev pub version_field : Value → Fields
  version_field null = end
  version_field (str s) = if is_blank s then end else field "schema_version" (str s) end
  version_field v = field "schema_version" v end

  -- a body that is valid
  unfoldable pub admit_valid : Inbox → Dropped → Fields → String → Admission × Inbox
  unfolding state_of
  admit_valid i d raw key = if seen i.rows key then (duplicate key (some raw), i) else (
    record { kind = accepted; key = key; raw = some raw; reason_code = none },
    record i {
      rows =
          i.rows
          ++ (record {
            key = key;
            state = "admitted";
            ticker = get "ticker" raw;
            decision_hash = get "decision_hash" raw;
            source = d.path;
            extra = version_field (get "schema_version" raw);
          }
              ∷ []);
      audit = i.audit ++ (("admitted", key) ∷ []);
    },
  )

  abbrev pub hint_of : Value → String
  hint_of (obj producer) = or_empty w.t (get "service" producer)
  hint_of _ = ""

  -- a body that is not
  unfoldable pub admit_invalid : Inbox → Dropped → Fields → String → String → Admission × Inbox
  unfolding state_of dead_letter key_for
  admit_invalid i d raw key code =
      if seen i.rows key
      then (duplicate key (some raw), i)
      else dead_letter i d (some raw) code (letter_key d raw)
          (or_none (hint_of (get "producer" raw)))

  unfoldable pub admit_body : Inbox → Dropped → Fields → Stamp → Result Reject (Admission × Inbox)
  unfolding key_for admit_valid admit_invalid validate_envelope
  admit_body i d raw now = elim (validate_envelope w (obj raw) now) [
    | ok version ↦ ok (admit_valid i d raw (key_for raw))
    | err e ↦ elim e [
      | envelope code ↦ ok (admit_invalid i d raw (key_for raw) code)
      | type_error ↦ err type_error
      | value_error ↦ err value_error
      | overflow_error ↦ err overflow_error
    ]
  ]

  unfoldable pub admit_unreadable : Inbox → Dropped → String → Admission × Inbox
  unfolding state_of dead_letter
  admit_unreadable i d stamp =
      let key = unreadable_key d.name stamp in
      if seen i.rows key
      then (duplicate key none, i)
      else dead_letter i d none "unreadable" key none

  -- `admit`
  unfoldable pub admit : Inbox → Dropped → Stamp → Result Reject (Admission × Inbox)
  unfolding admit_body admit_unreadable
  admit i d now = elim d.content [
    | undecodable ↦ err value_error
    | unreadable stamp ↦ ok (admit_unreadable i d stamp)
    | body raw ↦ admit_body i d raw now
  ]
