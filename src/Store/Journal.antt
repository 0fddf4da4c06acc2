-- ===== src/Store/Journal.antt =====
-- The journal of decisions and the two ledgers beside it: signald/stores.py, `SignalStore`, `Journal`,
-- `CandidateStore`, `MonitorStore`. A file is the list of its rows; a line that cannot be parsed is no row.
pub mod Expiry
mod Tests
use trading_execution.Prelude.{
  ℕ, ◌+◌, ◌==◌, Bool, true, false, not, Option, none, some, List, [], ◌∷◌, ◌++◌, String, str_eq,
  if◌then◌else◌, ◌||◌, ◌&&◌, any, is_none,
}
use trading_execution.Prelude.Dict.{insert}
use trading_execution.Prelude.Float.{Float}
use trading_execution.Json.{Value, Fields, str, get}

-- The signal feed: the lines of the feed and the latest envelope of each ticker.
pub record Feed : Type 0 where
  pub signals : List Fields
  pub latest : List (String × Fields)

-- `SignalStore.append`
unfoldable pub append_signal : Feed → Fields → Feed
append_signal f envelope = record f { signals = f.signals ++ (envelope ∷ []) }

-- `SignalStore.write_latest`: an envelope without a ticker raises KeyError
unfoldable pub write_latest : Feed → Fields → Option Feed
unfolding insert
write_latest f envelope = elim (get "ticker" envelope) [
  | str ticker ↦ some (record f { latest = insert ticker envelope f.latest })
  | _ ↦ none
]

-- `SignalStore.read_all`
abbrev pub read_all : Feed → List Fields
read_all f = f.signals

-- A signal's row: what the daily cap and the cooldown read of it.
pub record Signal : Type 0 where
  pub signal_id : String
  pub decision_hash : String
  pub ticker : String
  pub action : String
  pub emitted_at : String
  pub notional_usd : Option Float

-- A row of the journal.
pub data JournalRow : Type 0 where
  processed : String → String → String → Option String → JournalRow
  signal : Signal → JournalRow
  other : JournalRow

-- `mark_processed`: the hash of the decision, its ticker, the outcome and the hash of the mandate
unfoldable pub mark_processed :
    List JournalRow → String → String → String → Option String → List JournalRow
mark_processed rows decision_hash ticker outcome mandate_hash =
    rows ++ (processed decision_hash ticker outcome mandate_hash ∷ [])

-- the recorded mandate still holds
abbrev pub still_holds : Option String → Option String → Bool
still_holds none asked = true
still_holds (some recorded) none = true
still_holds (some recorded) (some asked) = str_eq recorded asked

abbrev pub suppresses : String → Option String → JournalRow → Bool
suppresses decision_hash asked (processed h t o recorded) =
    str_eq h decision_hash && still_holds recorded asked
suppresses decision_hash asked (signal s) = false
suppresses decision_hash asked other = false

-- `is_processed`
unfoldable pub is_processed : List JournalRow → String → Option String → Bool
is_processed rows decision_hash asked = any (suppresses decision_hash asked) rows

-- `add_signal`
unfoldable pub add_signal : List JournalRow → Signal → List JournalRow
add_signal rows s = rows ++ (signal s ∷ [])

-- `signals_today_count`; `date_of` is the date of `_parse_ts`, none for what is no timestamp
unfoldable pub signals_today_count : (String → Option ℕ) → ℕ → List JournalRow → ℕ
signals_today_count date_of today [] = 0
signals_today_count date_of today (signal s ∷ rows) =
    (elim (date_of s.emitted_at) as (λ x. ℕ) [ none ↦ 0 | some d ↦ if d == today then 1 else 0 ])
    + signals_today_count date_of today rows
signals_today_count date_of today (processed h t o m ∷ rows) =
    signals_today_count date_of today rows
signals_today_count date_of today (other ∷ rows) = signals_today_count date_of today rows

-- `last_signal`
unfoldable pub last_signal : List JournalRow → Option Signal
last_signal [] = none
last_signal (r ∷ rows) = elim (last_signal rows) [
  | some s ↦ some s
  | none ↦ elim r [ processed h t o m ↦ none | signal s ↦ some s | other ↦ none ]
]

-- A row of the candidates.
pub record Candidate : Type 0 where
  pub ticker : String
  pub rating : String
  pub action : String
  pub decision_hash : String
  pub target_pct : Option Float
  pub stop : Option Float
  pub run_id : Option String
  pub at : String

-- A row of the monitored names.
pub record Monitored : Type 0 where
  pub ticker : String
  pub rating : String
  pub action : String
  pub decision_hash : String
  pub in_mandate : Bool
  pub blocked : Bool
  pub binding_gate : Option String
  pub run_id : Option String
  pub at : String

-- `upper` is `str.upper`
module _ (upper : String → String) where
  -- `CandidateStore.has`
  unfoldable pub has_candidate : List Candidate → String → String → Bool
  has_candidate rows ticker decision_hash =
      any
        (λ (r : Candidate). str_eq r.ticker (upper ticker) && str_eq r.decision_hash decision_hash)
        rows

  -- `CandidateStore.record`
  unfoldable pub record_candidate : List Candidate → Candidate → List Candidate
  record_candidate rows c = rows ++ (record c { ticker = upper c.ticker } ∷ [])

  -- `MonitorStore.has`
  unfoldable pub has_monitored : List Monitored → String → String → Bool
  has_monitored rows ticker decision_hash =
      any
        (λ (r : Monitored). str_eq r.ticker (upper ticker) && str_eq r.decision_hash decision_hash)
        rows

  -- `MonitorStore.record`
  unfoldable pub record_monitored : List Monitored → Monitored → List Monitored
  record_monitored rows m = rows ++ (record m { ticker = upper m.ticker } ∷ [])
