-- ===== src/Store/Inbox/Once.antt =====
-- Admissions over any sequence of polls and commits: signald/inbox.py, `Inbox`.
use trading_execution.Prelude.{
  ℕ, ◌+◌, ◌≤◌, ◌≡◌, refl, ◌∙◌, ap, subst, if_intro, Bool, true, false, Option, none, some, List, [],
  ◌∷◌, ◌++◌, String, str_eq, eq_iff, arith, inl, inr, if◌then◌else◌, Bool-cases,
}
use trading_execution.Prelude.Results.{Result, ok, err, Result-cases}
use trading_execution.Json.{Fields, obj, str, null, end, field, is_blank, or_none, get}
use trading_execution.Contract.{
  Reject, envelope, type_error, value_error, overflow_error, Stamp, Wire, validate_envelope,
}
use trading_execution.Store.Inbox.{
  Row, Inbox, Admission, accepted, deduped, dead_lettered, Dropped, undecodable, unreadable, body,
  state_text, keyed, latest_of, state_of, seen, commit, quarantine, dead_letter, admit_valid,
  admit_invalid, admit_body, admit_unreadable, admit, key_for, version_field, letter_key, hint_of,
  duplicate, unreadable_key, Content, committed_text,
}

keyed-append : (xs ys : List Row) → keyed (xs ++ ys) ≡ keyed xs ++ keyed ys
unfolding keyed
keyed-append [] ys = refl
keyed-append (r ∷ xs) ys = elim (Bool-cases (is_blank r.key)) [
  | inl e ↦ rw e (keyed-append xs ys)
  | inr e ↦ rw e (ap (λ rest. r ∷ rest) (keyed-append xs ys))
]

latest_of-append :
    (key : String) (s : Option String) (xs ys : List Row)
    → latest_of key s (xs ++ ys) ≡ latest_of key (latest_of key s xs) ys
unfolding latest_of
latest_of-append key s [] ys = refl
latest_of-append key s (r ∷ xs) ys =
    latest_of-append key (if str_eq r.key key then some (state_text r) else s) xs ys

last_lem :
    (s : Option String) (r : Row) (key : String)
    → latest_of key s (keyed (r ∷ []))
      ≡ (if is_blank r.key then s else if str_eq r.key key then some (state_text r) else s)
unfolding latest_of keyed
last_lem s r key = ground arith

-- One row more.
pub state_of-append :
    (rows : List Row) (r : Row) (key : String)
    → state_of (rows ++ (r ∷ [])) key ≡ (
        if is_blank r.key
        then state_of rows key
        else if str_eq r.key key
        then some (state_text r)
        else state_of rows key)
unfolding state_of
state_of-append rows r key = rw (keyed-append rows (r ∷ [])) (
    latest_of-append key none (keyed rows) (keyed (r ∷ []))
    ∙ last_lem (latest_of key none (keyed rows)) r key)

-- What a process does with its inbox: it looks at a dropped file, it marks a key as done, or it puts a signal
-- aside.
pub data Step : Type 0 where
  offer : Dropped → Stamp → Step
  finish : String → String → String → Step
  set_aside : Fields → String → String → String → Step

abbrev pub flag : Bool → ℕ
flag true = 1
flag false = 0

-- The admission lets this key in.
abbrev pub lets_in : String → Option Admission → Bool
lets_in key none = false
lets_in key (some a) = elim a.kind [
  | accepted ↦ str_eq a.key key
  | deduped ↦ false
  | dead_lettered ↦ false
]

flag_lem : (b : Bool) → 0 + flag b ≤ 1
flag_lem true = omega arith
flag_lem false = omega arith

grow :
    (key : String) (rows : List Row) (r : Row)
    → 0 + flag (seen rows key) ≤ flag (seen (rows ++ (r ∷ [])) key)
grow key rows r = ground (arith, state_of-append rows r key)

let_in :
    (key k : String) (rows : List Row) (r : Row)
    → is_blank key ≡ false
    → r.key ≡ k
    → seen rows k ≡ false
    → flag (str_eq k key) + flag (seen rows key) ≤ flag (seen (rows ++ (r ∷ [])) key)
let_in key k rows r b e h = elim (Bool-cases (str_eq k key)) [
  | inl same ↦
      let here : k ≡ key = (eq_iff k key).0 same in
      let unseen : seen rows key ≡ false = subst (λ x. seen rows x ≡ false) here h in
      ground (arith, state_of-append rows r key, eq_iff r.key key, unseen, same)
  | inr other ↦ rw other (grow key rows r)
]

module _ (w : Wire) where
  -- An admission that raises leaves the inbox as it is.
  abbrev pub outcome : Inbox → Result Reject (Admission × Inbox) → Option Admission × Inbox
  outcome i (ok (a, j)) = (some a, j)
  outcome i (err e) = (none, i)

  unfoldable pub step : Inbox → Step → Option Admission × Inbox
  unfolding admit commit quarantine
  step i (offer d now) = outcome i (admit w i d now)
  step i (finish key signal_id source) = (none, commit i key signal_id source)
  step i (set_aside produced code reason key) = (none, quarantine i produced code reason key)

  unfoldable pub run : Inbox → List Step → Inbox
  unfolding step
  run i [] = i
  run i (s ∷ ss) = run (step i s).1 ss

  unfoldable pub times_accepted : String → Inbox → List Step → ℕ
  unfolding step
  times_accepted key i [] = 0
  times_accepted key i (s ∷ ss) =
      flag (lets_in key (step i s).0) + times_accepted key (step i s).1 ss

  -- A step lets a key in only if it was not seen, and it is seen then.
  abbrev Holds : String → Inbox → Option Admission × Inbox → Type 0
  Holds key i r = flag (lets_in key r.0) + flag (seen i.rows key) ≤ flag (seen r.1.rows key)

  valid_lem :
      (key : String) (i : Inbox) (d : Dropped) (raw : Fields) (k : String)
      → is_blank key ≡ false
      → Holds key i (some (admit_valid w i d raw k).0, (admit_valid w i d raw k).1)
  unfolding admit_valid
  valid_lem key i d raw k b = elim (Bool-cases (seen i.rows k)) [
    | inl e ↦ rw e (omega arith)
    | inr e ↦ rw e (
        let_in key k i.rows
          (record {
            key = k;
            state = "admitted";
            ticker = get "ticker" raw;
            decision_hash = get "decision_hash" raw;
            source = d.path;
            extra = version_field w (get "schema_version" raw);
          })
          b refl e)
  ]

  letter_lem :
      (key : String) (i : Inbox) (d : Dropped) (raw : Option Fields) (code k : String)
      (p : Option String)
      → Holds key i (some (dead_letter w i d raw code k p).0, (dead_letter w i d raw code k p).1)
  unfolding dead_letter
  letter_lem key i d raw code k p = grow key i.rows (record {
    key = k;
    state = "dead_lettered";
    ticker = elim raw [ none ↦ null | some fs ↦ get "ticker" fs ];
    decision_hash = elim raw [ none ↦ null | some fs ↦ get "decision_hash" fs ];
    source = d.path;
    extra = field "reason_code" (str code) end;
  })

  duplicate_lem :
      (key k : String) (i : Inbox) (raw : Option Fields) → Holds key i (some (duplicate w k raw), i)
  duplicate_lem key k i raw = omega arith

  invalid_lem :
      (key : String) (i : Inbox) (d : Dropped) (raw : Fields) (k code : String)
      → Holds key i (some (admit_invalid w i d raw k code).0, (admit_invalid w i d raw k code).1)
  unfolding admit_invalid
  invalid_lem key i d raw k code =
      if_intro (λ (x : Admission × Inbox). Holds key i (some x.0, x.1)) (seen i.rows k)
        (duplicate_lem key k i (some raw))
        (letter_lem key i d (some raw) code (letter_key w d raw)
          (or_none (hint_of w (get "producer" raw))))

  unreadable_lem :
      (key : String) (i : Inbox) (d : Dropped) (stamp : String)
      → Holds key i (some (admit_unreadable w i d stamp).0, (admit_unreadable w i d stamp).1)
  unfolding admit_unreadable
  unreadable_lem key i d stamp =
      if_intro (λ (x : Admission × Inbox). Holds key i (some x.0, x.1))
        (seen i.rows (unreadable_key d.name stamp))
        (duplicate_lem key (unreadable_key d.name stamp) i none)
        (letter_lem key i d none "unreadable" (unreadable_key d.name stamp) none)

  body_lem :
      (key : String) (i : Inbox) (d : Dropped) (raw : Fields) (now : Stamp)
      → is_blank key ≡ false
      → Holds key i (outcome i (admit_body w i d raw now))
  unfolding admit_body
  body_lem key i d raw now b = elim (Result-cases (validate_envelope w (obj raw) now)) [
    | inl (v, e) ↦ rw (e, admit_body) (valid_lem key i d raw (key_for w raw) b)
    | inr (envelope code, e) ↦ rw (e, admit_body) (invalid_lem key i d raw (key_for w raw) code)
    | inr (type_error, e) ↦ rw (e, admit_body) (omega arith)
    | inr (value_error, e) ↦ rw (e, admit_body) (omega arith)
    | inr (overflow_error, e) ↦ rw (e, admit_body) (omega arith)
  ]

  content_lem :
      (key : String) (i : Inbox) (d : Dropped) (now : Stamp) (c : Content)
      → is_blank key ≡ false
      → d.content ≡ c
      → Holds key i (outcome i (admit w i d now))
  unfolding admit
  content_lem key i d now undecodable b e = rw (e, admit) (omega arith)
  content_lem key i d now (unreadable stamp) b e = rw (e, admit) (unreadable_lem key i d stamp)
  content_lem key i d now (body raw) b e = rw (e, admit) (body_lem key i d raw now b)

  commit_lem :
      (key : String) (i : Inbox) (k signal_id source : String)
      → Holds key i (none, commit i k signal_id source)
  unfolding commit
  commit_lem key i k signal_id source =
      if_intro (λ (j : Inbox). Holds key i (none, j))
        (elim (state_of i.rows k) [ none ↦ false | some s ↦ str_eq s committed_text ]) (omega arith)
        (grow key i.rows (record {
          key = k;
          state = committed_text;
          ticker = null;
          decision_hash = null;
          source = source;
          extra = if is_blank signal_id then end else field "signal_id" (str signal_id) end;
        }))

  step_lem : (key : String) (i : Inbox) (s : Step) → is_blank key ≡ false → Holds key i (step i s)
  unfolding step
  step_lem key i (offer d now) b = content_lem key i d now d.content b refl
  step_lem key i (finish k signal_id source) b = commit_lem key i k signal_id source
  step_lem key i (set_aside produced code reason k) b = omega arith

  -- Over any sequence of dropped files, commits and quarantined signals, whatever the files hold and however often each is
  -- dropped, a key that is not empty is accepted at most once, and never if the inbox knows it.
  pub accepted_once :
      (key : String) (i : Inbox) (steps : List Step)
      → is_blank key ≡ false
      → times_accepted key i steps + flag (seen i.rows key) ≤ 1
  unfolding times_accepted
  accepted_once key i [] b = flag_lem (seen i.rows key)
  accepted_once key i (s ∷ ss) b =
      omega (arith, step_lem key i s b, accepted_once key (step i s).1 ss b)
