-- ===== src/Lineage/Comparison.antt =====
-- The comparison of two sleeves: signald/lineage.py, `_daily_pnl`, `_aligned` and the claim of `compare`.
-- The bootstrap is `compare`'s own argument `paired`, of which the claim reads `excludes_zero`; the other
-- numbers of the answer are not modelled.
use trading_execution.Prelude.{
  ℕ, suc, Bool, false, not, Option, none, some, List, [], ◌∷◌, String, if◌then◌else◌, ◌||◌, ◌&&◌,
  length, leb, ltb, get_or, is_empty, is_some, map,
}
use trading_execution.Prelude.Dict.{lookup, insert}
use trading_execution.Prelude.Float.{Float, Arith, zero_f}
use trading_execution.Reconcile.{symbols}

-- A trade's row: what `_finite` and `_day_of` read of it.
pub record TradeRow : Type 0 where
  pub qty : Option Float
  pub entry_px : Option Float
  pub exit_px : Option Float
  pub fees_usd : Option Float
  pub day : Option String

-- The three sentences of the claim.
pub data Sentence : Type 0 where
  feasibility adequate no_difference : Sentence

-- Why a series cannot be paired.
pub data Reason : Type 0 where
  pnl_unavailable day_unavailable few_sessions one_empty : Reason

-- The loop of `_daily_pnl`.
pub record Series : Type 0 where
  pub days : List (String × Float)
  pub bad_pnl : ℕ
  pub bad_day : ℕ

-- `Scorecard.sample_adequate`
abbrev pub is_adequate : ℕ → List TradeRow → Bool
is_adequate minimum rows = not (is_empty rows) && leb minimum (length rows)

module _ (a : Arith) where
  abbrev pub net_of : TradeRow → Option Float
  net_of r = elim r.qty [
    | none ↦ none
    | some qty ↦ elim r.entry_px [
      | none ↦ none
      | some entry ↦ elim r.exit_px [
        | none ↦ none
        | some exit ↦ elim r.fees_usd [
          | none ↦ none
          | some fees ↦ some (a.sub (a.mul qty (a.sub exit entry)) fees)
        ]
      ]
    ]
  ]

  abbrev pub add_day : Series → Float → Option String → Series
  add_day s net none = record s { bad_day = suc s.bad_day }
  add_day s net (some day) = record s {
    days = insert day (a.add (get_or (lookup day s.days) zero_f) net) s.days;
  }

  abbrev pub add_net : Series → Option Float → Option String → Series
  add_net s none day = record s { bad_pnl = suc s.bad_pnl }
  add_net s (some net) day = add_day s net day

  unfoldable pub series_from : Series → List TradeRow → Series
  unfolding lookup insert
  series_from s [] = s
  series_from s (r ∷ rs) = series_from (add_net s (net_of r) r.day) rs

  -- `_daily_pnl`
  unfoldable pub daily_pnl : List TradeRow → List (String × Float) × Option Reason
  unfolding series_from
  daily_pnl rows =
      let s = series_from (record { days = []; bad_pnl = 0; bad_day = 0 }) rows in
      if ltb 0 s.bad_pnl
      then ([], some pnl_unavailable)
      else if ltb 0 s.bad_day
      then ([], some day_unavailable)
      else (s.days, none)

  -- `_aligned`: the sessions, and each side's series on them
  unfoldable pub aligned :
      List (String × Float) → List (String × Float) → List String × List Float × List Float
  unfolding symbols lookup
  aligned days_a days_b =
      let sessions = symbols days_a days_b in
      (
        sessions,
        map (λ d. get_or (lookup d days_a) zero_f) sessions,
        map (λ d. get_or (lookup d days_b) zero_f) sessions,
      )

  abbrev pub either : Option Reason → Option Reason → Option Reason
  either none why = why
  either (some r) why = some r

  -- the reason in `difference`, if there is one
  unfoldable pub reason_of :
      Option Reason → List String → List (String × Float) → List (String × Float) → Option Reason
  reason_of (some r) sessions days_a days_b = some r
  reason_of none sessions days_a days_b =
      if ltb (length sessions) 2
      then some few_sessions
      else if is_empty days_a || is_empty days_b
      then some one_empty
      else none

  -- the claim, from the sessions, the samples and the interval
  unfoldable pub claim_of : ℕ → Bool → Bool → Sentence
  claim_of sessions adequate_samples excludes_zero =
      if ltb sessions 3500 || not adequate_samples
      then feasibility
      else if excludes_zero
      then adequate
      else no_difference

  -- the claim of `compare`
  unfoldable pub compare_claim :
      (List Float → List Float → Bool) → ℕ → List TradeRow → List TradeRow → Sentence
  unfolding daily_pnl aligned reason_of claim_of
  compare_claim paired minimum trades_a trades_b =
      let x = daily_pnl trades_a in
      let y = daily_pnl trades_b in
      let z = aligned x.0 y.0 in
      let excludes =
        (if is_some (reason_of (either x.1 y.1) z.0 x.0 y.0) then false else paired z.1 z.2) in
      claim_of (length z.0) (is_adequate minimum trades_a && is_adequate minimum trades_b) excludes
