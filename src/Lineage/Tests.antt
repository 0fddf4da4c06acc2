-- ===== src/Lineage/Tests.antt =====
-- One monthly review, and the theorems on it.
use trading_execution.Prelude.{
  ◌≡◌, refl, true, false, none, some, List, [], ◌∷◌, String, All, sort, insert_sorted,
}
use trading_execution.Prelude.Dict.{lookup, insert}
use trading_execution.Prelude.Results.{ok}
use trading_execution.Prelude.Int.{pos, ◌+ℤ◌}
use trading_execution.Prelude.Float.{sum_with, Float, nan, fin, Arith, ltb_f, leb_f}
use trading_execution.Lineage.{
  Evidence, AllocationDecision, Limits, hard_ceiling, clamp, banded, tilted, apply_tilt,
  propose_one, propose_each, propose_allocation, kill, Review, excludes_prediction,
  kill_shrink_decision, exceeds,
}
use trading_execution.Reconcile.{distinct, symbols}
use trading_execution.Lineage.Trials.{
  Trial, rows, count, clean_metric, register, IsNumbered, register-IsNumbered,
}
use trading_execution.Lineage.Comparison.{
  TradeRow, feasibility, series_from, daily_pnl, aligned, reason_of, claim_of, compare_claim,
}
use trading_execution.Lineage.Claims.{Rests, compare_claim-Rests}
use trading_execution.Lineage.Bounds.{IsBounded, propose_allocation-IsBounded, floor_beats_ceiling}
use trading_execution.Lineage.Verdicts.{
  Grounds, kill_shrink_decision-Grounds, cvar_kills_without_sample,
}

abbrev add_x : Float → Float → Float
add_x (fin a) y = elim y [ fin b ↦ fin (a +ℤ b) | _ ↦ nan ]
add_x _ y = nan

abbrev sums : Arith
sums = record {
  add = add_x;
  sub = λ x y. x;
  mul = λ x y. x;
  div = λ x y. x;
  of_int = λ n. some (fin n);
  sum = sum_with add_x (fin (pos 0));
}

abbrev limits : Limits
limits = record {
  floor_pct = fin (pos 15);
  ceiling_pct = fin (pos 85);
  band_pct = fin (pos 10);
  swing_capital_pct = some (fin (pos 60));
  intraday_capital_pct = none;
}

abbrev clear : Evidence
clear = record {
  clears_noise_bar = true;
  in_drawdown = false;
  hot_streak = false;
  tilt_pct = some (fin (pos 30));
}

abbrev current : List (String × Float)
current = ("swing", fin (pos 55)) ∷ ("intraday", fin (pos 40)) ∷ []

abbrev evidence : List (String × Evidence)
evidence = ("swing", clear) ∷ ("intraday", clear) ∷ []

reviews : Unit {0}
unfolding ◌+ℤ◌ leb_f ltb_f lookup insert sort insert_sorted hard_ceiling clamp banded tilted
    apply_tilt propose_one propose_each propose_allocation excludes_prediction kill_shrink_decision
reviews = tt

abbrev proposals : List AllocationDecision
proposals =
    record {
      sleeve = "intraday";
      current_pct = fin (pos 40);
      proposed_pct = fin (pos 50);
      capped_by = some "band";
      frozen = false;
    }
    ∷ record {
      sleeve = "swing";
      current_pct = fin (pos 55);
      proposed_pct = fin (pos 60);
      capped_by = some "ceiling";
      frozen = false;
    }
    ∷ []

proposed : propose_allocation sums limits false evidence current ≡ proposals
unfolding reviews
proposed = refl

swing_room : ltb_f (hard_ceiling limits "swing") limits.floor_pct ≡ false
unfolding reviews
swing_room = refl

intraday_room : ltb_f (hard_ceiling limits "intraday") limits.floor_pct ≡ false
unfolding reviews
intraday_room = refl

propose_allocation-IsBounded_example :
    All (IsBounded limits) (propose_allocation sums limits false evidence current)
propose_allocation-IsBounded_example =
    propose_allocation-IsBounded sums limits false evidence current
      (swing_room, (intraday_room, tt))

-- A ceiling of 10 under a floor of 15.
abbrev tight : Limits
tight = record limits { swing_capital_pct = some (fin (pos 10)) }

above_ceiling : ltb_f (hard_ceiling tight "swing") tight.floor_pct ≡ true
unfolding reviews
above_ceiling = refl

aims_low : ltb_f (banded sums tight.band_pct (fin (pos 5)) (fin (pos 1))).0 tight.floor_pct ≡ true
unfolding reviews
aims_low = refl

floor_beats_ceiling_test :
    ltb_f
      (hard_ceiling tight "swing")
      (tilted sums tight "swing" (fin (pos 5)) (fin (pos 1))).proposed_pct
    ≡ true
floor_beats_ceiling_test =
    floor_beats_ceiling sums tight "swing" (fin (pos 5)) (fin (pos 1)) above_ceiling aims_low

abbrev young : Review
young = record {
  trades = pos 3;
  expectancy_usd = some (fin (pos 7));
  current_pct = fin (pos 40);
  sample_adequate = false;
  bootstrap = none;
  predicted_expectancy_usd = none;
  cvar_share = some (fin (pos 6));
  return_share = some (fin (pos 5));
  shrink_pct = fin (pos 10);
}

kill_shrink_decision-Grounds_example : Grounds young (kill_shrink_decision young).verdict
kill_shrink_decision-Grounds_example = kill_shrink_decision-Grounds young

outgrown : exceeds young.cvar_share young.return_share ≡ true
unfolding reviews
outgrown = refl

cvar_kills_without_sample_test : (kill_shrink_decision young).verdict ≡ kill
cvar_kills_without_sample_test = cvar_kills_without_sample young refl outgrown

abbrev row : String → TradeRow
row day = record {
  qty = some (fin (pos 2));
  entry_px = some (fin (pos 5));
  exit_px = some (fin (pos 7));
  fees_usd = some (fin (pos 1));
  day = some day;
}

abbrev trades : List TradeRow
trades = row "d1" ∷ row "d2" ∷ []

comparisons : Unit {0}
unfolding reviews distinct symbols series_from daily_pnl aligned reason_of claim_of compare_claim
comparisons = tt

short_window : compare_claim sums (λ x y. true) 1 trades trades ≡ feasibility
unfolding comparisons
short_window = refl

compare_claim-Rests_example :
    Rests sums (λ x y. true) 1 trades trades (compare_claim sums (λ x y. true) 1 trades trades)
compare_claim-Rests_example = compare_claim-Rests sums (λ x y. true) 1 trades trades

abbrev first_trial : Trial
first_trial = record { number = 1; variant = "v"; started_at = "t"; notes = ""; metric = [] }

registered : register [] "v" "" [] "t" ≡ ok (first_trial, some first_trial ∷ [])
unfolding rows count clean_metric register
registered = refl

no_rows : rows [] ≡ ok []
unfolding rows
no_rows = refl

register-IsNumbered_test :
    (rows (some first_trial ∷ []) ≡ ok (first_trial ∷ []))
    × IsNumbered 1 (first_trial ∷ [])
    × (count (some first_trial ∷ []) ≡ ok 1)
register-IsNumbered_test =
    register-IsNumbered [] [] "v" "" [] "t" first_trial (some first_trial ∷ []) no_rows tt
      registered
