-- ===== src/Promotion/Tests.antt =====
-- A complete checklist for the live profile, and the theorems on it.
use trading_execution.Prelude.{◌≡◌, refl, ◌*◌, ◌^◌, true, false, Option, none, some, [], ◌∷◌, ◌⊎◌}
use trading_execution.Prelude.Int.{ℤ, pos}
use trading_execution.Prelude.Float.{sum_with, Float, fin, leb_f, ltb_f}
use trading_execution.Prelude.Results.{ok, err}
use trading_execution.Json.{Value, Fields, null, num, end, field, get}
use trading_execution.Promotion.{
  Runtime, PromotionReport, Claim, min_trades, min_oos_months, opt_ins, opt_ins_enforced,
  blockers_of, number, setup_failures, evidence_failures, validation_failures, fills_from,
  realised_fills, base_items, live_items, promotion_report, hard_cap_violation,
}
use trading_execution.Promotion.Ready.{
  IsReady, IsUnder, promotion_report-IsReady, hard_cap_violation-IsUnder,
}

abbrev whole_x : Float → Option ℤ
whole_x (fin n) = some n
whole_x _ = none

abbrev runtime : Runtime
runtime = record {
  a = record {
    add = λ x y. y;
    sub = λ x y. x;
    mul = λ x y. x;
    div = λ x y. x;
    of_int = λ n. some (fin n);
    sum = sum_with (λ x y. y) (fin (pos 0));
  };
  truncate = whole_x;
  strip = λ s. s;
  dsr_min = fin (pos 95);
  pbo_max = fin (pos 5);
}

abbrev enough : Value
enough = num (fin (pos (60 * 2 ^ 1074)))

abbrev evidence : Fields
evidence = field "dsr" enough (
    field "pbo" (num (fin (pos 1)))
      (field "trades" enough (field "oos_months" enough (field "n" enough end))))

abbrev ask : Claim
ask = record {
  profile = "live";
  sessions_reconciled = pos 20;
  drills_passed = "D1" ∷ "D2" ∷ [];
  required_drills = "D2" ∷ "D1" ∷ [];
  paper_sessions_required = pos 20;
  validation = ("SWING", some evidence) ∷ [];
  kill_switch_tested = true;
  stale_data_tested = true;
  daily_loss_tested = true;
  hard_cap_usd = enough;
  approval_threshold_usd = enough;
  backups_tested = true;
  owner_signed_date = "2026-01-01";
}

lists : Unit {0}
unfolding leb_f ltb_f get min_trades min_oos_months opt_ins opt_ins_enforced blockers_of number
    setup_failures evidence_failures validation_failures fills_from realised_fills base_items
    live_items promotion_report hard_cap_violation
lists = tt

unfoldable report : PromotionReport
unfolding lists
report = elim (promotion_report runtime ask) [
  | ok r ↦ r
  | err e ↦ record { profile = ""; items = []; complete = false; blockers = [] }
]

reported : promotion_report runtime ask ≡ ok report
unfolding lists report
reported = refl

complete : report.complete ≡ true
unfolding lists report
complete = refl

promotion_report-IsReady_example : IsReady runtime ask
promotion_report-IsReady_example = promotion_report-IsReady runtime ask report reported complete

under : hard_cap_violation runtime (num (fin (pos 7))) (num (fin (pos 9))) ≡ ok none
unfolding lists
under = refl

hard_cap_violation-IsUnder_test :
    (num (fin (pos 9)) ≡ null) ⊎ IsUnder runtime (num (fin (pos 9))) (num (fin (pos 7)))
hard_cap_violation-IsUnder_test =
    hard_cap_violation-IsUnder runtime (num (fin (pos 7))) (num (fin (pos 9))) under
