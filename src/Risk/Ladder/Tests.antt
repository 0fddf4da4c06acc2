-- ===== src/Risk/Ladder/Tests.antt =====
-- Two equity paths on the ladder, and the theorems on them.
use trading_execution.Prelude.{◌≡◌}
use trading_execution.Prelude.Float.{fin, zero_f}
use trading_execution.Prelude.Int.{pos, negsuc}
use trading_execution.Prelude.Results.{ok}
use trading_execution.Risk.Ladder.{EquityPath, Thresholds, worst, rung_for}
use trading_execution.Risk.Ladder.Order.{IsJudgeable, rung_for_fails_closed}

-- The house's limits, in hundredths of the unit.
abbrev thresholds : Thresholds
thresholds = record {
  soft_pct = fin (pos 2);
  hard_pct = fin (pos 3);
  derisk_5d_pct = fin (pos 5);
  derisk_dd_pct = fin (pos 8);
  halt_dd_pct = fin (pos 12);
}

abbrev calm : EquityPath
calm = record { day_pnl_pct = zero_f; five_day_pct = zero_f; drawdown_pct = zero_f }

abbrev deep : EquityPath
deep = record {
  day_pnl_pct = fin (negsuc 0);
  five_day_pct = fin (negsuc 3);
  drawdown_pct = fin (negsuc 12);
}

rung_for_fails_closed_example :
    ((s : _) → rung_for deep thresholds ≡ ok s → IsJudgeable deep thresholds)
    × (IsJudgeable deep thresholds → rung_for deep thresholds ≡ ok (worst deep thresholds))
rung_for_fails_closed_example = rung_for_fails_closed deep thresholds
