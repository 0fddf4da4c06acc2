-- ===== src/Risk/Ladder/Order.antt =====
-- Equity paths in order, and the actions of the ladder: signald/risk/ladder.py, `rung_for`.
use trading_execution.Prelude.{◌≤◌, ◌≡◌, true, ◌&&◌, arith}
use trading_execution.Prelude.Float.{is_finite, ltb_f, zero_f, ◌≤f◌}
use trading_execution.Prelude.Results.{ok}
use trading_execution.Risk.Ladder.{LadderState, EquityPath, Thresholds, check, worst, rung_for}

-- One path is nowhere better than another.
pub record IsWorse (p q : EquityPath) : Type 0 where
  pub day : p.day_pnl_pct ≤f q.day_pnl_pct
  pub five_day : p.five_day_pct ≤f q.five_day_pct
  pub drawdown : p.drawdown_pct ≤f q.drawdown_pct

-- One action allows nothing that another forbids.
pub record IsTighter (s t : LadderState) : Type 0 where
  pub rung : t.rung ≤ s.rung
  pub size : s.size_multiplier ≤f t.size_multiplier
  pub intraday : s.allow_new_intraday ≡ true → t.allow_new_intraday ≡ true
  pub halt : t.halt ≡ true → s.halt ≡ true

-- Every input of the ladder can be judged: the path is finite, and each threshold is positive.
pub record IsJudgeable (p : EquityPath) (t : Thresholds) : Type 0 where
  pub day : is_finite p.day_pnl_pct ≡ true
  pub five_day : is_finite p.five_day_pct ≡ true
  pub drawdown : is_finite p.drawdown_pct ≡ true
  pub soft : is_finite t.soft_pct && ltb_f zero_f t.soft_pct ≡ true
  pub hard : is_finite t.hard_pct && ltb_f zero_f t.hard_pct ≡ true
  pub derisk_5d : is_finite t.derisk_5d_pct && ltb_f zero_f t.derisk_5d_pct ≡ true
  pub derisk_dd : is_finite t.derisk_dd_pct && ltb_f zero_f t.derisk_dd_pct ≡ true
  pub halt_dd : is_finite t.halt_dd_pct && ltb_f zero_f t.halt_dd_pct ≡ true

-- The ladder answers exactly when its inputs can be judged: a path that is not finite, or a
-- threshold that is not positive, is an error and never a permissive rung.
pub rung_for_fails_closed :
    (p : EquityPath) (t : Thresholds)
    → ((s : LadderState) → rung_for p t ≡ ok s → IsJudgeable p t)
      × (IsJudgeable p t → rung_for p t ≡ ok (worst p t))
unfolding rung_for check
rung_for_fails_closed p t = (λ s h. ground arith, λ j. ground arith)
