-- ===== src/Risk/Ladder.antt =====
-- The de-risking ladder: signald/risk/ladder.py.
pub mod Order
mod Tests
use trading_execution.Prelude.{ℕ, Bool, true, false, String, if◌then◌else◌, ◌&&◌, ◌||◌}
use trading_execution.Prelude.Float.{Float, is_finite, leb_f, ltb_f, neg_f, zero_f, one_f, half_f}
use trading_execution.Prelude.Results.{Result, ok, err, guard, ◌>>=◌, ◌>>◌}

-- `LadderState`
pub record LadderState : Type 0 where
  pub rung : ℕ
  pub size_multiplier : Float
  pub allow_new_intraday : Bool
  pub flatten_intraday : Bool
  pub freeze_allocation : Bool
  pub halt : Bool
  pub reason : String

abbrev pub ladder_state : ℕ → Float → Bool → Bool → Bool → Bool → String → LadderState
ladder_state rung size allow flatten freeze halt reason = record {
  rung = rung;
  size_multiplier = size;
  allow_new_intraday = allow;
  flatten_intraday = flatten;
  freeze_allocation = freeze;
  halt = halt;
  reason = reason;
}

-- `_RUNG_STATES`
abbrev pub rung0 : LadderState
rung0 = ladder_state 0 one_f true false false false "none"

abbrev pub rung1 : LadderState
rung1 = ladder_state 1 one_f false false false false "rung1_soft_day"

abbrev pub rung2 : LadderState
rung2 = ladder_state 2 half_f false true false false "rung2_hard_day"

abbrev pub rung3 : LadderState
rung3 = ladder_state 3 half_f false false true false "rung3_derisk"

abbrev pub rung4 : LadderState
rung4 = ladder_state 4 zero_f false true true true "rung4_halt"

-- The equity path, as signed fractions.
pub record EquityPath : Type 0 where
  pub day_pnl_pct : Float
  pub five_day_pct : Float
  pub drawdown_pct : Float

pub record Thresholds : Type 0 where
  pub soft_pct : Float
  pub hard_pct : Float
  pub derisk_5d_pct : Float
  pub derisk_dd_pct : Float
  pub halt_dd_pct : Float

-- `_require_finite`; the error names the argument.
unfoldable pub require_finite : String → Float → Result String (Unit {0})
require_finite name x = guard (is_finite x) name

-- `_require_positive`
unfoldable pub require_positive : String → Float → Result String (Unit {0})
require_positive name x = guard (is_finite x && ltb_f zero_f x) name

-- The checks of the arguments.
unfoldable pub check : EquityPath → Thresholds → Result String (Unit {0})
unfolding require_finite require_positive
check p t = do
  require_finite "day_pnl_pct" p.day_pnl_pct
  require_finite "five_day_pct" p.five_day_pct
  require_finite "drawdown_pct" p.drawdown_pct
  require_positive "soft_pct" t.soft_pct
  require_positive "hard_pct" t.hard_pct
  require_positive "derisk_5d_pct" t.derisk_5d_pct
  require_positive "derisk_dd_pct" t.derisk_dd_pct
  require_positive "halt_dd_pct" t.halt_dd_pct

-- The worst rung that applies.
unfoldable pub worst : EquityPath → Thresholds → LadderState
worst p t =
    if leb_f p.drawdown_pct (neg_f t.halt_dd_pct)
    then rung4
    else if leb_f p.five_day_pct (neg_f t.derisk_5d_pct)
        || leb_f p.drawdown_pct (neg_f t.derisk_dd_pct)
    then rung3
    else if leb_f p.day_pnl_pct (neg_f t.hard_pct)
    then rung2
    else if leb_f p.day_pnl_pct (neg_f t.soft_pct)
    then rung1
    else rung0

unfoldable pub rung_for : EquityPath → Thresholds → Result String LadderState
unfolding check worst
rung_for p t = check p t >> ok (worst p t)
