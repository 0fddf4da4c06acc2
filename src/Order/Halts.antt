-- ===== src/Order/Halts.antt =====
-- The halt machine of one instrument: signald/order/halts.py. Times are whole microseconds; the
-- cooldown is given in microseconds too.
pub mod Cooldown
pub mod ClosedOut
pub mod Repeats
mod Tests
use trading_execution.Prelude.{
  ℕ, ◌-◌, ◌*◌, ◌^◌, Bool, true, false, Option, none, some, List, [], ◌∷◌, String, leb,
  if◌then◌else◌, ◌||◌, ◌==◌,
}
use trading_execution.Prelude.Int.{pos}
use trading_execution.Prelude.Float.{Float, fin, leb_f}
use trading_execution.Prelude.Results.{Result, ok, err}

-- `PHASES`
pub data Phase : Type 0 where
  normal limit_state halted reopening cooldown : Phase

-- The values of `_reason`.
pub data Reason : Type 0 where
  normal limit_state halt no_reopen_last_10m reopening cooldown : Reason

-- The fields of `HaltMachine`, but for the clock.
pub record Machine : Type 0 where
  pub cooldown_us : ℕ
  pub phase : Phase
  pub reason : Reason
  pub since : Option ℕ
  pub reopen_at : Option ℕ
  pub no_reopen : Bool

pub record HaltState : Type 0 where
  pub phase : Phase
  pub allow_entries : Bool
  pub allow_exits : Bool
  pub elapsed_us : ℕ
  pub reason : Reason
  pub since : Option ℕ

-- `HaltMachine(now, cooldown_s=...)`: a cooldown that is not positive raises ValueError.
unfoldable pub create : ℕ → Result String Machine
create c =
    if c == 0
    then err "cooldown_s must be a positive number of seconds"
    else ok (record {
      cooldown_us = c;
      phase = Phase.normal;
      reason = Reason.normal;
      since = none;
      reopen_at = none;
      no_reopen = false;
    })

abbrev pub is_normal : Phase → Bool
is_normal Phase.normal = true
is_normal _ = false

abbrev pub is_halted : Phase → Bool
is_halted Phase.halted = true
is_halted _ = false

abbrev pub is_limit : Phase → Bool
is_limit Phase.limit_state = true
is_limit _ = false

abbrev pub is_reopening : Phase → Bool
is_reopening Phase.reopening = true
is_reopening _ = false

abbrev pub is_cooldown : Phase → Bool
is_cooldown Phase.cooldown = true
is_cooldown _ = false

-- `_elapsed`: a clock that runs backwards reads as no time at all.
unfoldable pub elapsed : Machine → ℕ → ℕ
elapsed m at = elim m.reopen_at [ none ↦ 0 | some t ↦ at - t ]

-- `_snapshot`
unfoldable pub snapshot : Machine → ℕ → HaltState
unfolding elapsed
snapshot m at = record {
  phase = m.phase;
  allow_entries = is_normal m.phase;
  allow_exits = is_normal m.phase || is_cooldown m.phase;
  elapsed_us = if is_cooldown m.phase then elapsed m at else 0;
  reason = m.reason;
  since = m.since;
}

-- `if self._phase != p: self._phase, self._since = p, at`
unfoldable pub enter : Machine → Phase → Bool → ℕ → Machine
enter m p there at = if there then m else record m { phase = p; since = some at }

-- 10.0, `NO_REOPEN_MINUTES`
abbrev pub ten_f : Float
ten_f = fin (pos (10 * 2 ^ 1074))

abbrev pub near_close : Option Float → Bool
near_close none = false
near_close (some m) = leb_f m ten_f

-- `if halted: ...`
unfoldable pub on_halt : Machine → ℕ → Option Float → Machine
unfolding enter
on_halt m at minutes =
    let n = enter m Phase.halted (is_halted m.phase) at in
    if near_close minutes
    then record n { reopen_at = none; no_reopen = true; reason = Reason.no_reopen_last_10m }
    else record n { reopen_at = none; reason = Reason.halt }

-- `if self._no_reopen: ...`
unfoldable pub on_closed_out : Machine → ℕ → Machine
unfolding enter
on_closed_out m at = record (enter m Phase.halted (is_halted m.phase) at) {
  reopen_at = none;
  reason = Reason.no_reopen_last_10m;
}

-- `if limit_state: ...`
unfoldable pub on_limit : Machine → ℕ → Machine
unfolding enter
on_limit m at = record (enter m Phase.limit_state (is_limit m.phase) at) {
  reopen_at = none;
  reason = Reason.limit_state;
}

-- The halt has cleared, and the reopen is not confirmed yet.
unfoldable pub clear : Machine → ℕ → Machine
clear m at =
    if is_halted m.phase || is_limit m.phase
    then record m {
      phase = Phase.reopening;
      since = some at;
      reason = Reason.reopening;
      reopen_at = none;
    }
    else m

-- The decay of the cooldown.
unfoldable pub decay : Machine → ℕ → Machine
unfolding elapsed
decay m at =
    if is_cooldown m.phase
    then (if leb m.cooldown_us (elapsed m at)
        then record m {
          phase = Phase.normal;
          since = some at;
          reason = Reason.normal;
          reopen_at = none;
        }
        else m)
    else (if is_normal m.phase
        then record m {
          reason = Reason.normal;
          since = elim m.since [ none ↦ some at | some t ↦ some t ];
        }
        else m)

-- `update`: the machine afterwards; what the source returns is its `snapshot`.
unfoldable pub update : Machine → Bool → Bool → ℕ → Option Float → Machine
unfolding on_halt on_closed_out on_limit clear decay
update m is_halt limit at minutes =
    if is_halt
    then on_halt m at minutes
    else if m.no_reopen
    then on_closed_out m at
    else if limit
    then on_limit m at
    else decay (clear m at) at

-- `note_reopen`
unfoldable pub note_reopen : Machine → ℕ → Machine
note_reopen m at =
    if m.no_reopen
    then m
    else if is_reopening m.phase
    then record m {
      phase = Phase.cooldown;
      since = some at;
      reopen_at = some at;
      reason = Reason.cooldown;
    }
    else m

-- One call of the machine, with the reading of the clock.
pub data Op : Type 0 where
  observe : Bool → Bool → ℕ → Option Float → Op
  reopen : ℕ → Op

unfoldable pub step : Machine → Op → Machine
unfolding update note_reopen
step m (Op.observe is_halt limit at minutes) = update m is_halt limit at minutes
step m (Op.reopen at) = note_reopen m at

unfoldable pub run : Machine → List Op → Machine
unfolding step
run m [] = m
run m (o ∷ os) = run (step m o) os
