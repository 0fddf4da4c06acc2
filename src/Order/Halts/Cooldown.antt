-- ===== src/Order/Halts/Cooldown.antt =====
-- When a halted instrument may be entered again.
use trading_execution.Prelude.{
  ℕ, ◌+◌, ◌≤◌, ◌<◌, ◌≡◌, true, false, Option, none, some, List, [], ◌∷◌, arith, All,
}
use trading_execution.Order.Halts.{Machine, Op, is_normal, is_cooldown, step, run, snapshot}

-- A cooldown that began then is not over before `bound`.
abbrev pub LastsUntil : ℕ → ℕ → Option ℕ → Type 0
LastsUntil bound cooldown none = ⊥
LastsUntil bound cooldown (some t) = bound ≤ t + cooldown

-- No entry before the time `bound`: the machine is outside `normal`, and a cooldown that runs
-- began so late that it lasts until then.
abbrev pub IsShutUntil : ℕ → Machine → Type 0
IsShutUntil bound m =
    (is_normal m.phase ≡ false)
    × (is_cooldown m.phase ≡ true → LastsUntil bound m.cooldown_us m.reopen_at)

-- A reopen that is noted early enough would open the machine before `bound`.
abbrev pub IsLate : ℕ → ℕ → Op → Type 0
IsLate bound cooldown (Op.observe is_halt limit at minutes) = at < bound
IsLate bound cooldown (Op.reopen at) = (at < bound) × (bound ≤ at + cooldown)

step-cooldown_us : (m : Machine) (o : Op) → (step m o).cooldown_us ≡ m.cooldown_us
unfolding step
step-cooldown_us m (Op.observe is_halt limit at minutes) = ground arith
step-cooldown_us m (Op.reopen at) = ground arith

step-IsShutUntil :
    (bound : ℕ) (m : Machine) (o : Op)
    → 0 < m.cooldown_us
    → IsLate bound m.cooldown_us o
    → IsShutUntil bound m
    → IsShutUntil bound (step m o)
unfolding step
step-IsShutUntil bound m (Op.observe is_halt limit at minutes) c l h = ground arith
step-IsShutUntil bound m (Op.reopen at) c l h = ground arith

run-IsShutUntil :
    (bound : ℕ) (os : List Op) (m : Machine)
    → 0 < m.cooldown_us
    → All (IsLate bound m.cooldown_us) os
    → IsShutUntil bound m
    → IsShutUntil bound (run m os)
unfolding run
run-IsShutUntil bound [] m c l h = h
run-IsShutUntil bound (o ∷ os) m c l h =
    run-IsShutUntil bound os (step m o) (rw (step-cooldown_us m o) c)
      (rw (step-cooldown_us m o) l.1) (step-IsShutUntil bound m o c l.0 h)

-- A machine that is not normal allows no entry before `bound`, whatever sequence of updates and
-- noted reopens it sees until then, when no reopen is noted that early that its cooldown would be
-- over: clearing a halt is never enough, and the full cooldown runs from the noted reopen.
pub shut_until_cooldown :
    (bound : ℕ) (os : List Op) (m : Machine) (at : ℕ)
    → 0 < m.cooldown_us
    → All (IsLate bound m.cooldown_us) os
    → IsShutUntil bound m
    → (snapshot (run m os) at).allow_entries ≡ false
unfolding snapshot
shut_until_cooldown bound os m at c l h = (run-IsShutUntil bound os m c l h).0
