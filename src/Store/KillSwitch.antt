-- ===== src/Store/KillSwitch.antt =====
-- The kill switch and the latch of its episode: signald/kill_switch.py. The latch file is what its reading
-- gives; an episode without an id is rewritten.
pub mod Episodes
mod Tests
use trading_execution.Prelude.{
  Bool, true, false, not, Option, none, some, String, if◌then◌else◌, List, [], ◌∷◌,
}
use trading_execution.Json.{is_blank}

-- An episode as the latch holds it.
pub record Episode : Type 0 where
  pub episode : String
  pub since : String

-- The latch file.
pub data Latch : Type 0 where
  missing unreadable : Latch
  holds : Episode → Latch

-- The sentinel and the latch.
pub record Files : Type 0 where
  pub sentinel : Bool
  pub latch : Latch

-- `is_halted`
abbrev pub is_halted : Files → Bool
is_halted f = f.sentinel

-- `ensure_episode`: `fresh` is what a new one would be
unfoldable pub ensure_episode : Files → Episode → Episode × Files
ensure_episode f fresh = elim f.latch [
  | missing ↦ (fresh, record f { latch = holds fresh })
  | unreadable ↦ (fresh, record f { latch = holds fresh })
  | holds e ↦ if is_blank e.episode then (fresh, record f { latch = holds fresh }) else (e, f)
]

-- `read_episode`
unfoldable pub read_episode : Files → Option Episode
read_episode f = elim f.latch [ missing ↦ none | unreadable ↦ none | holds e ↦ some e ]

-- `resume`
unfoldable pub resume : Files → Files
resume f = record f { sentinel = false }

-- What happens to the files: the operator sets the sentinel or resumes, and the daemon looks for the
-- episode of a halt.
pub data Event : Type 0 where
  set resumed : Event
  looked : Episode → Event

unfoldable pub step : Files → Event → Files
unfolding ensure_episode resume
step f set = record f { sentinel = true }
step f resumed = resume f
step f (looked fresh) = if is_halted f then (ensure_episode f fresh).1 else f

unfoldable pub run : Files → List Event → Files
unfolding step
run f [] = f
run f (e ∷ es) = run (step f e) es
