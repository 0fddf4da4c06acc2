-- ===== src/Store/KillSwitch/Tests.antt =====
-- Two halts, and the theorem on them.
use trading_execution.Prelude.{◌≡◌, refl, true, [], ◌∷◌}
use trading_execution.Store.KillSwitch.{Episode, holds, Files, ensure_episode, set, resumed, run}
use trading_execution.Store.KillSwitch.Episodes.{episode_is_reused}

abbrev first : Episode
first = record { episode = "e1"; since = "t1" }

abbrev second : Episode
second = record { episode = "e2"; since = "t2" }

abbrev files : Files
files = record { sentinel = true; latch = holds first }

-- The second halt is recorded as the first one, with the moment of the first.
episode_is_reused_test : (ensure_episode (run files (resumed ∷ set ∷ [])) second).0 ≡ first
episode_is_reused_test = episode_is_reused files (resumed ∷ set ∷ []) first second refl refl
