-- ===== src/Store/KillSwitch/Episodes.antt =====
-- The episode over any sequence of halts and resumptions: signald/kill_switch.py.
use trading_execution.Prelude.{◌≡◌, if_intro, false, List, [], ◌∷◌, arith}
use trading_execution.Json.{is_blank}
use trading_execution.Store.KillSwitch.{
  Episode, holds, Files, ensure_episode, resume, Event, set, resumed, looked, step, run,
}

ensure_lem :
    (f : Files) (ep fresh : Episode)
    → f.latch ≡ holds ep
    → is_blank ep.episode ≡ false
    → ((ensure_episode f fresh).0 ≡ ep) × ((ensure_episode f fresh).1.latch ≡ holds ep)
unfolding ensure_episode
ensure_lem f ep fresh h b = ground (arith, h, b)

step_lem :
    (f : Files) (e : Event) (ep : Episode)
    → f.latch ≡ holds ep
    → is_blank ep.episode ≡ false
    → (step f e).latch ≡ holds ep
unfolding step resume
step_lem f set ep h b = h
step_lem f resumed ep h b = h
step_lem f (looked fresh) ep h b =
    if_intro (λ (x : Files). x.latch ≡ holds ep) f.sentinel (ensure_lem f ep fresh h b).1 h

run_lem :
    (f : Files) (es : List Event) (ep : Episode)
    → f.latch ≡ holds ep
    → is_blank ep.episode ≡ false
    → (run f es).latch ≡ holds ep
unfolding run
run_lem f [] ep h b = h
run_lem f (e ∷ es) ep h b = run_lem (step f e) es ep (step_lem f e ep h b) b

-- The first episode is the last: once the latch holds an episode with an id, every later look finds that
-- one, over any sequence of resumptions and new halts.
pub episode_is_reused :
    (f : Files) (es : List Event) (ep fresh : Episode)
    → f.latch ≡ holds ep
    → is_blank ep.episode ≡ false
    → (ensure_episode (run f es) fresh).0 ≡ ep
episode_is_reused f es ep fresh h b = (ensure_lem (run f es) ep fresh (run_lem f es ep h b) b).0
