-- ===== src/Order/Halts/ClosedOut.antt =====
-- Halts near the close: signald/order/halts.py, `HaltMachine`.
use trading_execution.Prelude.{ℕ, ◌≡◌, Bool, true, false, Option, List, [], ◌∷◌, arith}
use trading_execution.Prelude.Float.{Float}
use trading_execution.Order.Halts.{Machine, Op, Phase, near_close, step, run, update, snapshot}

abbrev pub IsClosedOut : Machine → Type 0
IsClosedOut m = (m.no_reopen ≡ true) × (m.phase ≡ Phase.halted)

step-IsClosedOut : (m : Machine) (o : Op) → IsClosedOut m → IsClosedOut (step m o)
unfolding step
step-IsClosedOut m (Op.observe is_halt limit at minutes) h = ground arith
step-IsClosedOut m (Op.reopen at) h = ground arith

run-IsClosedOut : (m : Machine) (os : List Op) → IsClosedOut m → IsClosedOut (run m os)
unfolding run
run-IsClosedOut m [] h = h
run-IsClosedOut m (o ∷ os) h = run-IsClosedOut (step m o) os (step-IsClosedOut m o h)

update-IsClosedOut :
    (m : Machine) (limit : Bool) (at : ℕ) (minutes : Option Float)
    → near_close minutes ≡ true
    → IsClosedOut (update m true limit at minutes)
unfolding update
update-IsClosedOut m limit at minutes h = ground arith

snapshot-IsClosedOut :
    (m : Machine) (at : ℕ)
    → IsClosedOut m
    → ((snapshot m at).allow_entries ≡ false) × ((snapshot m at).allow_exits ≡ false)
unfolding snapshot
snapshot-IsClosedOut m at h = ground arith

-- Whatever the machine did before: once an update sees a halt within ten minutes of the close, no
-- later sequence of updates and reopens allows an entry or a marketable exit again.
pub closed_out_forever :
    (m : Machine) (limit : Bool) (at : ℕ) (minutes : Option Float) (os : List Op) (later : ℕ)
    → near_close minutes ≡ true
    → let s = snapshot (run (update m true limit at minutes) os) later in
      (s.allow_entries ≡ false) × (s.allow_exits ≡ false)
closed_out_forever m limit at minutes os later h =
    snapshot-IsClosedOut (run (update m true limit at minutes) os) later (
      run-IsClosedOut (update m true limit at minutes) os (update-IsClosedOut m limit at minutes h))
