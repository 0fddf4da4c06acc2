-- ===== src/Order/Halts/Repeats.antt =====
-- Repeated calls of the halt machine: signald/order/halts.py, `HaltMachine.update`.
use trading_execution.Prelude.{ℕ, ◌≡◌, Bool, Option, arith}
use trading_execution.Prelude.Float.{Float}
use trading_execution.Order.Halts.{Machine, update}

-- A second update with the same arguments at the same time leaves the machine as the first left it.
pub update_idempotent :
    (m : Machine) (is_halt limit : Bool) (at : ℕ) (minutes : Option Float)
    → let n = update m is_halt limit at minutes in update n is_halt limit at minutes ≡ n
unfolding update
update_idempotent m is_halt limit at minutes = ground arith
