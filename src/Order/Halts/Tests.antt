-- ===== src/Order/Halts/Tests.antt =====
-- The halts of one day, and the theorems on them.
use trading_execution.Prelude.{◌≡◌, refl, true, false, none, some, List, [], ◌∷◌, ◌++◌, arith}
use trading_execution.Prelude.Float.{leb_f}
use trading_execution.Order.Halts.{
  Phase, Reason, Machine, Op, snapshot, update, step, run, near_close, ten_f, note_reopen, on_halt,
  on_limit, on_closed_out, clear, decay, enter, elapsed,
}
use trading_execution.Order.Halts.Cooldown.{shut_until_cooldown}
use trading_execution.Order.Halts.ClosedOut.{closed_out_forever}
use trading_execution.Order.Halts.Repeats.{update_idempotent}

-- Halted at noon, with a cooldown of 300.
abbrev at_noon : Machine
at_noon = record {
  cooldown_us = 300;
  phase = Phase.halted;
  reason = Reason.halt;
  since = some 1200;
  reopen_at = none;
  no_reopen = false;
}

-- It clears, reopens, and is seen calm again.
abbrev after_noon : List Op
after_noon =
    Op.observe false false 1300 none ∷ Op.reopen 1400 ∷ Op.observe false false 1500 none ∷ []

opens_at_last :
    (snapshot
      (run at_noon (after_noon ++ (Op.observe false false 1700 none ∷ [])))
      1700).allow_entries
    ≡ true
unfolding snapshot run step update note_reopen on_halt on_limit on_closed_out clear decay enter
    elapsed
opens_at_last = refl

shut_until_cooldown_example : (snapshot (run at_noon after_noon) 1600).allow_entries ≡ false
shut_until_cooldown_example =
    shut_until_cooldown 1700 after_noon at_noon 1600 (omega arith)
      (omega arith, ((omega arith, omega arith), (omega arith, tt))) (refl, λ h. cc)

ten_near : near_close (some ten_f) ≡ true
unfolding leb_f
ten_near = refl

closed_out_forever_example :
    ((snapshot (run (update at_noon true false 1900 (some ten_f)) after_noon) 2000).allow_entries
      ≡ false)
    × ((snapshot (run (update at_noon true false 1900 (some ten_f)) after_noon) 2000).allow_exits
        ≡ false)
closed_out_forever_example =
    closed_out_forever at_noon false 1900 (some ten_f) after_noon 2000 ten_near

update_idempotent_example :
    update (update at_noon false false 1900 none) false false 1900 none
    ≡ update at_noon false false 1900 none
update_idempotent_example = update_idempotent at_noon false false 1900 none
