-- ===== src/Watchdog/Tests.antt =====
-- Runs of signald/watchdog.py.
use trading_execution.Prelude.{◌≡◌, refl, true, false, none, some, str_eq, if◌then◌else◌}
use trading_execution.Prelude.Int.{pos, neg_ℤ, ◌+ℤ◌}
use trading_execution.Prelude.Float.{sum_with, Float, fin, nan, Arith, leb_f, ltb_f}
use trading_execution.Json.{Text}
use trading_execution.Watchdog.{stale, heartbeat_age, check_heartbeat, nan_is_fresh}

abbrev less : Float → Float → Float
less (fin a) y = elim y [ fin b ↦ fin (a +ℤ neg_ℤ b) | _ ↦ nan ]
less _ y = nan

abbrev ticks : Arith
ticks = record {
  add = λ x y. x;
  sub = less;
  mul = λ x y. x;
  div = λ x y. x;
  of_int = λ n. some (fin n);
  sum = sum_with (λ x y. x) (fin (pos 0));
}

abbrev reads : Text
reads = record {
  strip = λ s. s;
  lower = λ s. s;
  upper = λ s. s;
  show = λ v. "";
  repr = λ v. "";
  parse_int = λ s. none;
  parse_float = λ s.
      if str_eq s "nan" then some nan else (if str_eq s "10" then some (fin (pos 10)) else none);
  contains = λ needle s. false;
}

nan_is_fresh_case :
    check_heartbeat ticks reads true (some "nan") (fin (pos 9999)) (fin (pos 120)) ≡ (true, none)
unfolding leb_f
nan_is_fresh_case =
    nan_is_fresh ticks reads true "nan" (fin (pos 9999)) (fin (pos 120)) refl refl refl

old :
    check_heartbeat ticks reads true (some "10") (fin (pos 140)) (fin (pos 120))
    ≡ (false, some record { loss = stale (fin (pos 130)); max_age = fin (pos 120) })
unfolding check_heartbeat heartbeat_age leb_f ltb_f ◌+ℤ◌
old = refl

torn : check_heartbeat ticks reads false (some "1x") (fin (pos 140)) (fin (pos 120)) ≡ (false, none)
unfolding check_heartbeat heartbeat_age
torn = refl
