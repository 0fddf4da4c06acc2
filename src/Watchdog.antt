-- ===== src/Watchdog.antt =====
-- The watchdog: signald/watchdog.py. The reading of the heartbeat's file is an argument, `none` where it
-- is missing or cannot be read; so are the clock and the conversions of Python's runtime. The text of the
-- event is not modelled.
mod Tests
use trading_execution.Prelude.{
  ◌≡◌, ◌∙◌, ap, Bool, true, false, Option, none, some, String, arith, if◌then◌else◌,
}
use trading_execution.Prelude.Float.{Float, nan, Arith, ◌≤f◌, leb_f, ltb_f, zero_f, max_f}
use trading_execution.Json.{Text}

-- Why the heartbeat is lost, as the event says it.
pub data Loss : Type 0 where
  missing : Loss
  stale : Float → Loss

-- The event `heartbeat_loss`.
pub record Event : Type 0 where
  pub loss : Loss
  pub max_age : Float

module _ (a : Arith) (t : Text) where
  -- the age of a heartbeat that was read, if it is a number
  abbrev pub age_from : Float → Option Float → Option Float
  age_from now none = none
  age_from now (some written) = some (max_f zero_f (a.sub now written))

  -- `heartbeat_age_seconds`
  unfoldable pub heartbeat_age : Option String → Float → Option Float
  heartbeat_age none now = none
  heartbeat_age (some text) now = age_from now (t.parse_float (t.strip text))

  -- the loss that is left of an age, if any
  abbrev pub loss_of : Option Float → Float → Option Loss
  loss_of none max_age = some missing
  loss_of (some age) max_age = if leb_f age max_age then none else some (stale age)

  -- the answer, and what is sent where the notifier is enabled
  abbrev pub answer : Bool → Float → Option Loss → Bool × Option Event
  answer enabled max_age none = (true, none)
  answer enabled max_age (some l) =
      (false, if enabled then some record { loss = l; max_age = max_age } else none)

  unfoldable pub check_heartbeat : Bool → Option String → Float → Float → Bool × Option Event
  unfolding heartbeat_age
  check_heartbeat enabled file now max_age =
      answer enabled max_age (loss_of (heartbeat_age file now) max_age)

  max_f_nan : (y : Float) → y ≡ nan → max_f zero_f y ≡ zero_f
  unfolding ltb_f
  max_f_nan y h = rw h

  -- A heartbeat whose text reads as NaN is fresh at every moment.
  pub nan_is_fresh :
      (enabled : Bool) (text : String) (now max_age : Float)
      → t.parse_float (t.strip text) ≡ some nan
      → a.sub now nan ≡ nan
      → zero_f ≤f max_age
      → check_heartbeat enabled (some text) now max_age ≡ (true, none)
  unfolding check_heartbeat heartbeat_age
  nan_is_fresh enabled text now max_age read no_number fits =
      let say = λ (l : Option Loss). answer enabled max_age l in
      ap (λ o. say (loss_of (age_from now o) max_age)) read
      ∙ ap (λ y. say (loss_of (some y) max_age)) (max_f_nan (a.sub now nan) no_number)
      ∙ ap (λ c. say (if c then none else some (stale zero_f))) fits
