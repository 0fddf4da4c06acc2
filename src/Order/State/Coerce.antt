-- ===== src/Order/State/Coerce.antt =====
-- The coercions of broker fields: signald/order/state.py, `_opt_int`, `_opt_float`, `_opt_text`.
use trading_execution.Prelude.{Option, none, some, String, if◌then◌else◌}
use trading_execution.Prelude.Int.{ℤ}
use trading_execution.Prelude.Float.{Float, fin, Arith, is_finite, whole}
use trading_execution.Prelude.Results.{Result, ok, err}
use trading_execution.Json.{Value, null, bool, int, num, str, Text, to_text, is_blank, or_none}
use trading_execution.Order.State.Types.{Stop, bad, raised, overflow_error}

-- The part of `_opt_int` that reads a finite float.
unfoldable pub int_of_float : Float → String → Result Stop (Option ℤ)
int_of_float (fin n) code = elim (whole n) [ none ↦ err (bad code "") | some i ↦ ok (some i) ]
int_of_float _ code = err (bad code "")

-- `float(value)` has been read: the test that it is finite.
unfoldable pub finite : Float → String → Result Stop (Option Float)
finite x code = if is_finite x then ok (some x) else err (bad code "")

module _ (t : Text) where
  -- The part of `_opt_int` that reads a text.
  unfoldable pub int_of_text : String → String → Result Stop (Option ℤ)
  unfolding int_of_float
  int_of_text s code = if is_blank s then ok none else elim (t.parse_int s) [
    | some i ↦ ok (some i)
    | none ↦ elim (t.parse_float s) [ none ↦ err (bad code "") | some x ↦ int_of_float x code ]
  ]

  unfoldable pub opt_int : Value → String → Result Stop (Option ℤ)
  unfolding int_of_text int_of_float to_text
  opt_int null code = ok none
  opt_int (bool b) code = err (bad code "")
  opt_int (int i) code = ok (some i)
  opt_int (num x) code = int_of_float x code
  opt_int (str s) code = if is_blank s then ok none else int_of_text (t.strip s) code
  opt_int v code = int_of_text (t.strip (to_text t v)) code

  unfoldable pub opt_text : Value → Option String
  unfolding to_text
  opt_text null = none
  opt_text v = or_none (t.strip (to_text t v))

module _ (t : Text) (a : Arith) where
  unfoldable pub opt_float : Value → String → Result Stop (Option Float)
  unfolding finite
  opt_float null code = ok none
  opt_float (bool b) code = err (bad code "")
  opt_float (int i) code = elim (a.of_int i) [
    | none ↦ err (raised overflow_error)
    | some x ↦ finite x code
  ]
  opt_float (num x) code = finite x code
  opt_float (str s) code =
      if is_blank s
      then ok none
      else elim (t.parse_float s) [ none ↦ err (bad code "") | some x ↦ finite x code ]
  opt_float v code = err (bad code "")
