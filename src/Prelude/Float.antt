-- ===== src/Prelude/Float.antt =====
-- Python's `float`, an IEEE-754 binary64. Every finite binary64 value is a whole multiple of
-- 2^-1074, so comparison, negation, absolute value, `min` and `max` are exact here; the operations
-- that round (+, -, *, /) are fields of `Arith`, on which a component is parametrised. The two
-- zeros are one value: no modelled operation tells them apart.
use Prim.Native.Nat.{suc, ◌^◌, ◌%◌, ◌/◌}
use mathlib.Core.Path.{◌≡◌, refl}
use mathlib.Core.Bool.{Bool, true, false}
use mathlib.Core.Option.{Option, none, some}
use mathlib.Core.List.{List, [], ◌∷◌}
use native.Mathlib.Omega.{arith}
use trading_execution.Prelude.Tests.{if◌then◌else◌, ◌==◌}
use trading_execution.Prelude.Int.{ℤ, pos, negsuc, ltb_ℤ, leb_ℤ, neg_ℤ}

-- `fin n` is n * 2^-1074.
pub data Float : Type 0 where
  nan inf neg_inf : Float
  fin : ℤ → Float

-- `math.isfinite`
abbrev pub is_finite : Float → Bool
is_finite (fin n) = true
is_finite nan = false
is_finite inf = false
is_finite neg_inf = false

-- `x <= y`: false as soon as one side is NaN.
unfoldable pub leb_f : Float → Float → Bool
leb_f nan y = false
leb_f inf y = elim y [ inf ↦ true | _ ↦ false ]
leb_f neg_inf y = elim y [ nan ↦ false | _ ↦ true ]
leb_f (fin a) y = elim y [ nan ↦ false | inf ↦ true | neg_inf ↦ false | fin b ↦ leb_ℤ a b ]

-- `x < y`
unfoldable pub ltb_f : Float → Float → Bool
ltb_f nan y = false
ltb_f inf y = false
ltb_f neg_inf y = elim y [ nan ↦ false | neg_inf ↦ false | _ ↦ true ]
ltb_f (fin a) y = elim y [ nan ↦ false | inf ↦ true | neg_inf ↦ false | fin b ↦ ltb_ℤ a b ]

-- `x == y`
abbrev pub eqb_f : Float → Float → Bool
eqb_f x y = if leb_f x y then leb_f y x else false

-- `-x`
abbrev pub neg_f : Float → Float
neg_f nan = nan
neg_f inf = neg_inf
neg_f neg_inf = inf
neg_f (fin n) = fin (neg_ℤ n)

abbrev pub zero_f : Float
zero_f = fin (pos 0)

-- `abs(x)`
abbrev pub abs_f : Float → Float
abs_f x = if ltb_f x zero_f then neg_f x else x

-- `max(x, y)`: Python keeps the first unless the second is greater.
abbrev pub max_f : Float → Float → Float
max_f x y = if ltb_f x y then y else x

-- `min(x, y)`: Python keeps the first unless the second is smaller.
abbrev pub min_f : Float → Float → Float
min_f x y = if ltb_f y x then y else x

-- The order as a proposition.
abbrev pub ◌≤f◌ : Float → Float → Type 0
x ≤f y = leb_f x y ≡ true

infix 50 ◌≤f◌
-- 1.0 and 0.5, which are 2^1074 and 2^1073 units.
unfoldable pub one_f : Float
one_f = fin (pos (2 ^ 1074))

unfoldable pub half_f : Float
half_f = fin (pos (2 ^ 1073))

-- `int(x)` of a float that `is_integer()`; `none` for one that has a fractional part.
unfoldable pub whole : ℤ → Option ℤ
whole (pos n) = if n % 2 ^ 1074 == 0 then some (pos (n / 2 ^ 1074)) else none
whole (negsuc n) = if suc n % 2 ^ 1074 == 0 then some (neg_ℤ (pos (suc n / 2 ^ 1074))) else none

-- The rounding operations of binary64, and the conversions of Python.
pub record Arith : Type 0 where
  pub add : Float → Float → Float
  pub sub : Float → Float → Float
  pub mul : Float → Float → Float
  -- for a divisor that is not zero
  pub div : Float → Float → Float
  -- `float(n)` for an int: `none` is OverflowError
  pub of_int : ℤ → Option Float
  -- `float(sum(xs))` of floats, which is compensated from Python 3.12 on
  pub sum : List Float → Float

-- The sum from the left on, a concrete function for `Arith.sum`.
abbrev pub sum_with : (Float → Float → Float) → Float → List Float → Float
sum_with add total [] = total
sum_with add total (x ∷ xs) = sum_with add (add total x) xs

pub ≤f_trans : (x y z : Float) → x ≤f y → y ≤f z → x ≤f z
unfolding leb_f
≤f_trans x y z h k = ground arith

pub ≤f_refl : (x : Float) → is_finite x ≡ true → x ≤f x
unfolding leb_f
≤f_refl x h = ground arith

-- A comparison that holds both ways round as `<` and `<=` is a contradiction.
pub ltb_f-leb_f : (x y : Float) → ltb_f x y ≡ true → leb_f y x ≡ true → ⊥
unfolding ltb_f leb_f
ltb_f-leb_f x y h k = ground arith

pub leb_f_of_ltb_f : (x y : Float) → ltb_f x y ≡ true → x ≤f y
unfolding ltb_f leb_f
leb_f_of_ltb_f x y h = ground arith

-- Among numbers that are not NaN, what is not smaller is at least as great.
pub leb_f_of_not_ltb_f : (x y : Float) → x ≤f x → y ≤f y → ltb_f x y ≡ false → y ≤f x
unfolding ltb_f leb_f
leb_f_of_not_ltb_f x y h k l = ground arith

pub zero_f-≤f-half_f : zero_f ≤f half_f
unfolding leb_f half_f
zero_f-≤f-half_f = refl

pub zero_f-≤f-one_f : zero_f ≤f one_f
unfolding leb_f one_f
zero_f-≤f-one_f = refl

pub zero_f-≤f-zero_f : zero_f ≤f zero_f
unfolding leb_f
zero_f-≤f-zero_f = refl

pub half_f-≤f-half_f : half_f ≤f half_f
unfolding leb_f half_f
half_f-≤f-half_f = refl

pub half_f-≤f-one_f : half_f ≤f one_f
unfolding leb_f half_f one_f
half_f-≤f-one_f = refl

pub one_f-≤f-one_f : one_f ≤f one_f
unfolding leb_f one_f
one_f-≤f-one_f = refl

pub ruleset sizes = (
  zero_f-≤f-half_f, zero_f-≤f-one_f, zero_f-≤f-zero_f, half_f-≤f-half_f, half_f-≤f-one_f,
  one_f-≤f-one_f,
)
