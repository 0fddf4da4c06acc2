-- ===== src/Risk/Gate/Sized.antt =====
-- The bound on what a failure of a check may ask, and the rules by which a check keeps to it:
-- signald/risk/gate.py, `Failure`.
use trading_execution.Prelude.{
  ℕ, ◌<◌, ◌^◌, Bool, true, false, Option, none, some, String, ◌≡◌, refl, if◌then◌else◌, Bool-cases,
  if_intro, arith, inl, inr,
}
use trading_execution.Prelude.Int.{pos}
use trading_execution.Prelude.Float.{
  Float, fin, Arith, is_finite, leb_f, ltb_f, max_f, min_f, zero_f, one_f, ◌≤f◌, ≤f_refl,
  leb_f_of_ltb_f,
}
use trading_execution.Prelude.Results.{Result, ok, err, ◌>>=◌}
use trading_execution.Risk.Gate.Context.{
  Runtime, Exc, GateContext, Kind, Failure, blocked, reduced, soft, stage_kind,
}
use trading_execution.Risk.Gate.Projection.{projected_notional_per_risk, risk_to_fit}
use trading_execution.Risk.Gate.Capital.{fit_or_block}

-- What binary64 promises of a product with a factor below one, and of a difference, for a finite
-- x: rounding to nearest is monotone, and a comparison with NaN is false.
pub record LawfulArith (a : Arith) : Type 0 where
  pub mul-≤f :
      (x s : Float)
      → zero_f ≤f x
      → is_finite x ≡ true
      → is_finite s ≡ true
      → ltb_f s one_f ≡ true
      → a.mul x s ≤f x
  pub sub-≤f :
      (v x b : Float)
      → is_finite x ≡ true
      → leb_f (a.add v x) b ≡ false
      → ltb_f zero_f (a.sub b v) ≡ true
      → a.sub b v ≤f x

-- A failure that reduces names a risk of at most `most`.
unfoldable pub is_sized : Float → Failure → Bool
is_sized most f = elim f.kind [
  | Kind.block ↦ true
  | Kind.reduce ↦ elim f.adjusted_risk_pct [ none ↦ false | some x ↦ leb_f x most ]
]

unfoldable pub sized : Float → Option Failure → Bool
unfolding is_sized
sized most none = true
sized most (some f) = is_sized most f

-- What is sized here: `c` requests a finite risk that is not negative.
abbrev pub most_of : GateContext → Float
most_of c = c.request.requested_risk_pct

pub record Requests (c : GateContext) : Type 0 where
  pub finite : is_finite (most_of c) ≡ true
  pub positive : zero_f ≤f most_of c

abbrev pub IsSized : GateContext → Option Failure → Type 0
IsSized c o = sized (most_of c) o ≡ true

min-≤f : (x y : Float) → x ≤f x → min_f x y ≤f x
min-≤f x y h = elim (Bool-cases (ltb_f y x)) [
  | inl e ↦ rw (e) (leb_f_of_ltb_f y x e)
  | inr e ↦ rw (e) h
]

-- A check that raises is sized: it becomes a block.
unfoldable pub sized_run : Float → Result Exc (Option Failure) → Bool
unfolding sized
sized_run most (ok o) = sized most o
sized_run most (err e) = true

abbrev pub RunIsSized : GateContext → Result Exc (Option Failure) → Type 0
RunIsSized c r = sized_run (most_of c) r ≡ true

-- A factor that is not at least one, cut off at zero, is a number below one.
max_f-below :
    (k : ℕ) (s : Float)
    → 0 < k
    → leb_f (fin (pos k)) s ≡ false
    → (is_finite (max_f zero_f s) ≡ true) × (ltb_f (max_f zero_f s) (fin (pos k)) ≡ true)
unfolding leb_f ltb_f
max_f-below k s p h = ground arith

pub max_f-one :
    (s : Float)
    → leb_f one_f s ≡ false
    → (is_finite (max_f zero_f s) ≡ true) × (ltb_f (max_f zero_f s) one_f ≡ true)
unfolding one_f
max_f-one s h = max_f-below (2 ^ 1074) s (omega arith) h

-- The rules by which a check is sized.
module _ (c : GateContext) where
  pub if-IsSized :
      (b : Bool) (x y : Option Failure) → IsSized c x → IsSized c y → IsSized c (if b then x else y)
  if-IsSized b x y h k = if_intro (IsSized c) b h k

  pub none-IsSized : IsSized c none
  unfolding sized
  none-IsSized = refl

  pub blocked-IsSized : (check code : String) → IsSized c (blocked check code)
  unfolding sized is_sized
  blocked-IsSized check code = refl

  pub reduced-IsSized :
      (check code : String) (x : Float) → x ≤f most_of c → IsSized c (reduced check code x)
  unfolding sized is_sized
  reduced-IsSized check code x h = h

  pub soft-IsSized : (check code : String) → Requests c → IsSized c (soft c check code)
  unfolding sized is_sized stage_kind
  soft-IsSized check code h = ground (arith, ≤f_refl (most_of c) h.finite)

  pub if-RunIsSized :
      (b : Bool) (x y : Result Exc (Option Failure))
      → RunIsSized c x
      → RunIsSized c y
      → RunIsSized c (if b then x else y)
  if-RunIsSized b x y h k = if_intro (RunIsSized c) b h k

  pub ok-RunIsSized : (o : Option Failure) → IsSized c o → RunIsSized c (ok o)
  unfolding sized_run
  ok-RunIsSized o h = h

  pub err-RunIsSized : (e : Exc) → RunIsSized c (err e)
  unfolding sized_run
  err-RunIsSized e = refl

  pub >>=-RunIsSized :
      {A : Type 0} (m : Result Exc A) (f : A → Result Exc (Option Failure))
      → ((a : A) → RunIsSized c (f a))
      → RunIsSized c (m >>= f)
  >>=-RunIsSized (ok a) f h = h a
  >>=-RunIsSized (err e) f h = err-RunIsSized e

  pub most-≤f : Requests c → most_of c ≤f most_of c
  most-≤f h = ≤f_refl (most_of c) h.finite

module _ (rt : Runtime) where
  pub risk_to_fit-≤f :
      (c : GateContext) (room : Float) → Requests c → risk_to_fit rt c room ≤f most_of c
  unfolding risk_to_fit
  risk_to_fit-≤f c room h =
      let ratio = rt.a.div room (projected_notional_per_risk rt c.request) in
      ground (arith, h.positive, min-≤f (most_of c) ratio (≤f_refl (most_of c) h.finite))

  pub fit_or_block-IsSized :
      (c : GateContext) (check code none_left : String) (x : Float)
      → x ≤f most_of c
      → IsSized c (fit_or_block rt check code none_left x)
  fit_or_block-IsSized c check code none_left x h =
      search (if-IsSized, blocked-IsSized, reduced-IsSized)

  pub ruleset sized_rules = (
    if-IsSized, none-IsSized, blocked-IsSized, reduced-IsSized, soft-IsSized, most-≤f,
    fit_or_block-IsSized, risk_to_fit-≤f, if-RunIsSized, ok-RunIsSized, err-RunIsSized,
  )
