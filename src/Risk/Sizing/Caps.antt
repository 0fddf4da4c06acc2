-- ===== src/Risk/Sizing/Caps.antt =====
-- The caps of the sizer: signald/risk/sizing.py, `size`.
use native.Mathlib.Nat.{div-mul-le_self}
use trading_execution.Prelude.{
  ℕ, ◌*◌, ◌^◌, ◌≤◌, ◌≡◌, refl, true, false, Option, none, some, arith, Option-cases, Bool-cases,
  ◌⊎◌, inl, inr, ltb, get_or, if_intro, ap, subst, not, ◌&&◌, ◌||◌,
}
use trading_execution.Prelude.Int.{pos, negsuc}
use trading_execution.Prelude.Float.{
  Float, fin, Arith, is_finite, ≤f_refl, ≤f_trans, ◌≤f◌, leb_f, ltb_f, leb_f_of_not_ltb_f,
  zero_f-≤f-zero_f, max_f, abs_f, zero_f, one_f,
}
use trading_execution.Risk.State.{RiskRequest, notional_per_share}
use trading_execution.Risk.Sizing.{
  SizingCaps, RiskDecision, Candidate, is_positive, finite_or_zero, tighter, floor_f, kelly_cap,
  scaled_budget, levered, decide_qty, size_validated, size, kelly_budget, qty_risk_of,
  qty_liquidity_of, qty_notional_of,
}

-- n shares, as an amount
unfoldable pub shares : ℕ → Float
shares n = fin (pos (n * 2 ^ 1074))

-- The amount x does not fall short of n shares.
abbrev pub Covers : Float → ℕ → Type 0
Covers x n = ltb_f x (shares n) ≡ false

-- The n shares are within the amount x, which is no NaN.
abbrev pub Buys : Float → ℕ → Type 0
Buys x n = shares n ≤f x

-- What binary64 promises: a product of finite numbers and a quotient by a positive number are no NaN.
pub record IsReal (a : Arith) : Type 0 where
  pub product : (x y : Float) → is_finite x ≡ true → is_finite y ≡ true → a.mul x y ≤f a.mul x y
  pub quotient : (x y : Float) → x ≤f x → is_positive y ≡ true → a.div x y ≤f a.div x y

-- The share of the volume, as the amount of shares that the participation cap leaves.
abbrev pub volume_share : Arith → RiskRequest → SizingCaps → Float
volume_share a r c =
    a.mul (finite_or_zero c.participation_cap_pct)
      (finite_or_zero (get_or r.trailing_volume zero_f))

-- What the leverage ceiling buys.
abbrev pub levered_shares : Arith → RiskRequest → Float → Float
levered_shares a r most =
    a.div (a.mul (finite_or_zero r.equity) (finite_or_zero most)) (abs_f r.price)

-- What a size keeps to, from the request and the caps.
pub record IsCapped (a : Arith) (r : RiskRequest) (c : SizingCaps) (vol : Float) (d : RiskDecision)
    : Type 0 where
  pub whole : 1 ≤ d.qty
  pub risk : Buys (a.div (a.mul (finite_or_zero r.equity) d.risk_pct) r.stop_distance) d.qty
  pub liquidity : Buys (volume_share a r c) d.qty
  pub notional : Buys (a.div (finite_or_zero c.sleeve_notional_room_usd) (abs_f r.price)) d.qty
  pub leverage :
      (c.max_leverage_pct ≡ none)
      ⊎ ((most : Float) × (c.max_leverage_pct ≡ some most) × Buys (levered_shares a r most) d.qty)
  pub budget :
      (least : Float) × (least ≤f finite_or_zero r.requested_risk_pct)
      × (least ≤f finite_or_zero c.sleeve_risk_remaining_pct)
      × (least ≤f finite_or_zero c.house_heat_remaining_pct)
      × (d.risk_pct ≤f max_f zero_f (a.mul least vol))
  pub edge :
      (e : Float) × (c.validated_edge ≡ some e)
      × (d.risk_pct
          ≤f kelly_cap a e c.kelly_fraction (get_or c.kelly_win_loss_ratio one_f) c.kelly_shrink)
  pub stop : is_positive r.stop_distance ≡ true
  pub price : is_positive r.price ≡ true
  pub scalar : is_positive vol ≡ true

shares_number : (n : ℕ) → shares n ≤f shares n
unfolding shares leb_f
shares_number n = ground arith

Buys_lem : (x : Float) (n : ℕ) → x ≤f x → Covers x n → Buys x n
Buys_lem x n h k = leb_f_of_not_ltb_f x (shares n) h (shares_number n) k

finite_lem : (x : Float) → is_finite (finite_or_zero x) ≡ true
finite_lem x = ground arith

max_number : (x : Float) → max_f zero_f x ≤f max_f zero_f x
unfolding leb_f ltb_f
max_number x = ground arith

kelly_number : (a : Arith) (e f r s : Float) → kelly_cap a e f r s ≤f kelly_cap a e f r s
unfolding kelly_cap
kelly_number a e f r s =
    let P = λ (x : Float). x ≤f x in
    if_intro P (not (is_finite e && (is_finite f && is_finite s))) zero_f-≤f-zero_f (
      if_intro P (leb_f f zero_f || leb_f s zero_f) zero_f-≤f-zero_f
        (if_intro P (not (is_finite r) || leb_f r zero_f) zero_f-≤f-zero_f (max_number _)))

-- The tighter of two numbers is a number, and above neither.
tighter_lem :
    (x y : Candidate)
    → x.amount ≤f x.amount
    → y.amount ≤f y.amount
    → ((tighter x y).amount ≤f (tighter x y).amount)
      × ((tighter x y).amount ≤f x.amount)
      × ((tighter x y).amount ≤f y.amount)
unfolding tighter ltb_f leb_f
tighter_lem x y h k = ground arith

abs_positive : (x : Float) → is_positive x ≡ true → is_positive (abs_f x) ≡ true
unfolding ltb_f
abs_positive x h = ground arith

volume_lem :
    (o : Option Float)
    → elim o [ none ↦ zero_f | some x ↦ finite_or_zero x ] ≡ finite_or_zero (get_or o zero_f)
volume_lem none = refl
volume_lem (some x) = refl

-- The tighter of two is covered by what covers it.
tighter-Covers :
    (x y : Candidate) (n : ℕ)
    → Covers (tighter x y).amount n
    → (tighter x y).amount ≤f (tighter x y).amount
    → Covers x.amount n × Covers y.amount n × (x.amount ≤f x.amount)
unfolding tighter ltb_f leb_f shares
tighter-Covers x y n h f = ground arith

floor_f-Covers : (x : Float) → is_finite x ≡ true → ltb (floor_f x) 1 ≡ false → Covers x (floor_f x)
unfolding floor_f ltb_f shares
floor_f-Covers (fin (pos n)) f h = ground (arith, div-mul-le_self n (2 ^ 1074))
floor_f-Covers (fin (negsuc n)) f h = ground arith
floor_f-Covers _ f h = ground arith

one_≤ : (n : ℕ) → ltb n 1 ≡ false → 1 ≤ n
one_≤ n h = ground arith

module _ (a : Arith) (r : RiskRequest) (c : SizingCaps) where
  -- The quantity is within what the leverage ceiling buys, where there is one.
  abbrev IsLevered : ℕ → Type 0
  IsLevered n =
      (c.max_leverage_pct ≡ none)
      ⊎ ((most : Float) × (c.max_leverage_pct ≡ some most) × Covers (levered_shares a r most) n)

  levered-Covers :
      (x : Candidate) (n : ℕ)
      → Covers (levered a r c x).amount n
      → (levered a r c x).amount ≤f (levered a r c x).amount
      → Covers x.amount n × (x.amount ≤f x.amount) × IsLevered n
  unfolding levered notional_per_share
  levered-Covers x n h f = elim (Option-cases c.max_leverage_pct) [
    | inl e ↦ (rw (e, levered) at h, rw (e, levered) at f, inl e)
    | inr (most, e) ↦
        let k = tighter-Covers x _ n (rw (e, levered) at h) (rw (e, levered) at f) in
        (k.0, k.2, inr (most, e, k.1))
  ]

  -- A decision on a quantity, against its candidates.
  abbrev IsWhole : Candidate → Float → Float → Float → RiskDecision → Type 0
  IsWhole budget risk liquidity notional d =
      (1 ≤ d.qty)
      × (d.risk_pct ≡ budget.amount)
      × Covers risk d.qty
      × (risk ≤f risk)
      × Covers liquidity d.qty
      × Covers notional d.qty
      × IsLevered d.qty

  -- The least of the candidates.
  abbrev raw : Candidate → Float → Float → Float → Candidate
  raw budget risk liquidity notional = levered a r c (
      tighter
        (tighter (record { amount = risk; name = budget.name })
          (record { amount = liquidity; name = "liquidity" }))
        (record { amount = notional; name = "notional" }))

  raw-Covers :
      (budget : Candidate) (risk liquidity notional : Float) (n : ℕ)
      → Covers (raw budget risk liquidity notional).amount n
      → is_finite (raw budget risk liquidity notional).amount ≡ true
      → Covers risk n × (risk ≤f risk) × Covers liquidity n × Covers notional n × IsLevered n
  raw-Covers budget risk liquidity notional n h f =
      let outer = levered-Covers _ n h (≤f_refl _ f) in
      let middle = tighter-Covers _ _ n outer.0 outer.1 in
      let inner = tighter-Covers _ _ n middle.0 middle.2 in
      (inner.0, inner.2, inner.1, middle.1, outer.2)

  decide_qty-IsWhole :
      (budget : Candidate) (risk liquidity notional : Float)
      → (decide_qty a r c budget risk liquidity notional).ok ≡ true
      → IsWhole budget risk liquidity notional (decide_qty a r c budget risk liquidity notional)
  unfolding decide_qty
  decide_qty-IsWhole budget risk liquidity notional h =
      let x = (raw budget risk liquidity notional).amount in
      elim (Bool-cases (is_finite x)) [
        | inr e ↦ let no : false ≡ true = rw (e, decide_qty) at h in cc
        | inl e ↦ elim (Bool-cases (ltb (floor_f x) 1)) [
          | inl k ↦ let no : false ≡ true = rw (e, k, decide_qty) at h in cc
          | inr k ↦
              let caps =
                raw-Covers budget risk liquidity notional (floor_f x) (floor_f-Covers x e k) e in
              rw (e, k, decide_qty)
                (one_≤ (floor_f x) k, refl, caps.0, caps.1, caps.2, caps.3, caps.4)
        ]
      ]

  -- The tightest budget, scaled, and the cap of Kelly.
  budget_lem :
      (vol e : Float)
      → ((least : Float) × (least ≤f finite_or_zero r.requested_risk_pct)
          × (least ≤f finite_or_zero c.sleeve_risk_remaining_pct)
          × (least ≤f finite_or_zero c.house_heat_remaining_pct)
          × ((kelly_budget a r c vol e).amount ≤f max_f zero_f (a.mul least vol)))
        × ((kelly_budget a r c vol e).amount
            ≤f kelly_cap a e c.kelly_fraction (get_or c.kelly_win_loss_ratio one_f) c.kelly_shrink)
  unfolding kelly_budget scaled_budget
  budget_lem vol e =
      let number = λ (x : Float). ≤f_refl (finite_or_zero x) (finite_lem x) in
      let first =
        tighter_lem (record { amount = finite_or_zero r.requested_risk_pct; name = "risk" })
          (record { amount = finite_or_zero c.sleeve_risk_remaining_pct; name = "sleeve" })
          (number r.requested_risk_pct) (number c.sleeve_risk_remaining_pct) in
      let both =
        tighter_lem _ (record { amount = finite_or_zero c.house_heat_remaining_pct; name = "heat" })
          first.0 (number c.house_heat_remaining_pct) in
      let last =
        tighter_lem (scaled_budget a r c vol)
          (record {
            amount =
                kelly_cap a e c.kelly_fraction (get_or c.kelly_win_loss_ratio one_f) c.kelly_shrink;
            name = "kelly";
          })
          (max_number _) (kelly_number a e _ _ _) in
      ((_, ≤f_trans _ _ _ both.1 first.1, ≤f_trans _ _ _ both.1 first.2, both.2, last.1), last.2)

  volume_same : qty_liquidity_of a r c ≡ volume_share a r c
  unfolding qty_liquidity_of
  volume_same = ap (a.mul (finite_or_zero c.participation_cap_pct)) (volume_lem r.trailing_volume)

  module _ (real : IsReal a) where
    volume_number : volume_share a r c ≤f volume_share a r c
    volume_number = real.product _ _ (finite_lem _) (finite_lem _)

    liquidity_lem : (n : ℕ) → Covers (qty_liquidity_of a r c) n → Buys (volume_share a r c) n
    liquidity_lem n h = Buys_lem _ n volume_number (subst (λ x. Covers x n) volume_same h)

    room_number :
        is_positive r.price ≡ true
        → a.div (finite_or_zero c.sleeve_notional_room_usd) (abs_f r.price)
          ≤f a.div (finite_or_zero c.sleeve_notional_room_usd) (abs_f r.price)
    room_number h = real.quotient _ _ (≤f_refl _ (finite_lem _)) (abs_positive r.price h)

    leverage_lem :
        (n : ℕ)
        → is_positive r.price ≡ true
        → IsLevered n
        → (c.max_leverage_pct ≡ none)
          ⊎ ((most : Float) × (c.max_leverage_pct ≡ some most) × Buys (levered_shares a r most) n)
    leverage_lem n h (inl e) = inl e
    leverage_lem n h (inr (most, e, k)) = inr (
      most,
      e,
      Buys_lem _ n
          (real.quotient _ _ (real.product _ _ (finite_lem _) (finite_lem _))
            (abs_positive r.price h))
          k,
    )

    size_validated-IsCapped :
        (vol edge : Float)
        → is_positive r.stop_distance ≡ true
        → is_positive vol ≡ true
        → c.validated_edge ≡ some edge
        → (size_validated a r c vol edge).ok ≡ true
        → IsCapped a r c vol (size_validated a r c vol edge)
    unfolding size_validated qty_risk_of qty_notional_of notional_per_share
    size_validated-IsCapped vol edge s v k h = elim (Bool-cases (is_positive r.price)) [
      | inr e ↦ let no : false ≡ true = rw (e, size_validated) at h in cc
      | inl e ↦
          let (budget, kelly) = budget_lem vol edge in
          let w =
            decide_qty-IsWhole (kelly_budget a r c vol edge)
              (qty_risk_of a r (kelly_budget a r c vol edge)) (qty_liquidity_of a r c)
              (qty_notional_of a r c) (rw (e, size_validated) at h) in
          rw (e, size_validated)
            (record {
              whole = w.0;
              risk = rw w.1 (Buys_lem _ _ w.3 w.2);
              liquidity = liquidity_lem _ w.4;
              notional = Buys_lem _ _ (room_number e) w.5;
              leverage = leverage_lem _ e w.6;
              budget = rw w.1 budget;
              edge = (edge, k, rw w.1 kelly);
              stop = s;
              price = e;
              scalar = v;
            })
    ]

    -- A size that is given is at least one share, and as an amount of shares it is within each of these,
    -- computed from the request and the caps: what the risk percentage of the decision buys at the stop
    -- distance, the participation cap's share of the trailing volume, what the room of the sleeve buys at
    -- the price, and what the leverage ceiling buys, where there is one. That risk percentage is within
    -- the Kelly cap of a validated edge and within the least of the requested risk, the sleeve's and the
    -- house's, scaled by the volatility. A size is given only for a stop distance, a price and a scalar
    -- that are positive numbers. The arithmetic must be one in which a product of finite numbers, and a
    -- quotient of a number by a positive finite one, are no NaN.
    pub size-IsCapped :
        (vol : Float) → (size a r c vol).ok ≡ true → IsCapped a r c vol (size a r c vol)
    unfolding size
    size-IsCapped vol h = elim (Bool-cases (is_positive r.stop_distance)) [
      | inr e ↦ let no : false ≡ true = rw (e, size) at h in cc
      | inl e ↦ elim (Option-cases c.validated_edge) [
        | inl k ↦ let no : false ≡ true = rw (e, k, size) at h in cc
        | inr (edge, k) ↦ elim (Bool-cases (is_positive vol)) [
          | inr l ↦ let no : false ≡ true = rw (e, k, l, size) at h in cc
          | inl l ↦
              let same : size a r c vol ≡ size_validated a r c vol edge = rw (e, k, l, size) refl in
              rw same (size_validated-IsCapped vol edge e l k (rw same at h))
        ]
      ]
    ]
