-- ===== src/Order/Stops/SafeSide.antt =====
-- The limit of a protective order: signald/order/stops.py, `protective_limit`.
use trading_execution.Prelude.{
  ◌≡◌, sym, subst, ◌∙◌, Bool, true, false, String, arith, inl, inr, Bool-cases, str_eq, [], ◌∷◌,
}
use trading_execution.Json.{one_of}
use trading_execution.Prelude.Float.{Float, abs_f, leb_f, ltb_f, is_finite}
use trading_execution.Prelude.Results.{Result, ok, >>=-eq-ok, guard-eq-ok}
use trading_execution.Order.Policy.{ten_thousand_f}
use trading_execution.Order.Prices.{round_price}
use trading_execution.Order.Stops.{
  Tools, snapped, limit_below, limit_above, limit_beside, normal, protective_limit, is_positive,
}

-- On the price grid one tick can be told apart up to a bound, which for binary64 may be 2^46: the price
-- below one that stands on the grid is smaller, and the one above it greater. A snapped price is finite.
pub record LawfulTick (w : Tools) (bound : Float) : Type 0 where
  pub below :
      (x t l : Float)
      → snapped w x ≡ ok t
      → leb_f (abs_f t) bound ≡ true
      → snapped w (w.r.a.sub t w.tick) ≡ ok l
      → ltb_f l t ≡ true
  pub above :
      (x t l : Float)
      → snapped w x ≡ ok t
      → leb_f (abs_f t) bound ≡ true
      → snapped w (w.r.a.add t w.tick) ≡ ok l
      → ltb_f t l ≡ true
  pub number : (x t : Float) → snapped w x ≡ ok t → is_finite t ≡ true

not_below :
    (l t : Float) → is_finite l ≡ true → is_finite t ≡ true → leb_f t l ≡ false → ltb_f l t ≡ true
unfolding leb_f ltb_f
not_below l t f g h = ground arith

module _ (w : Tools) (bound : Float) (law : LawfulTick w bound) where
  below_lem :
      (x t offset l : Float)
      → snapped w x ≡ ok t
      → leb_f (abs_f t) bound ≡ true
      → limit_below w t offset ≡ ok l
      → ltb_f l t ≡ true
  unfolding limit_below
  below_lem x t offset l s b h =
      let (limit, a, h1) = >>=-eq-ok (snapped w (w.r.a.sub t offset)) _ h in
      elim (Bool-cases (leb_f t limit)) [
        | inl e ↦ law.below x t l s b (rw e at h1)
        | inr e ↦
            let done : ◌≡◌ {A = Result String Float} (ok limit) (ok l) = rw e at h1 in
            let same : limit ≡ l = cc done in
            subst (λ y. ltb_f y t ≡ true) same
              (not_below limit t (law.number (w.r.a.sub t offset) limit a) (law.number x t s) e)
      ]

  above_lem :
      (x t offset l : Float)
      → snapped w x ≡ ok t
      → leb_f (abs_f t) bound ≡ true
      → limit_above w t offset ≡ ok l
      → ltb_f t l ≡ true
  unfolding limit_above
  above_lem x t offset l s b h =
      let (limit, a, h1) = >>=-eq-ok (snapped w (w.r.a.add t offset)) _ h in
      elim (Bool-cases (leb_f limit t)) [
        | inl e ↦ law.above x t l s b (rw e at h1)
        | inr e ↦
            let done : ◌≡◌ {A = Result String Float} (ok limit) (ok l) = rw e at h1 in
            let same : limit ≡ l = cc done in
            subst (λ y. ltb_f t y ≡ true) same
              (not_below t limit (law.number x t s) (law.number (w.r.a.add t offset) limit a) e)
      ]

  abbrev pub IsBeyond : Bool → Float → Float → Type 0
  IsBeyond true level limit = ltb_f limit level ≡ true
  IsBeyond false level limit = ltb_f level limit ≡ true

  beside_lem :
      (x t offset l : Float) (side : String)
      → snapped w x ≡ ok t
      → leb_f (abs_f t) bound ≡ true
      → limit_beside w side t offset ≡ ok l
      → IsBeyond (str_eq side "sell") t l
  beside_lem x t offset l side s b h = elim (Bool-cases (str_eq side "sell")) [
    | inl e ↦ rw e (below_lem x t offset l s b (rw e at h))
    | inr e ↦ rw e (above_lem x t offset l s b (rw e at h))
  ]

  same_level : {a b : Float} → ◌≡◌ {A = Result String Float} (ok a) (ok b) → a ≡ b
  same_level h = cc

  -- Where a tick can be told apart, the limit of a protective order that is given is strictly on the safe
  -- side of its trigger on the price grid: below it for a sale, above it for a purchase, however small the
  -- deviation.
  pub protective_limit-IsBeyond :
      (trigger : Float) (side : String) (deviation reference level limit : Float)
      → round_price w.r.round trigger ≡ ok level
      → leb_f (abs_f level) bound ≡ true
      → protective_limit w trigger side deviation reference ≡ ok limit
      → IsBeyond (str_eq (normal w side) "sell") level limit
  unfolding protective_limit
  protective_limit-IsBeyond trigger side deviation reference level limit g k h =
      let (a, h1) = guard-eq-ok (one_of (normal w side) ("buy" ∷ "sell" ∷ [])) _ _ h in
      let (b, h2) = guard-eq-ok (is_positive reference) _ _ h1 in
      let (found, c, h3) = >>=-eq-ok (snapped w trigger) _ h2 in
      let offset = w.r.a.div (w.r.a.mul (abs_f reference) (abs_f deviation)) ten_thousand_f in
      let same : found ≡ level = same_level (sym c ∙ g) in
      beside_lem trigger level offset limit (normal w side) g k
        (subst (λ t. limit_beside w (normal w side) t offset ≡ ok limit) same h3)
