-- ===== src/Order/Flatten/Coverage.antt =====
-- The legs of a flatten plan: signald/order/flatten.py, `flatten_plan`.
use trading_execution.Prelude.{
  ◌≡◌, refl, subst, ◌∙◌, Bool, false, not, none, some, List, [], ◌∷◌, String, arith, inl, inr, ◌⊎◌,
  if◌then◌else◌, ◌&&◌, All, any, sort, any-sort, text_le, Bool-cases, Option-cases, str_eq,
}
use trading_execution.Prelude.Float.{Float, abs_f}
use trading_execution.Prelude.Results.{ok, or_raise, >>=-eq-ok}
use trading_execution.Order.Intent.{OrderIntent}
use trading_execution.Order.Policy.{deviation_bps}
use trading_execution.Order.Stops.{Tools, StopConfig, protective_limit, leaving_side}
use trading_execution.Risk.State.{Position}
use trading_execution.Order.Flatten.{
  dust_shares, is_dust, is_flat, FlattenPlan, leg, at_least_one, price_for, flatten_leg,
  flatten_legs, manual_symbols, flatten_plan,
}

-- A leg leaves the position, and is a marketable limit with a price or is handed to a person without one.
abbrev pub IsLeg : OrderIntent → Type 0
IsLeg o =
    ((o.order_type ≡ "marketable_limit") × ((limit : Float) × (o.limit_price ≡ some limit)))
    ⊎ ((o.order_type ≡ "needs_manual") × (o.limit_price ≡ none))

module _ (w : Tools) where
  leg_lem :
      (p : Position) (tif now : String) (c : StopConfig) (o : OrderIntent)
      → flatten_leg w p tif now c ≡ ok o
      → (o.symbol ≡ p.symbol) × IsLeg o
  unfolding flatten_leg
  leg_lem p tif now c o h =
      let (qty, a, h1) = >>=-eq-ok (or_raise (w.truncate (abs_f p.qty)) "OverflowError") _ h in
      elim (Option-cases (price_for w qty p)) [
        | inl e ↦
            let same : leg w p "needs_manual" (at_least_one w qty) none tif now ≡ o =
              cc (rw e at h1) in
            subst (λ x. (x.symbol ≡ p.symbol) × IsLeg x) same (refl, inr (refl, refl))
        | inr (price, e) ↦
            let (limit, b, h2) =
              >>=-eq-ok
                (protective_limit w price (leaving_side w p) (deviation_bps w.r none c.costs) price)
                _ (rw e at h1) in
            let same : leg w p "marketable_limit" qty (some limit) tif now ≡ o = cc h2 in
            subst (λ x. (x.symbol ≡ p.symbol) × IsLeg x) same (refl, inl (refl, (limit, refl)))
      ]

  abbrev Covers : List Position → List OrderIntent → Type 0
  Covers ps orders =
      ((s : String)
        → any (λ o. str_eq o.symbol s) orders ≡ any (λ p. str_eq p.symbol s && not (is_dust p)) ps)
      × All IsLeg orders

  legs_lem :
      (ps : List Position) (tif now : String) (c : StopConfig) (orders : List OrderIntent)
      → flatten_legs w ps tif now c ≡ ok orders
      → Covers ps orders
  unfolding flatten_legs
  legs_lem [] tif now c orders h =
      let same : [] ≡ orders = cc h in subst (Covers []) same (λ s. refl, tt)
  legs_lem (p ∷ ps) tif now c orders h = elim (Bool-cases (is_dust p)) [
    | inl e ↦
        let (same, each) = legs_lem ps tif now c orders (rw e at h) in
        (λ s. ground (arith, same s, e), each)
    | inr e ↦
        let (o, a, h1) = >>=-eq-ok (flatten_leg w p tif now c) _ (rw e at h) in
        let (os, b, h2) = >>=-eq-ok (flatten_legs w ps tif now c) _ h1 in
        let here = leg_lem p tif now c o a in
        let (same, each) = legs_lem ps tif now c os b in
        let all_of : o ∷ os ≡ orders = cc h2 in
        subst (Covers (p ∷ ps)) all_of
          (λ s. rw (here.0, e) (ground (arith, same s)), (here.1, each))
  ]

  -- A plan for a book that is not flat has a leg for a symbol exactly if the symbol has a position that is
  -- not dust; each leg is a marketable limit with a price, or is marked for a person and has none.
  pub flatten_plan-Covers :
      (positions : List Position) (eligible is_before_cutoff : Bool) (now s : String)
      (c : StopConfig) (plan : FlattenPlan)
      → (is_flat dust_shares positions).0 ≡ false
      → flatten_plan w positions eligible is_before_cutoff now c ≡ ok plan
      → (any (λ o. str_eq o.symbol s) plan.orders
          ≡ any (λ p. str_eq p.symbol s && not (is_dust p)) positions)
        × All IsLeg plan.orders
  unfolding flatten_plan
  flatten_plan-Covers positions eligible is_before_cutoff now s c plan f h =
      let sorted = sort (λ p q. text_le p.symbol q.symbol) positions in
      let tif = (if eligible && is_before_cutoff then "cls" else "day") in
      let (orders, a, h1) = >>=-eq-ok (flatten_legs w sorted tif now c) _ (rw f at h) in
      let (same, each) = legs_lem sorted tif now c orders a in
      let made : record {
        orders = orders;
        manual = sort text_le (manual_symbols w orders);
        use_closing_auction = eligible && is_before_cutoff;
      }
          ≡ plan =
        cc h1 in
      subst
        (λ (x : FlattenPlan).
          (any (λ o. str_eq o.symbol s) x.orders
            ≡ any (λ p. str_eq p.symbol s && not (is_dust p)) positions)
          × All IsLeg x.orders)
        made
        (
          same s
              ∙ any-sort (λ p. str_eq p.symbol s && not (is_dust p))
                  (λ p q. text_le p.symbol q.symbol) positions,
          each,
        )
