-- ===== src/Order/Policy/Children.antt =====
-- The children of a plan: signald/order/policy.py, `_build`.
use native.Mathlib.Nat.{div-add-mod, le-div_iff_mul-le, suc-mul}
use trading_execution.Prelude.{
  ℕ, zero, suc, ◌+◌, ◌-◌, ◌*◌, ◌/◌, ◌%◌, ◌≤◌, ◌≡◌, refl, ap, subst, Bool, true, not, Option, none,
  some, List, [], ◌∷◌, String, str_eq, arith, inl, inr, ◌&&◌, leb, All, if_intro, length,
  Bool-cases,
}
use trading_execution.Prelude.Int.{ℤ, pos, negsuc}
use trading_execution.Prelude.Float.{Float, eqb_f, is_finite, ltb_f, zero_f}
use trading_execution.Prelude.Results.{Result, ok, or_raise, >>=-eq-ok, guard-eq-ok}
use trading_execution.Risk.State.{MarketState, RiskRequest}
use trading_execution.Json.{one_of}
use trading_execution.Order.Policy.{
  Runtime, Costs, ChildOrder, OrderPlan, resting, marketable, equal_then, child_sizes,
  bounded_count, count_of, slice_count, type_of, children, notional_of, limit_price, cap_of,
  build_children, build,
}

unfoldable pub sum : List ℕ → ℕ
sum [] = 0
sum (n ∷ ns) = n + sum ns

unfoldable pub sum_qty : List ChildOrder → ℕ
sum_qty [] = 0
sum_qty (o ∷ os) = o.qty + sum_qty os

sum-equal_then : (n base last : ℕ) → sum (equal_then n base last) ≡ n * base + last
unfolding sum equal_then
sum-equal_then zero base last = omega arith
sum-equal_then (suc n) base last = omega (arith, sum-equal_then n base last, suc-mul n base)

length-equal_then : (n base last : ℕ) → length (equal_then n base last) ≡ suc n
unfolding equal_then
length-equal_then zero base last = refl
length-equal_then (suc n) base last = ap suc (length-equal_then n base last)

All-equal_then : (n base last : ℕ) → 1 ≤ base → 1 ≤ last → All (λ m. 1 ≤ m) (equal_then n base last)
unfolding equal_then
All-equal_then zero base last h k = (k, tt)
All-equal_then (suc n) base last h k = (h, All-equal_then n base last h k)

base_pos : (qty n : ℕ) → suc n ≤ qty → 1 ≤ qty / suc n
base_pos qty n h = (le-div_iff_mul-le {k = suc n} {x = 1} {y = qty} (omega arith)).1 (omega arith)

-- The children take the whole quantity between them, and none is empty.
sizes_lem :
    (qty count : ℕ)
    → 1 ≤ count
    → count ≤ qty
    → (sum (child_sizes qty count) ≡ qty)
      × (length (child_sizes qty count) ≡ count)
      × All (λ m. 1 ≤ m) (child_sizes qty count)
unfolding child_sizes
sizes_lem qty zero h k = absurd (omega (arith, h))
sizes_lem qty (suc n) h k =
    let base = qty / suc n in
    let same : suc n - 1 ≡ n = omega arith in
    let pos = base_pos qty n k in
    rw same (
      omega (
        arith,
        sum-equal_then n base (base + qty % suc n),
        suc-mul n base,
        div-add-mod qty (suc n),
      ),
      length-equal_then n base (base + qty % suc n),
      All-equal_then n base (base + qty % suc n) pos (omega (arith, pos)),
    )

bounded_count_lem :
    (qty : ℕ) (count : ℤ)
    → 1 ≤ qty
    → (1 ≤ bounded_count qty count)
      × (bounded_count qty count ≤ 5)
      × (bounded_count qty count ≤ qty)
unfolding bounded_count
bounded_count_lem qty (pos n) h = ground arith
bounded_count_lem qty (negsuc n) h = ground arith

module _ (r : Runtime) where
  abbrev IsCount : ℕ → ℕ → Type 0
  IsCount qty count = (1 ≤ count) × (count ≤ 5) × (count ≤ qty)

  count_of_lem :
      (qty : ℕ) (adv : Float) (count : ℕ)
      → 1 ≤ qty
      → count_of r qty adv ≡ ok count
      → IsCount qty count
  unfolding count_of
  count_of_lem qty adv count h e =
      let (q, a, e1) = >>=-eq-ok (or_raise (r.a.of_int (pos qty)) "OverflowError") _ e in
      let (b, e2) = guard-eq-ok (not (eqb_f (r.a.mul r.participation_cap adv) zero_f)) _ _ e1 in
      let (k, c, e3) =
        >>=-eq-ok (or_raise (r.ceil (r.a.div q (r.a.mul r.participation_cap adv))) "OverflowError")
          _ e2 in
      let same : bounded_count qty k ≡ count = cc e3 in
      subst (IsCount qty) same (bounded_count_lem qty k h)

  slice_count_lem :
      (qty : ℕ) (adv : Option Float) (count : ℕ)
      → 1 ≤ qty
      → slice_count r qty adv ≡ ok count
      → IsCount qty count
  unfolding slice_count
  slice_count_lem qty none count h e =
      let same : 1 ≡ count = cc e in subst (IsCount qty) same (omega arith, omega arith, h)
  slice_count_lem qty (some adv) count h e = elim (Bool-cases (is_finite adv && ltb_f zero_f adv)) [
    | inl k ↦ count_of_lem qty adv count h (rw k at e)
    | inr k ↦
        let one : ◌≡◌ {A = Result String ℕ} (ok 1) (ok count) = rw k at e in
        let same : 1 ≡ count = cc one in subst (IsCount qty) same (omega arith, omega arith, h)
  ]

  -- A child is not empty, is a limit order of one of the two kinds, and stands at the plan's price.
  abbrev pub IsChild : String → Float → ChildOrder → Type 0
  IsChild style limit o =
      (1 ≤ o.qty)
      × (one_of o.order_type ("limit" ∷ "marketable_limit" ∷ []) ≡ true)
      × (o.limit_price ≡ limit)
      × (o.style ≡ style)

  abbrev IsSplit : List ℕ → Float → String → List ChildOrder → Type 0
  IsSplit sizes limit style orders =
      (sum_qty orders ≡ sum sizes)
      × (length orders ≡ length sizes)
      × All (IsChild style limit) orders

  type_lem : (style : String) → one_of (type_of r style) ("limit" ∷ "marketable_limit" ∷ []) ≡ true
  type_lem style =
      if_intro (λ (s : String). one_of s ("limit" ∷ "marketable_limit" ∷ []) ≡ true)
        (str_eq style resting) refl refl

  children_lem :
      (seq : ℕ) (sizes : List ℕ) (limit : Float) (style : String) (orders : List ChildOrder)
      → All (λ m. 1 ≤ m) sizes
      → children r seq sizes limit style ≡ ok orders
      → IsSplit sizes limit style orders
  unfolding children sum sum_qty
  children_lem seq [] limit style orders h e =
      let same : [] ≡ orders = cc e in subst (IsSplit [] limit style) same (refl, refl, tt)
  children_lem seq (size ∷ sizes) limit style orders h e =
      let (notional, a, e1) = >>=-eq-ok (notional_of r size limit) _ e in
      let (more, b, e2) = >>=-eq-ok (children r (suc seq) sizes limit style) _ e1 in
      let (total, many, each) = children_lem (suc seq) sizes limit style more h.1 b in
      let same : record {
        seq = seq;
        qty = size;
        order_type = type_of r style;
        limit_price = limit;
        notional_usd = notional;
        style = style;
      }
            ∷ more
          ≡ orders =
        cc e2 in
      subst (IsSplit (size ∷ sizes) limit style) same
        (omega (arith, total), ap suc many, ((h.0, type_lem style, refl, refl), each))

  -- What a plan is that was given for a quantity.
  pub record IsSound (qty : ℤ) (p : OrderPlan) : Type 0 where
    pub limit : Float
    pub whole : qty ≡ pos (sum_qty p.orders)
    pub some_order : 1 ≤ length p.orders
    pub few : length p.orders ≤ 5
    pub each : All (IsChild p.style limit) p.orders

  build_children_lem :
      (n : ℕ) (price : Float) (side : String) (m : MarketState) (c : Costs) (style : String)
      (urgent : Bool) (p : OrderPlan)
      → 1 ≤ n
      → build_children r n price side m c style urgent ≡ ok p
      → IsSound (pos n) p
  unfolding build_children
  build_children_lem n price side m c style urgent p h e =
      let (count, a, e1) = >>=-eq-ok (slice_count r n m.adv_shares) _ e in
      let (limit, b, e2) =
        >>=-eq-ok (limit_price r price side (cap_of r m.spread_bps c urgent) style) _ e1 in
      let (orders, d, e3) = >>=-eq-ok (children r 0 (child_sizes n count) limit style) _ e2 in
      let (low, high, fits) = slice_count_lem n m.adv_shares count h a in
      let (total, many, full) = sizes_lem n count low fits in
      let (sums, len, each) = children_lem 0 (child_sizes n count) limit style orders full d in
      let same : record {
        orders = orders;
        style = style;
        deviation_bps = cap_of r m.spread_bps c urgent;
      }
          ≡ p =
        cc e3 in
      subst (IsSound (pos n)) same (record {
        limit = limit;
        whole = ap pos (omega (arith, sums, total));
        some_order = omega (arith, len, many, low);
        few = omega (arith, len, many, high);
        each = each;
      })

  -- A plan that is given, for an entry or an exit, splits the whole quantity into one to five children
  -- that are not empty; each is a limit or a marketable limit, never a market order, and all stand at one
  -- limit price.
  pub build-IsSound :
      (q : RiskRequest) (qty : ℤ) (m : MarketState) (c : Costs) (style : String) (urgent : Bool)
      (p : OrderPlan)
      → build r q qty m c style urgent ≡ ok p
      → IsSound qty p
  unfolding build
  build-IsSound q (negsuc n) m c style urgent p e = cc
  build-IsSound q (pos n) m c style urgent p e =
      let (a, e1) = guard-eq-ok (leb 1 n) _ _ e in
      let (price, b, e2) =
        >>=-eq-ok (or_raise m.last "market.last is required to price child orders") _ e1 in
      let (d, e3) = guard-eq-ok (is_finite price && ltb_f zero_f price) _ _ e2 in
      let side = r.t.lower (r.t.strip q.side) in
      let (f, e4) = guard-eq-ok (one_of side ("buy" ∷ "sell" ∷ [])) _ _ e3 in
      let (g, e5) = guard-eq-ok (one_of style (marketable ∷ resting ∷ [])) _ _ e4 in
      build_children_lem n price side m c style urgent p (ground (arith, a)) e5
