-- ===== src/Risk/Sizing.antt =====
-- The risk-first sizer: signald/risk/sizing.py, `size` and `kelly_cap`. Python's `+`, `-`, `*` and `/`
-- on floats are the operations of the parameter `a`.
pub mod Caps
mod Tests
use trading_execution.Prelude.{
  ℕ, ◌/◌, ◌^◌, Bool, true, false, not, Option, none, some, String, if◌then◌else◌, ◌&&◌, ◌||◌,
  get_or, ltb,
}
use trading_execution.Prelude.Int.{pos}
use trading_execution.Prelude.Float.{
  Float, fin, Arith, is_finite, leb_f, ltb_f, max_f, zero_f, one_f,
}
use trading_execution.Risk.State.{RiskRequest, notional_per_share}

-- `SizingCaps`
pub record SizingCaps : Type 0 where
  pub sleeve_risk_remaining_pct : Float
  pub house_heat_remaining_pct : Float
  pub sleeve_notional_room_usd : Float
  pub participation_cap_pct : Float
  pub kelly_fraction : Float
  pub validated_edge : Option Float
  pub kelly_win_loss_ratio : Option Float
  pub kelly_shrink : Float
  pub max_leverage_pct : Option Float

-- `RiskDecision`
pub record RiskDecision : Type 0 where
  pub ok : Bool
  pub qty : ℕ
  pub risk_pct : Float
  pub binding : Option String
  pub reason : String
  pub qty_risk : Float
  pub qty_liquidity : Float
  pub qty_notional : Float

-- A candidate, with the name of what binds it.
pub record Candidate : Type 0 where
  pub amount : Float
  pub name : String

-- `_positive`
abbrev pub is_positive : Float → Bool
is_positive x = is_finite x && ltb_f zero_f x

-- `_finite_or_zero`
abbrev pub finite_or_zero : Float → Float
finite_or_zero x = if is_finite x then x else zero_f

-- `_reject`
abbrev pub reject : String → Option String → Float → Float → Float → RiskDecision
reject reason binding risk liquidity notional = record {
  ok = false;
  qty = 0;
  risk_pct = zero_f;
  binding = binding;
  reason = reason;
  qty_risk = risk;
  qty_liquidity = liquidity;
  qty_notional = notional;
}

-- Python's `min` by the amount: the earlier one stays unless the later is smaller.
unfoldable pub tighter : Candidate → Candidate → Candidate
tighter x y = if ltb_f y.amount x.amount then y else x

-- `math.floor` of an amount, for one that is finite; what is negative is below one anyway
unfoldable pub floor_f : Float → ℕ
floor_f (fin (pos n)) = n / 2 ^ 1074
floor_f _ = 0

module _ (a : Arith) where
  -- `kelly_cap` with every argument given
  unfoldable pub kelly_cap : Float → Float → Float → Float → Float
  kelly_cap edge fraction ratio shrink =
      if not (is_finite edge && (is_finite fraction && is_finite shrink))
      then zero_f
      else if leb_f fraction zero_f || leb_f shrink zero_f
      then zero_f
      else if not (is_finite ratio) || leb_f ratio zero_f
      then zero_f
      else let win_prob = a.div (a.add one_f edge) (a.add one_f ratio) in
        let full_kelly = a.div (a.sub (a.mul ratio win_prob) (a.sub one_f win_prob)) ratio in
        max_f zero_f (a.mul (a.mul fraction full_kelly) shrink)

  -- steps 3 and 4: the tightest budget, scaled
  unfoldable pub scaled_budget : RiskRequest → SizingCaps → Float → Candidate
  unfolding tighter
  scaled_budget r c vol =
      let least =
        tighter
          (tighter (record { amount = finite_or_zero r.requested_risk_pct; name = "risk" })
            (record { amount = finite_or_zero c.sleeve_risk_remaining_pct; name = "sleeve" }))
          (record { amount = finite_or_zero c.house_heat_remaining_pct; name = "heat" }) in
      record {
        amount = max_f zero_f (a.mul least.amount vol);
        name = if ltb_f vol one_f then "vol" else least.name;
      }

  -- step 5
  unfoldable pub kelly_budget : RiskRequest → SizingCaps → Float → Float → Candidate
  unfolding tighter scaled_budget kelly_cap
  kelly_budget r c vol edge =
      let ratio = get_or c.kelly_win_loss_ratio one_f in
      tighter (scaled_budget r c vol)
        (record { amount = kelly_cap edge c.kelly_fraction ratio c.kelly_shrink; name = "kelly" })

  -- steps 6 to 8: the candidates
  unfoldable pub qty_risk_of : RiskRequest → Candidate → Float
  qty_risk_of r budget = a.div (a.mul (finite_or_zero r.equity) budget.amount) r.stop_distance

  unfoldable pub qty_liquidity_of : RiskRequest → SizingCaps → Float
  qty_liquidity_of r c =
      a.mul (finite_or_zero c.participation_cap_pct)
        (elim r.trailing_volume [ none ↦ zero_f | some x ↦ finite_or_zero x ])

  unfoldable pub qty_notional_of : RiskRequest → SizingCaps → Float
  qty_notional_of r c = a.div (finite_or_zero c.sleeve_notional_room_usd) (notional_per_share r)

  -- step 9: the leverage ceiling, where there is one
  unfoldable pub levered : RiskRequest → SizingCaps → Candidate → Candidate
  unfolding tighter
  levered r c x = elim c.max_leverage_pct [
    | none ↦ x
    | some most ↦ tighter x (record {
      amount = a.div (a.mul (finite_or_zero r.equity) (finite_or_zero most)) (notional_per_share r);
      name = "leverage";
    })
  ]

  -- steps 9 and 10, from the candidates
  unfoldable pub decide_qty :
      RiskRequest → SizingCaps → Candidate → Float → Float → Float → RiskDecision
  unfolding tighter levered floor_f
  decide_qty r c budget risk liquidity notional =
      let raw = levered r c (
        tighter
          (tighter (record { amount = risk; name = budget.name })
            (record { amount = liquidity; name = "liquidity" }))
          (record { amount = notional; name = "notional" })) in
      if not (is_finite raw.amount)
      then reject "size_below_one_share" none zero_f zero_f zero_f
      else if ltb (floor_f raw.amount) 1
      then reject "size_below_one_share" (some raw.name) risk liquidity notional
      else record {
        ok = true;
        qty = floor_f raw.amount;
        risk_pct = budget.amount;
        binding = some raw.name;
        reason = "ok";
        qty_risk = risk;
        qty_liquidity = liquidity;
        qty_notional = notional;
      }

  -- steps 5 to 10, for a setup with an edge and a scalar that can be used
  unfoldable pub size_validated : RiskRequest → SizingCaps → Float → Float → RiskDecision
  unfolding kelly_budget qty_risk_of qty_liquidity_of qty_notional_of decide_qty
  size_validated r c vol edge =
      let budget = kelly_budget r c vol edge in
      let risk = qty_risk_of r budget in
      let liquidity = qty_liquidity_of r c in
      if not (is_positive r.price)
      then reject "no_price" none risk liquidity zero_f
      else decide_qty r c budget risk liquidity (qty_notional_of r c)

  -- `size`
  unfoldable pub size : RiskRequest → SizingCaps → Float → RiskDecision
  unfolding size_validated
  size r c vol =
      if not (is_positive r.stop_distance)
      then reject "no_stop_distance" none zero_f zero_f zero_f
      else elim c.validated_edge [
        | none ↦ reject "unvalidated_setup" none zero_f zero_f zero_f
        | some edge ↦
            if not (is_positive vol)
            then reject "size_below_one_share" none zero_f zero_f zero_f
            else size_validated r c vol edge
      ]
