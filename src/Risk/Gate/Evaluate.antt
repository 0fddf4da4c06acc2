-- ===== src/Risk/Gate/Evaluate.antt =====
-- The run of the checks and the decision: signald/risk/gate.py, `CHECKS`, `evaluate`, with the
-- order of signald/contracts.py, `GATE_PRECEDENCE` (its placeholder `halt` has no check).
use trading_execution.Prelude.{
  Bool, true, false, Option, none, some, List, [], ◌∷◌, String, str_eq, if◌then◌else◌, any,
}
use trading_execution.Prelude.Float.{Float, min_f}
use trading_execution.Prelude.Results.{Result, ok, err}
use trading_execution.Risk.Gate.Context.{Runtime, Exc, value_error, GateContext, Kind, Failure}
use trading_execution.Risk.Gate.Capital.{
  mandate, sleeve_capital, house_drawdown, house_cvar, correlation_stress, vol_regime,
  concentration,
}
use trading_execution.Risk.Gate.Market.{
  market_regime, knife_guard, liquidity, cost, wash, shortability,
}
use trading_execution.Risk.Gate.Data.{data_check, time, approval}

pub data Verdict : Type 0 where
  allow reduce block : Verdict

-- `GateDecision`, without the texts and the snapshot
pub record GateDecision : Type 0 where
  pub verdict : Verdict
  pub binding_gate : Option String
  pub adjusted_risk_pct : Option Float
  pub approval_required : Bool
  pub permission_reason_code : String
  pub failures : List Failure

-- A check: it returns no failure, one, or raises.
pub record Check : Type 0 where
  pub name : String
  pub run : GateContext → Result Exc (Option Failure)

abbrev pub total : String → (GateContext → Option Failure) → Check
total name f = record { name = name; run = λ c. ok (f c) }

-- `CHECKS`, in the order of `GATE_PRECEDENCE`
unfoldable pub checks : Runtime → List Check
checks rt =
    record { name = "mandate"; run = mandate rt }
    ∷ total "sleeve_capital" (sleeve_capital rt)
    ∷ total "house_drawdown" (house_drawdown rt)
    ∷ total "house_cvar" (house_cvar rt)
    ∷ total "correlation_stress" (correlation_stress rt)
    ∷ total "vol_regime" (vol_regime rt)
    ∷ total "market_regime" (market_regime rt)
    ∷ total "knife_guard" (knife_guard rt)
    ∷ total "concentration" (concentration rt)
    ∷ total "liquidity" (liquidity rt)
    ∷ total "cost" (cost rt)
    ∷ total "wash" wash
    ∷ total "shortability" shortability
    ∷ total "data" (data_check rt)
    ∷ record { name = "time"; run = time rt }
    ∷ total "approval" (approval rt)
    ∷ []

-- A check that raises becomes a block.
unfoldable pub attempt : GateContext → Check → Option Failure
attempt c k = elim (k.run c) [
  | ok f ↦ f
  | err e ↦ some (record {
    check = k.name;
    kind = Kind.block;
    reason_code = "check_error";
    adjusted_risk_pct = none;
  })
]

-- `ordered`: the failures in precedence order
unfoldable pub failures_of : GateContext → List Check → List Failure
unfolding attempt
failures_of c [] = []
failures_of c (k ∷ ks) =
    let rest = failures_of c ks in elim (attempt c k) [ none ↦ rest | some f ↦ f ∷ rest ]

abbrev pub is_block : Failure → Bool
is_block f = elim f.kind [ Kind.block ↦ true | Kind.reduce ↦ false ]

-- `blocks[0]`
unfoldable pub first_block : List Failure → Option Failure
first_block [] = none
first_block (f ∷ fs) = let rest = first_block fs in if is_block f then some f else rest

-- `min(f.adjusted_risk_pct for f in reduces if f.adjusted_risk_pct is not None)`, where `best` is
-- the least so far
unfoldable pub min_adjusted : Option Float → List Failure → Option Float
min_adjusted best [] = best
min_adjusted best (f ∷ fs) = elim f.adjusted_risk_pct [
  | none ↦ min_adjusted best fs
  | some x ↦ elim best [
    | none ↦ min_adjusted (some x) fs
    | some y ↦ min_adjusted (some (min_f y x)) fs
  ]
]

abbrev pub needs_approval : List Failure → Bool
needs_approval fs = any (λ f. str_eq f.check "approval") fs

abbrev pub allow_decision : GateDecision
allow_decision = record {
  verdict = Verdict.allow;
  binding_gate = none;
  adjusted_risk_pct = none;
  approval_required = false;
  permission_reason_code = "ok";
  failures = [];
}

abbrev pub reduce_decision : Failure → List Failure → Float → GateDecision
reduce_decision f fs x = record {
  verdict = Verdict.reduce;
  binding_gate = some f.check;
  adjusted_risk_pct = some x;
  approval_required = needs_approval fs;
  permission_reason_code = f.reason_code;
  failures = fs;
}

abbrev pub block_decision : Failure → List Failure → GateDecision
block_decision f fs = record {
  verdict = Verdict.block;
  binding_gate = some f.check;
  adjusted_risk_pct = none;
  approval_required = needs_approval fs;
  permission_reason_code = f.reason_code;
  failures = fs;
}

-- the decision where no failure blocks
unfoldable pub decide_soft : List Failure → Result Exc GateDecision
unfolding min_adjusted
decide_soft [] = ok allow_decision
decide_soft (f ∷ fs) = elim (min_adjusted none (f ∷ fs)) [
  | none ↦ err value_error
  | some x ↦ ok (reduce_decision f (f ∷ fs) x)
]

unfoldable pub decide : List Failure → Result Exc GateDecision
unfolding first_block decide_soft
decide fs = elim (first_block fs) [ none ↦ decide_soft fs | some f ↦ ok (block_decision f fs) ]

-- `evaluate`
unfoldable pub evaluate : Runtime → GateContext → Result Exc GateDecision
unfolding decide failures_of checks
evaluate rt c = decide (failures_of c (checks rt))
