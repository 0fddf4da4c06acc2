-- ===== src/Promotion.antt =====
-- The promotion checklist, the opt-ins and the hard cap: signald/promotion.py. The texts of requirements
-- and details are not modelled.
pub mod Ready
mod Tests
use trading_execution.Prelude.{
  ℕ, ◌*◌, ◌^◌, Bool, true, false, not, Option, none, some, List, [], ◌∷◌, ◌++◌, String, str_eq,
  if◌then◌else◌, ◌||◌, ◌&&◌, is_empty, all, is_some, is_none,
}
use trading_execution.Prelude.Int.{ℤ, pos, leb_ℤ}
use trading_execution.Prelude.Float.{Float, fin, Arith, is_finite, leb_f, ltb_f, zero_f}
use trading_execution.Prelude.Results.{Result, ok, err, ◌>>=◌, ◌>>◌, guard, or_raise}
use trading_execution.Json.{Value, Fields, null, str, obj, int, num, bool, get, one_of, is_blank}

-- What the code calls of Python's runtime: rounding sums, the conversions between `int` and `float`,
-- `str.strip`, and the literal 0.95 and 0.05.
pub record Runtime : Type 0 where
  pub a : Arith
  pub truncate : Float → Option ℤ
  pub strip : String → String
  pub dsr_min : Float
  pub pbo_max : Float

-- 50.0 and 6.0
unfoldable pub min_trades : Float
min_trades = fin (pos (50 * 2 ^ 1074))

unfoldable pub min_oos_months : Float
min_oos_months = fin (pos (6 * 2 ^ 1074))

abbrev pub min_cost_model_fills : ℤ
min_cost_model_fills = pos 50

-- `opt_ins`, without its reason
unfoldable pub opt_ins : String → Bool → Bool → Bool
opt_ins mode execute live_ack =
    if str_eq mode "signal"
    then false
    else if str_eq mode "paper"
    then execute
    else if str_eq mode "live"
    then (if execute then live_ack else false)
    else false

-- `_opt_ins_enforced`
unfoldable pub opt_ins_enforced : Bool
unfolding opt_ins
opt_ins_enforced =
    not (opt_ins "live" false false)
    && (not (opt_ins "live" true false) && opt_ins "live" true true)

-- `ChecklistItem`, without its texts
pub record ChecklistItem : Type 0 where
  pub id : String
  pub satisfied : Bool

-- `PromotionReport`
pub record PromotionReport : Type 0 where
  pub profile : String
  pub items : List ChecklistItem
  pub complete : Bool
  pub blockers : List String

-- The evidence of one setup: `none` is a record that is no mapping.
abbrev pub Evidence : Type 0
Evidence = List (String × Option Fields)

-- The arguments of `promotion_report`.
pub record Claim : Type 0 where
  pub profile : String
  pub sessions_reconciled : ℤ
  pub drills_passed : List String
  pub required_drills : List String
  pub paper_sessions_required : ℤ
  pub validation : Evidence
  pub kill_switch_tested : Bool
  pub stale_data_tested : Bool
  pub daily_loss_tested : Bool
  pub hard_cap_usd : Value
  pub approval_threshold_usd : Value
  pub backups_tested : Bool
  pub owner_signed_date : String

abbrev pub item : String → Bool → ChecklistItem
item id satisfied = record { id = id; satisfied = satisfied }

unfoldable pub blockers_of : List ChecklistItem → List String
blockers_of [] = []
blockers_of (i ∷ is) = let rest = blockers_of is in if i.satisfied then rest else i.id ∷ rest

abbrev pub has_passed : List String → List String → Bool
has_passed required passed = all (λ d. one_of d passed) required

module _ (w : Runtime) where
  -- `_num`: an int too large for a float raises OverflowError
  unfoldable pub number : Value → Result String (Option Float)
  number (num x) = ok (if is_finite x then some x else none)
  number (int n) =
      or_raise (w.a.of_int n) "OverflowError" >>= λ x. ok (if is_finite x then some x else none)
  number _ = ok none

  abbrev pub below : Option Float → Float → Bool
  below none min = true
  below (some x) min = ltb_f x min

  abbrev pub above : Option Float → Float → Bool
  above none max = true
  above (some x) max = ltb_f max x

  abbrev pub not_positive : Option Float → Bool
  not_positive none = true
  not_positive (some x) = leb_f x zero_f

  abbrev pub fault : Bool → String → String → List (String × String)
  fault b setup code = if b then (setup, code) ∷ [] else []

  -- the gate of one setup
  unfoldable pub setup_failures : String → Option Fields → Result String (List (String × String))
  unfolding number
  setup_failures setup none = ok ((setup, "no validation record") ∷ [])
  setup_failures setup (some evidence) = do
    dsr ← number (get "dsr" evidence)
    pbo ← number (get "pbo" evidence)
    trades ← number (get "trades" evidence)
    oos ← number (get "oos_months" evidence)
    n ← number (get "n" evidence)
    ok (
        fault (below dsr w.dsr_min) setup "dsr"
        ++ (fault (above pbo w.pbo_max) setup "pbo"
            ++ (fault (below trades min_trades) setup "trades"
                ++ (fault (below oos min_oos_months) setup "oos"
                    ++ fault (not_positive n) setup "n"))))

  unfoldable pub evidence_failures : Evidence → Result String (List (String × String))
  unfolding setup_failures
  evidence_failures [] = ok []
  evidence_failures ((setup, r) ∷ rs) = do
    mine ← setup_failures setup r
    rest ← evidence_failures rs
    ok (mine ++ rest)

  -- `_validation_failures`
  unfoldable pub validation_failures : Evidence → Result String (List (String × String))
  unfolding evidence_failures
  validation_failures [] = ok (("", "no setup validation evidence recorded") ∷ [])
  validation_failures (r ∷ rs) = evidence_failures (r ∷ rs)

  abbrev pub add_positive : Float → Option Float → Float
  add_positive total none = total
  add_positive total (some x) = if ltb_f zero_f x then w.a.add total x else total

  unfoldable pub fills_from : Float → Evidence → Result String Float
  unfolding number
  fills_from total [] = ok total
  fills_from total ((setup, none) ∷ rs) = fills_from total rs
  fills_from total ((setup, some evidence) ∷ rs) =
      number (get "trades" evidence) >>= λ trades. fills_from (add_positive total trades) rs

  -- `_realised_fills`
  unfoldable pub realised_fills : Evidence → Result String ℤ
  unfolding fills_from
  realised_fills rs = fills_from zero_f rs >>= λ total. or_raise (w.truncate total) "OverflowError"

  abbrev pub is_positive : Option Float → Bool
  is_positive none = false
  is_positive (some x) = ltb_f zero_f x

  -- the items of every profile
  unfoldable pub base_items : Claim → List (String × String) → ℤ → List ChecklistItem
  base_items c failures fills =
      item "paper_sessions" (leb_ℤ c.paper_sessions_required c.sessions_reconciled)
      ∷ item "drills"
          (not (is_empty c.required_drills) && has_passed c.required_drills c.drills_passed)
      ∷ item "validation_gates" (is_empty failures)
      ∷ item "cost_model" (leb_ℤ min_cost_model_fills fills)
      ∷ item "kill_switch" c.kill_switch_tested
      ∷ item "daily_loss_flatten" c.daily_loss_tested
      ∷ item "stale_data_block" c.stale_data_tested
      ∷ item "ops_readiness" c.backups_tested
      ∷ item "owner_signoff" (not (is_blank (w.strip c.owner_signed_date)))
      ∷ []

  -- the items of the live profile
  unfoldable pub live_items : Claim → Result String (List ChecklistItem)
  unfolding opt_ins_enforced number
  live_items c =
      if str_eq c.profile "live"
      then (number c.hard_cap_usd >>= λ cap. number c.approval_threshold_usd >>= λ threshold. ok (
          item "hard_cap" (is_positive cap)
          ∷ item "approval_thresholds" (is_positive threshold)
          ∷ item "opt_ins" opt_ins_enforced
          ∷ []))
      else ok []

  abbrev pub report_of : String → List ChecklistItem → PromotionReport
  report_of profile items = record {
    profile = profile;
    items = items;
    complete = is_empty (blockers_of items);
    blockers = blockers_of items;
  }

  -- `promotion_report`
  unfoldable pub promotion_report : Claim → Result String PromotionReport
  unfolding validation_failures realised_fills base_items live_items
  promotion_report c = do
    guard (one_of c.profile ("signal" ∷ "paper" ∷ "live" ∷ [])) "profile is unknown"
    failures ← validation_failures c.validation
    fills ← realised_fills c.validation
    live ← live_items c
    ok (report_of c.profile (base_items c failures fills ++ live))

  -- What `hard_cap_violation` finds.
  pub data Violation : Type 0 where
    unusable_cap unusable_notional over_cap : Violation

  abbrev pub over : Float → Option Float → Option Violation
  over cap none = some unusable_notional
  over cap (some n) = if ltb_f cap n then some over_cap else none

  abbrev pub under_cap : Option Float → Value → Result String (Option Violation)
  under_cap none notional = ok (some unusable_cap)
  under_cap (some cap) notional =
      if leb_f cap zero_f
      then ok (some unusable_cap)
      else (number notional >>= λ n. ok (over cap n))

  -- `hard_cap_violation`
  unfoldable pub hard_cap_violation : Value → Value → Result String (Option Violation)
  unfolding number
  hard_cap_violation notional null = ok none
  hard_cap_violation notional cap = number cap >>= λ c. under_cap c notional
