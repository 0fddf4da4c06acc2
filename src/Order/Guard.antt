-- ===== src/Order/Guard.antt =====
-- The pre-trade guard: signald/order/guard.py, `guard` and its table of checks. A check is modelled as
-- whether it passes; the texts of the reasons are not modelled, the names of the checks are.
pub mod Admission
mod Tests
use trading_execution.Prelude.{
  ℕ, ltb, Bool, true, false, not, Option, none, some, List, [], ◌∷◌, String, str_eq, if◌then◌else◌,
  ◌&&◌, ◌||◌, is_some, is_none, is_empty, head?, any, map, get_or, length,
}
use trading_execution.Prelude.Int.{ℤ, pos, neg_ℤ, ltb_ℤ, leb_ℤ}
use trading_execution.Prelude.Float.{Float, Arith, leb_f, ltb_f, abs_f, zero_f}
use trading_execution.Prelude.Results.{Result, ok, err, ◌>>=◌, or_raise}
use trading_execution.Json.{Value, str, arr, obj, Fields, get, Text, is_blank, one_of}
use trading_execution.Risk.State.{BookState, MarketState, position_for, book_notional}
use trading_execution.Risk.Gate.Context.{Moment, Mandate, is_expired, Config}
use trading_execution.Order.Intent.{OrderIntent}
use trading_execution.Order.Prices.{price_is_on_grid}

-- What a check may raise.
pub data Raised : Type 0 where
  overflow_error type_error : Raised

-- The parts of Python's runtime that the checks call.
pub record GuardRuntime : Type 0 where
  pub a : Arith
  pub t : Text
  -- `round(x, n)`
  pub round : Float → ℕ → Float
  -- `len(text)`
  pub len : String → ℕ
  -- the match of `_ID_OK`: letters, digits and dashes, at least one
  pub id_ok : String → Bool
  -- `text[:-1] + "+00:00"` of a text that ends in Z, and `datetime.fromisoformat`
  pub fix_zone : String → String
  pub from_iso : String → Option Moment

-- `_Context`
pub record GuardContext : Type 0 where
  pub book : BookState
  pub market : MarketState
  pub mandate : Option Mandate
  pub config : Config
  pub gate_verdict : Option String
  pub approval_id : Option String
  pub requires_approval : Bool
  pub open_orders : List Fields
  pub other_sleeve_side : Option String
  pub price_of : Option Float

pub record GuardResult : Type 0 where
  pub ok : Bool
  pub reasons : List String
  pub binding : Option String

-- `ALLOWED_ORDER_TYPES`, `ALLOWED_TIFS`, `EXTENDED_HOURS_ORDER_TYPES`, `PERMITTING_VERDICTS`
abbrev pub allowed_order_types : List String
allowed_order_types = "limit" ∷ "marketable_limit" ∷ "stop" ∷ "stop_limit" ∷ []

abbrev pub allowed_tifs : List String
allowed_tifs = "day" ∷ "gtc" ∷ "cls" ∷ []

abbrev pub extended_hours_types : List String
extended_hours_types = "limit" ∷ "marketable_limit" ∷ []

abbrev pub permitting_verdicts : List String
permitting_verdicts = "ALLOW" ∷ "REDUCE" ∷ []

-- `abs(qty)`
abbrev pub abs_ℤ : ℤ → ℤ
abs_ℤ n = if ltb_ℤ n (pos 0) then neg_ℤ n else n

-- `_qty`
abbrev pub qty_ok : OrderIntent → Bool
qty_ok i = leb_ℤ (pos 1) i.qty

-- `_order_type`
abbrev pub order_type_ok : OrderIntent → Bool
order_type_ok i = one_of i.order_type allowed_order_types

-- `_gate_verdict`
abbrev pub gate_verdict_ok : GuardContext → Bool
gate_verdict_ok c = elim c.gate_verdict [ none ↦ false | some v ↦ one_of v permitting_verdicts ]

-- `_approval`
abbrev pub approval_ok : GuardContext → Bool
approval_ok c = not (c.requires_approval && is_blank (get_or c.approval_id ""))

-- `_bracket_legality`
unfoldable pub bracket_ok : OrderIntent → Bool
bracket_ok i =
    if not (one_of i.tif allowed_tifs)
    then false
    else if not i.extended_hours
    then true
    else if not (str_eq i.tif "day")
    then false
    else one_of i.order_type extended_hours_types

-- `_stop_present`
abbrev pub stop_ok : OrderIntent → Bool
stop_ok i = str_eq i.order_type "stop_limit" || is_some i.stop_price

-- the ids of the open orders; a list or an object cannot stand in a set
unfoldable pub is_open_id : String → List Fields → Result Raised Bool
is_open_id cid [] = ok false
is_open_id cid (o ∷ os) = do
  rest ← is_open_id cid os
  elim (get "client_order_id" o) [
    | arr vs ↦ err type_error
    | obj fs ↦ err type_error
    | str s ↦ ok (str_eq s cid || rest)
    | _ ↦ ok rest
  ]

-- `_duplicate`
unfoldable pub duplicate_ok : OrderIntent → GuardContext → Result Raised Bool
unfolding is_open_id
duplicate_ok i c = do there ← is_open_id i.client_order_id c.open_orders; ok (not there)

-- `_wash`
abbrev pub wash_ok : OrderIntent → GuardContext → Bool
wash_ok i c = elim c.other_sleeve_side [ none ↦ true | some other ↦ str_eq other i.side ]

module _ (rt : GuardRuntime) where
  -- `_client_order_id`
  unfoldable pub id_fits : OrderIntent → Bool
  id_fits i =
      if is_blank i.client_order_id
      then false
      else if ltb 48 (rt.len i.client_order_id)
      then false
      else rt.id_ok i.client_order_id

  abbrev pub on_grid : Option Float → Bool
  on_grid p = elim p [ none ↦ true | some x ↦ price_is_on_grid rt.round x ]

  -- `_precision`
  abbrev pub precision_ok : OrderIntent → Bool
  precision_ok i = on_grid i.limit_price && on_grid i.stop_price

  -- `_parse_ts`
  unfoldable pub parse_ts : String → Option Moment
  parse_ts value =
      let text = rt.t.strip value in if is_blank text then none else rt.from_iso (rt.fix_zone text)

  -- `_mandate`, where there is one
  unfoldable pub mandate_allows : OrderIntent → GuardContext → Mandate → Bool
  unfolding parse_ts
  mandate_allows i c m =
      if not (str_eq i.side "buy") && not (str_eq i.side "sell")
      then false
      else if not (one_of (rt.t.upper i.symbol) (map rt.t.upper m.allowed))
      then false
      else elim (parse_ts i.created_at) [
        | none ↦ false
        | some created ↦
            if is_expired m created
            then false
            else not (
                str_eq i.side "sell"
                && (leb_f (position_for rt.a c.book i.symbol) zero_f && not m.shorts))
      ]

  -- `_mandate`
  unfoldable pub mandate_ok : OrderIntent → GuardContext → Bool
  unfolding mandate_allows
  mandate_ok i c = elim c.mandate [ none ↦ false | some m ↦ mandate_allows i c m ]

  -- `abs(float(price)) * abs(self.qty)`: an int that is too large for a float raises
  unfoldable pub priced : OrderIntent → Option Float → Result Raised Float
  priced i none = ok zero_f
  priced i (some price) = do
    quantity ← or_raise (rt.a.of_int (abs_ℤ i.qty)) overflow_error
    ok (rt.a.mul (abs_f price) quantity)

  abbrev pub or_else : Option Float → Option Float → Option Float
  or_else none y = y
  or_else (some x) y = some x

  -- `OrderIntent.notional_usd`
  unfoldable pub notional_usd : OrderIntent → Result Raised Float
  unfolding priced
  notional_usd i = priced i (or_else i.limit_price i.stop_price)

  -- `_effective_notional`
  unfoldable pub effective_notional : OrderIntent → GuardContext → Result Raised Float
  unfolding notional_usd
  effective_notional i c = do
    notional ← notional_usd i
    if ltb_f zero_f notional then ok notional else priced i (or_else c.price_of c.market.last)

  abbrev pub over : Option Float → Float → Bool
  over bound x = elim bound [ none ↦ false | some b ↦ ltb_f b x ]

  -- `_buying_power`
  unfoldable pub buying_power_ok : OrderIntent → GuardContext → Result Raised Bool
  unfolding effective_notional
  buying_power_ok i c = do
    notional ← effective_notional i c
    if over c.book.buying_power notional
        then ok false
        else ok (
            not (
              str_eq i.side "buy"
              && ltb_f (rt.a.mul c.config.leverage_cap c.book.equity)
                  (rt.a.add (book_notional rt.a c.book) notional)))

  -- `CHECKS`
  unfoldable pub guard_checks : OrderIntent → GuardContext → List (String × Result Raised Bool)
  guard_checks i c =
      ("client_order_id", ok (id_fits i))
      ∷ ("qty", ok (qty_ok i))
      ∷ ("order_type", ok (order_type_ok i))
      ∷ ("precision", ok (precision_ok i))
      ∷ ("mandate", ok (mandate_ok i c))
      ∷ ("gate_verdict", ok (gate_verdict_ok c))
      ∷ ("approval", ok (approval_ok c))
      ∷ ("buying_power", buying_power_ok i c)
      ∷ ("bracket_legality", ok (bracket_ok i))
      ∷ ("stop_present", ok (stop_ok i))
      ∷ ("duplicate", duplicate_ok i c)
      ∷ ("wash", ok (wash_ok i c))
      ∷ []

-- A check that raises fails.
abbrev pub clears : Result Raised Bool → Bool
clears (ok b) = b
clears (err e) = false

-- the loop of `guard`
unfoldable pub failing : List (String × Result Raised Bool) → List String
failing [] = []
failing ((name, r) ∷ ks) = let rest = failing ks in if clears r then rest else name ∷ rest

-- `guard`
unfoldable pub guard : GuardRuntime → OrderIntent → GuardContext → GuardResult
unfolding failing guard_checks
guard rt i c =
    let reasons = failing (guard_checks rt i c) in
    record { ok = is_empty reasons; reasons = reasons; binding = head? reasons }
