-- ===== src/Reconcile.antt =====
-- The comparison of the local ledger with the broker: signald/reconcile.py. The texts of the details are
-- not modelled.
pub mod InSync
mod Tests
use trading_execution.Prelude.{
  ℕ, Bool, true, false, not, Option, none, some, List, [], ◌∷◌, ◌++◌, String, str_eq, if◌then◌else◌,
  ◌||◌, ◌&&◌, any, get_or, is_empty, sort, text_le, map,
}
use trading_execution.Prelude.Dict.{lookup, insert}
use trading_execution.Prelude.Float.{Float, Arith, ltb_f, abs_f, zero_f}
use trading_execution.Prelude.Results.{Result, ok, err, ◌>>=◌}
use trading_execution.Json.{one_of}

-- A fill or a position, as far as it can be read.
pub record Holding : Type 0 where
  pub symbol : Option String
  pub qty : Option Float

-- A broker's order.
pub record BrokerOrder : Type 0 where
  pub symbol : Option String
  pub client_order_id : Option String
  pub status : String

-- `Drift`, by its kind
pub data Drift : Type 0 where
  position : String → Float → Float → Drift
  order : Option String → Option String → String → Drift
  cash : Option Float → Option Float → Drift

-- `ReconcileReport`
pub record ReconcileReport : Type 0 where
  pub ok : Bool
  pub halt : Bool
  pub drift : List Drift

-- `CLOSED_ORDER_STATUSES`
abbrev pub closed_statuses : List String
closed_statuses =
    "filled" ∷ "canceled" ∷ "cancelled" ∷ "expired" ∷ "rejected" ∷ "done_for_day" ∷ "stopped"
    ∷ "suspended" ∷ "replaced" ∷ "not_found" ∷ []

abbrev pub kind_of : Drift → String
kind_of (position s l b) = "position"
kind_of (order s c t) = "order"
kind_of (cash l b) = "cash"

abbrev pub symbol_of : Drift → String
symbol_of (position s l b) = s
symbol_of (order s c t) = get_or s ""
symbol_of (cash l b) = ""

-- the order of the sort key
abbrev pub comes_before : Drift → Drift → Bool
comes_before d e =
    if str_eq (kind_of d) (kind_of e)
    then text_le (symbol_of d) (symbol_of e)
    else text_le (kind_of d) (kind_of e)

-- `sorted(set(local_net) | set(broker_net))`: each key once
unfoldable pub distinct : List String → List String
distinct [] = []
distinct (k ∷ ks) = let rest = distinct ks in if one_of k rest then rest else k ∷ rest

abbrev pub keys {ℓ} : {V : Type ℓ} → List (String × V) → List String
keys m = map (λ e. e.0) m

unfoldable pub symbols : List (String × Float) → List (String × Float) → List String
unfolding distinct sort
symbols local_net broker_net = sort text_le (distinct (keys local_net ++ keys broker_net))

unfoldable pub known_ids : List (Option String) → List String
known_ids [] = []
known_ids (none ∷ os) = known_ids os
known_ids (some cid ∷ os) = cid ∷ known_ids os

-- `lower` is `str.lower`
module _ (lower : String → String) where
  abbrev pub is_closed : BrokerOrder → Bool
  is_closed o = one_of (lower o.status) closed_statuses

  abbrev pub is_known : List String → BrokerOrder → Bool
  is_known known o = elim o.client_order_id [ none ↦ false | some cid ↦ one_of cid known ]

  -- the loop over the broker's orders
  unfoldable pub order_drift : List String → List BrokerOrder → List Drift
  order_drift known [] = []
  order_drift known (o ∷ os) =
      let rest = order_drift known os in
      if is_closed o
      then rest
      else if is_known known o
      then rest
      else order o.symbol o.client_order_id (lower o.status) ∷ rest

module _ (a : Arith) where
  -- `_net_by_symbol`, from a net on
  unfoldable pub net_from :
      List (String × Float) → List Holding → Result String (List (String × Float))
  unfolding lookup insert
  net_from net [] = ok net
  net_from net (h ∷ hs) = elim h.symbol [
    | none ↦ err "record must expose symbol and qty"
    | some s ↦ elim h.qty [
      | none ↦ err "record must expose symbol and qty"
      | some q ↦ net_from (insert s (a.add (get_or (lookup s net) zero_f) q) net) hs
    ]
  ]

  abbrev pub quantity : List (String × Float) → String → Float
  quantity net s = get_or (lookup s net) zero_f

  -- one symbol is out of tolerance
  abbrev pub is_off : List (String × Float) → List (String × Float) → Float → String → Bool
  is_off local_net broker_net tolerance s =
      ltb_f tolerance (abs_f (a.sub (quantity local_net s) (quantity broker_net s)))

  -- the loop over the symbols
  unfoldable pub position_drift :
      List (String × Float) → List (String × Float) → Float → List String → List Drift
  position_drift local_net broker_net tolerance [] = []
  position_drift local_net broker_net tolerance (s ∷ ss) =
      let rest = position_drift local_net broker_net tolerance ss in
      if is_off local_net broker_net tolerance s
      then position s (quantity local_net s) (quantity broker_net s) ∷ rest
      else rest

  unfoldable pub cash_drift : Option Float → Option Float → Float → List Drift
  cash_drift none none tolerance = []
  cash_drift (some l) (some b) tolerance =
      if ltb_f tolerance (abs_f (a.sub l b)) then cash (some l) (some b) ∷ [] else []
  cash_drift l b tolerance = cash l b ∷ []

  abbrev pub report : List Drift → ReconcileReport
  report drift = record { ok = is_empty drift; halt = not (is_empty drift); drift = drift }

  -- What is compared.
  pub record Inputs : Type 0 where
    pub local_fills : List Holding
    pub broker_positions : List Holding
    pub broker_orders : List BrokerOrder
    pub local_open_orders : List (Option String)
    pub cash_local : Option Float
    pub cash_broker : Option Float
    pub share_tolerance : Float
    pub cash_tolerance : Float

  -- the drift, before it is sorted
  unfoldable pub drift_of :
      (String → String) → Inputs → List (String × Float) → List (String × Float) → List Drift
  unfolding symbols position_drift order_drift known_ids cash_drift
  drift_of lower i local_net broker_net =
      position_drift local_net broker_net i.share_tolerance (symbols local_net broker_net)
      ++ (order_drift lower (known_ids i.local_open_orders) i.broker_orders
          ++ cash_drift i.cash_local i.cash_broker i.cash_tolerance)

  -- `reconcile`
  unfoldable pub reconcile : (String → String) → Inputs → Result String ReconcileReport
  unfolding net_from drift_of sort
  reconcile lower i = net_from [] i.local_fills >>= λ local_net.
      net_from [] i.broker_positions >>= λ broker_net.
      ok (report (sort comes_before (drift_of lower i local_net broker_net)))
