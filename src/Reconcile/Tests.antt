-- ===== src/Reconcile/Tests.antt =====
-- A ledger that agrees with the broker, and the theorems on it.
use trading_execution.Prelude.{
  ◌≡◌, refl, true, false, not, some, List, [], ◌∷◌, String, All, ◌⊎◌, sort, insert_sorted,
}
use trading_execution.Prelude.Dict.{lookup, insert}
use trading_execution.Prelude.Int.{pos, ◌+ℤ◌, ◌-ℤ◌}
use trading_execution.Prelude.Float.{sum_with, Float, nan, inf, neg_inf, fin, Arith, ltb_f}
use trading_execution.Prelude.Results.{ok}
use trading_execution.Reconcile.{
  Holding, distinct, symbols, known_ids, order_drift, net_from, quantity, is_off, position_drift,
  cash_drift, Inputs, drift_of, reconcile, report,
}
use trading_execution.Reconcile.InSync.{IsAccounted, IsBalanced, reconcile-InSync, nan_is_in_sync}

abbrev add_x : Float → Float → Float
add_x (fin a) y = elim y [ fin b ↦ fin (a +ℤ b) | _ ↦ nan ]
add_x _ y = nan

abbrev sub_x : Float → Float → Float
sub_x (fin a) y = elim y [ fin b ↦ fin (a -ℤ b) | _ ↦ nan ]
sub_x _ y = nan

abbrev exact : Arith
exact = record {
  add = add_x;
  sub = sub_x;
  mul = λ x y. x;
  div = λ x y. x;
  of_int = λ n. some (fin n);
  sum = sum_with add_x (fin (pos 0));
}

abbrev holding : String → Float → Holding
holding symbol qty = record { symbol = some symbol; qty = some qty }

abbrev inputs : Inputs exact
inputs = record {
  local_fills = holding "A" (fin (pos 3)) ∷ holding "A" (fin (pos 4)) ∷ [];
  broker_positions = holding "A" (fin (pos 7)) ∷ [];
  broker_orders = record { symbol = some "A"; client_order_id = some "c1"; status = "new" } ∷ [];
  local_open_orders = some "c1" ∷ [];
  cash_local = some (fin (pos 10));
  cash_broker = some (fin (pos 10));
  share_tolerance = fin (pos 0);
  cash_tolerance = fin (pos 1);
}

passes : Unit {0}
unfolding ◌+ℤ◌ ◌-ℤ◌ ltb_f lookup insert sort insert_sorted distinct symbols known_ids order_drift
    net_from position_drift cash_drift drift_of reconcile
passes = tt

agreed : reconcile exact (λ s. s) inputs ≡ ok (report exact [])
unfolding passes
agreed = refl

reconcile-InSync_example :
    (false ≡ not true)
    × ((true ≡ false)
        ⊎ ((l : List (String × Float)) × (b : List (String × Float)) × (net_from exact []
                inputs.local_fills
              ≡ ok l)
            × (net_from exact [] inputs.broker_positions ≡ ok b)
            × All (λ s. is_off exact l b inputs.share_tolerance s ≡ false) (symbols l b)
            × All (IsAccounted (λ s. s) (known_ids inputs.local_open_orders)) inputs.broker_orders
            × IsBalanced exact inputs.cash_local inputs.cash_broker inputs.cash_tolerance))
reconcile-InSync_example = reconcile-InSync exact (λ s. s) inputs (report exact []) agreed

sub_nan : (x : Float) → sub_x x nan ≡ nan
sub_nan (fin a) = refl
sub_nan nan = refl
sub_nan inf = refl
sub_nan neg_inf = refl

abbrev local_net : List (String × Float)
local_net = ("A", fin (pos 7)) ∷ []

abbrev broker_net : List (String × Float)
broker_net = ("A", nan) ∷ []

not_known : quantity exact broker_net "A" ≡ nan
unfolding passes
not_known = refl

nan_is_in_sync_test : is_off exact local_net broker_net (fin (pos 0)) "A" ≡ false
nan_is_in_sync_test = nan_is_in_sync exact local_net broker_net (fin (pos 0)) "A" sub_nan not_known
