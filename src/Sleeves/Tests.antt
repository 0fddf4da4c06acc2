-- ===== src/Sleeves/Tests.antt =====
-- Runs of signald/sleeves, and of the book in signald/risk/state.py, on a small book.
use trading_execution.Prelude.{◌≡◌, refl, true, false, none, some, [], ◌∷◌, String, inr, ◌⊎◌}
use trading_execution.Prelude.Int.{pos, neg_ℤ, ◌+ℤ◌}
use trading_execution.Prelude.Float.{sum_with, Float, fin, nan, Arith, zero_f, leb_f, ltb_f}
use trading_execution.Prelude.Results.{ok, err}
use trading_execution.Json.{end, field, str, Text, get, to_text}
use trading_execution.Risk.State.{
  BookState, Position, intraday, position_notional, book_notional, clusters_from,
  cluster_exposure_share, open_risk_usd, unrealized_pct,
}
use trading_execution.Sleeves.{
  Route, SleeveConfig, engine, chosen_sleeve, not_enabled, unknown_sleeve, route_research,
  route_intraday, policy_for, swing_policy, intraday_policy, budget_for, sleeve_deployed,
  deployed_pct_of, notional_share, room_pct, notional_room_usd, at_ceiling,
}
use trading_execution.Sleeves.Room.{HasBudget, IsResearch, IsEngine, route-HasBudget}

abbrev add_x : Float → Float → Float
add_x (fin a) y = elim y [ fin b ↦ fin (a +ℤ b) | _ ↦ nan ]
add_x _ y = nan

abbrev sub_x : Float → Float → Float
sub_x (fin a) y = elim y [ fin b ↦ fin (a +ℤ neg_ℤ b) | _ ↦ nan ]
sub_x _ y = nan

abbrev sums : Arith
sums = record {
  add = add_x;
  sub = sub_x;
  mul = λ x y. y;
  div = λ x y. x;
  of_int = λ n. some (fin n);
  sum = sum_with add_x (fin (pos 0));
}

abbrev plain : Text
plain = record {
  strip = λ s. s;
  lower = λ s. s;
  upper = λ s. s;
  show = λ v. "True";
  repr = λ v. "";
  parse_int = λ s. none;
  parse_float = λ s. none;
  contains = λ needle s. false;
}

abbrev small : SleeveConfig
small = record {
  intraday_enabled = true;
  risk_per_trade_swing_pct = fin (pos 1);
  risk_per_trade_intraday_pct = fin (pos 1);
  max_positions_swing = pos 5;
  max_positions_intraday = pos 3;
  max_single_name_pct_swing = fin (pos 10);
  max_single_name_pct_intraday = fin (pos 10);
  intraday_max_trades_per_name = pos 2;
  intraday_flat_by = "15:55";
  sleeve_swing_capital_pct = fin (pos 60);
  sleeve_intraday_capital_pct = fin (pos 30);
  sleeve_swing_vol_target = fin (pos 8);
  sleeve_intraday_vol_target = fin (pos 8);
  es_budget_sleeve_pct = fin (pos 2);
  daily_loss_soft_pct = fin (pos 1);
  daily_loss_hard_pct = fin (pos 2);
}

abbrev held : String → Float → Position
held sleeve price = record {
  symbol = "X";
  qty = fin (pos 1);
  avg_entry = price;
  sleeve = sleeve;
  last = none;
  stop = none;
  setup = none;
  sector = none;
  cluster = none;
}

abbrev book : BookState
book = record {
  equity = fin (pos 100);
  cash = fin (pos 0);
  positions = held "swing" (fin (pos 20)) ∷ held "intraday" (fin (pos 40)) ∷ [];
  heat_pct = fin (pos 1);
  trades_today = [];
  sleeve_trades_today = [];
  buying_power = none;
}

budgets : Unit {0}
unfolding position_notional book_notional sleeve_deployed deployed_pct_of notional_share room_pct
    notional_room_usd at_ceiling leb_f ltb_f
budgets = tt

swing_share : deployed_pct_of sums book "swing" ≡ fin (pos 20)
unfolding budgets ◌+ℤ◌
swing_share = refl

empty_share : notional_share sums (record book { positions = [] }) "swing" ≡ zero_f
unfolding budgets
empty_share = refl

no_third_sleeve : budget_for sums small "pairs" book ≡ err unknown_sleeve
unfolding budget_for policy_for swing_policy intraday_policy
no_third_sleeve = refl

research_stays : route_research plain (field "sleeve" (str "intraday") end) ≡ err chosen_sleeve
unfolding route_research get to_text
research_stays = refl

one_opt_in : route_intraday small false ≡ err not_enabled
unfolding route_intraday
one_opt_in = refl

engine_route : route_intraday small true ≡ ok record { sleeve = intraday; source = engine }
unfolding route_intraday
engine_route = refl

abbrev engine_signal : Route
engine_signal = record { sleeve = intraday; source = engine }

route-HasBudget_example :
    ((route_research plain end ≡ ok engine_signal)
      × IsResearch sums small book plain end engine_signal
      × HasBudget sums small book intraday (fin (pos 60)))
    ⊎ ((route_intraday small true ≡ ok engine_signal)
        × IsEngine sums small book true engine_signal
        × HasBudget sums small book intraday (fin (pos 30)))
route-HasBudget_example =
    route-HasBudget sums small book plain end true engine_signal (inr engine_route)

abbrev grouped : Position
grouped = record (held "swing" (fin (pos 20))) {
  last = some (fin (pos 30));
  stop = some (fin (pos 25));
  cluster = some "C";
}

largest_cluster :
    cluster_exposure_share sums (record book { positions = grouped ∷ book.positions }) none
    ≡ some (fin (pos 60))
unfolding budgets clusters_from cluster_exposure_share ◌+ℤ◌
largest_cluster = refl

absent_cluster : cluster_exposure_share sums book (some "C") ≡ none
unfolding budgets clusters_from cluster_exposure_share ◌+ℤ◌
absent_cluster = refl

unstopped : open_risk_usd sums (held "swing" (fin (pos 20))) ≡ zero_f
unfolding open_risk_usd
unstopped = refl

unmarked : unrealized_pct sums (held "swing" (fin (pos 20))) ≡ none
unfolding unrealized_pct
unmarked = refl
