-- ===== src/Risk/State.antt =====
-- The typed inputs of a decision: signald/risk/state.py. Python's `+`, `*` and `/` on floats are the
-- operations of the parameter `a`.
use trading_execution.Prelude.{
  ℕ, suc, ◌*◌, ◌^◌, Bool, false, Option, none, some, List, [], ◌∷◌, String, str_eq, if◌then◌else◌,
  get_or, length, map,
}
use trading_execution.Prelude.Dict.{lookup, insert}
use trading_execution.Prelude.Int.{ℤ, pos}
use trading_execution.Prelude.Float.{
  Float, fin, Arith, ltb_f, leb_f, eqb_f, abs_f, neg_f, max_f, zero_f, one_f,
}
use trading_execution.Json.{is_blank}

-- `INTRADAY`
abbrev pub intraday : String
intraday = "intraday"

pub record Position : Type 0 where
  pub symbol : String
  pub qty : Float
  pub avg_entry : Float
  pub sleeve : String
  pub last : Option Float
  pub stop : Option Float
  pub setup : Option String
  pub sector : Option String
  pub cluster : Option String

pub record BookState : Type 0 where
  pub equity : Float
  pub cash : Float
  pub positions : List Position
  pub heat_pct : Float
  pub trades_today : List (String × ℤ)
  pub sleeve_trades_today : List (String × ℤ)
  pub buying_power : Option Float

pub record MarketState : Type 0 where
  pub symbol : String
  pub last : Option Float
  pub spread_bps : Option Float
  pub spread_median_bps : Option Float
  pub quote_age_s : Option Float
  pub bar_age_s : Option Float
  pub session : Option String
  pub halted : Bool
  pub reopen_cooldown_s : Option Float
  pub tradable : Bool
  pub shortable : Bool
  pub ssr : Bool
  pub adv_shares : Option Float
  pub atr : Option Float
  pub data_quality : String
  pub price_caliber : Option String
  pub impulse_pct : Option Float
  pub news_shock : Bool
  pub last_bar_high : Option Float
  pub last_bar_low : Option Float

pub record RiskRequest : Type 0 where
  pub sleeve : String
  pub symbol : String
  pub setup : String
  pub side : String
  pub stop_distance : Float
  pub price : Float
  pub equity : Float
  pub requested_risk_pct : Float
  pub stop_price : Option Float
  pub measured_move_bps : Option Float
  pub round_trip_cost_bps : Option Float
  pub trailing_volume : Option Float
  pub cluster : Option String
  pub sector : Option String
  pub opens_short : Bool
  pub planned_notional_usd : Option Float

-- 3.0
abbrev pub three_f : Float
three_f = fin (pos (3 * 2 ^ 1074))

-- `a or b` of texts that may be missing: the empty text counts as missing.
abbrev pub or_text : Option String → String → String
or_text none d = d
or_text (some s) d = if is_blank s then d else s

-- `RiskRequest.notional_per_share`
unfoldable pub notional_per_share : RiskRequest → Float
notional_per_share r = abs_f r.price

module _ (a : Arith) where
  -- `Position.notional`
  unfoldable pub position_notional : Position → Float
  position_notional p = a.mul (abs_f p.qty) (get_or p.last p.avg_entry)

  -- the loop of `by_symbol` for one symbol
  unfoldable pub net_from : String → Float → List Position → Float
  net_from symbol net [] = net
  net_from symbol net (p ∷ ps) =
      net_from symbol (if str_eq p.symbol symbol then a.add net p.qty else net) ps

  -- `BookState.position_for`
  unfoldable pub position_for : BookState → String → Float
  unfolding net_from
  position_for b symbol = net_from symbol zero_f b.positions

  -- `BookState.notional`
  unfoldable pub book_notional : BookState → Float
  unfolding position_notional
  book_notional b = a.sum (map position_notional b.positions)

  -- the loop of `cluster_notional` for one cluster
  unfoldable pub cluster_from : String → Float → List Position → Float
  unfolding position_notional
  cluster_from key total [] = total
  cluster_from key total (p ∷ ps) =
      cluster_from key
        (if str_eq (or_text p.cluster (or_text p.sector p.symbol)) key
          then a.add total (position_notional p)
          else total)
        ps

  -- `BookState.cluster_notional().get(key, 0.0)`
  unfoldable pub cluster_notional : BookState → String → Float
  unfolding cluster_from
  cluster_notional b key = cluster_from key zero_f b.positions

  -- `MarketState.spread_blown`
  unfoldable pub spread_blown : MarketState → Bool
  spread_blown m = elim m.spread_bps [
    | none ↦ false
    | some spread ↦ elim m.spread_median_bps [
      | none ↦ false
      | some median ↦ if eqb_f median zero_f then false else ltb_f (a.mul three_f median) spread
    ]
  ]

unfoldable pub count_from : String → List Position → ℕ
count_from sleeve [] = 0
count_from sleeve (p ∷ ps) =
    let rest = count_from sleeve ps in if str_eq p.sleeve sleeve then suc rest else rest

-- `BookState.count(sleeve)`
unfoldable pub count : BookState → String → ℤ
unfolding count_from
count b sleeve = pos (count_from sleeve b.positions)

-- `BookState.count()`
unfoldable pub count_all : BookState → ℤ
count_all b = pos (length b.positions)

-- `d.get(key, 0)` of a counter
unfoldable pub tally : List (String × ℤ) → String → ℤ
unfolding lookup
tally d key = get_or (lookup key d) (pos 0)

-- `Position.is_long`
abbrev pub is_long : Position → Bool
is_long p = ltb_f zero_f p.qty

module _ (a : Arith) where
  -- `Position.open_risk_usd`
  unfoldable pub open_risk_usd : Position → Float
  open_risk_usd p = elim p.stop [
    | none ↦ zero_f
    | some stop ↦ elim p.last [
      | none ↦ zero_f
      | some last ↦ a.mul (abs_f (a.sub last stop)) (abs_f p.qty)
    ]
  ]

  -- `Position.unrealized_pct`
  unfoldable pub unrealized_pct : Position → Option Float
  unrealized_pct p = elim p.last [
    | none ↦ none
    | some last ↦
        if eqb_f p.avg_entry zero_f
        then none
        else some (
            a.mul (a.div (a.sub last p.avg_entry) p.avg_entry)
              (if is_long p then one_f else neg_f one_f))
  ]

  -- `cluster_notional()`, as the dict that it returns
  unfoldable pub clusters_from : List (String × Float) → List Position → List (String × Float)
  unfolding position_notional lookup insert
  clusters_from out [] = out
  clusters_from out (p ∷ ps) =
      let key = or_text p.cluster (or_text p.sector p.symbol) in
      clusters_from
        (insert key (a.add (get_or (lookup key out) zero_f) (position_notional a p)) out) ps

  -- `max(notional.values())`, from the first value on
  abbrev pub greatest_from : Float → List (String × Float) → Float
  greatest_from best [] = best
  greatest_from best (e ∷ es) = greatest_from (max_f best e.1) es

  abbrev pub greatest : List (String × Float) → Option Float
  greatest [] = none
  greatest (e ∷ es) = some (greatest_from e.1 es)

  -- the notional that `cluster_exposure_share` divides by the equity
  abbrev pub measured : List (String × Float) → Option String → Option Float
  measured clusters none = greatest clusters
  measured clusters (some key) = lookup key clusters

  -- `BookState.cluster_exposure_share`
  unfoldable pub cluster_exposure_share : BookState → Option String → Option Float
  unfolding clusters_from lookup
  cluster_exposure_share b key =
      if leb_f b.equity zero_f then none else (elim (measured (clusters_from [] b.positions) key) [
        | none ↦ none
        | some notional ↦ some (a.div notional b.equity)
      ])
