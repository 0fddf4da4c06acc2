-- ===== src/Risk/Gate/Market.antt =====
-- The checks on the market and the setup: signald/risk/gate.py, `_market_regime` to
-- `_shortability`.
use trading_execution.Prelude.{
  Bool, false, not, Option, none, some, List, [], ◌∷◌, String, str_eq, if◌then◌else◌, ◌&&◌, get_or,
  ◌*◌, ◌^◌,
}
use trading_execution.Prelude.Int.{pos, neg_ℤ}
use trading_execution.Prelude.Float.{Float, fin, leb_f, ltb_f, eqb_f, zero_f}
use trading_execution.Json.{one_of}
use trading_execution.Risk.State.{MarketState, notional_per_share, spread_blown}
use trading_execution.Risk.Gate.Context.{Runtime, GateContext, Failure, blocked, is_order}
use trading_execution.Risk.Gate.Projection.{projected_notional, risk_to_fit, atr_pct}
use trading_execution.Risk.Gate.Capital.{fit_or_block}

-- `REVERSION_SETUPS` and `TREND_SETUPS`
abbrev pub reversion_setups : List String
reversion_setups = "VWAP_PULLBACK" ∷ "VWAP_REVERT" ∷ "GAP_FADE" ∷ []

abbrev pub trend_setups : List String
trend_setups = "ORB_RVOL" ∷ "GAP_GO" ∷ "VWAP_PULLBACK" ∷ []

-- `REOPEN_COOLDOWN_S`, 300.0
abbrev pub reopen_cooldown : Float
reopen_cooldown = fin (pos (300 * 2 ^ 1074))

-- -2.0
abbrev pub minus_two_f : Float
minus_two_f = fin (neg_ℤ (pos (2 * 2 ^ 1074)))

-- `x is not None and x < bound`
abbrev pub known_below : Option Float → Float → Bool
known_below x bound = elim x [ none ↦ false | some v ↦ ltb_f v bound ]

-- `x is not None and x > bound`
abbrev pub known_above : Option Float → Float → Bool
known_above x bound = elim x [ none ↦ false | some v ↦ ltb_f bound v ]

-- `_round_trip_cost_bps`
unfoldable pub round_trip_cost_bps_of : GateContext → Float
round_trip_cost_bps_of c =
    if known_below c.market.adv_shares c.config.min_adv_shares
    then c.config.cost_lowfloat_bps
    else c.config.cost_liquid_bps

-- `req.round_trip_cost_bps or _round_trip_cost_bps(ctx)`
unfoldable pub cost_bps : GateContext → Float
unfolding round_trip_cost_bps_of
cost_bps c = elim c.request.round_trip_cost_bps [
  | none ↦ round_trip_cost_bps_of c
  | some x ↦ if eqb_f x zero_f then round_trip_cost_bps_of c else x
]

-- `_wash`
unfoldable pub wash : GateContext → Option Failure
wash c = elim c.other_sleeve_side [
  | none ↦ none
  | some other ↦
      if str_eq other c.request.side
      then none
      else if c.wash_nets
      then none
      else blocked "wash" "self_cross"
]

-- `_shortability`
unfoldable pub shortability : GateContext → Option Failure
shortability c =
    if not c.request.opens_short
    then none
    else if not c.mandate.shorts
    then blocked "shortability" "shorts_off"
    else if not c.market.shortable
    then blocked "shortability" "not_etb"
    else if c.market.ssr
    then blocked "shortability" "ssr"
    else none

module _ (rt : Runtime) where
  -- `_market_regime`
  unfoldable pub market_regime : GateContext → Option Failure
  market_regime c =
      let setup = rt.t.upper c.request.setup in
      let day_type = rt.t.lower (get_or c.day_type "") in
      if not (one_of setup trend_setups) && not (one_of setup reversion_setups)
      then none
      else if not (str_eq day_type "trend") && not (str_eq day_type "range")
      then blocked "market_regime" "day_type_unknown"
      else if one_of setup trend_setups && not (str_eq day_type "trend")
      then blocked "market_regime" "setup_regime"
      else if one_of setup reversion_setups && not (str_eq day_type "range")
      then blocked "market_regime" "setup_regime"
      else none

  -- the impulse test of `_knife_guard`
  unfoldable pub falls_hard : MarketState → Bool
  falls_hard m = elim m.impulse_pct [
    | none ↦ false
    | some impulse ↦ elim (atr_pct rt m) [
      | none ↦ false
      | some atr ↦ leb_f impulse (rt.a.mul minus_two_f atr)
    ]
  ]

  -- `_knife_guard`
  unfoldable pub knife_guard : GateContext → Option Failure
  knife_guard c =
      if not (one_of (rt.t.upper c.request.setup) reversion_setups)
      then none
      else if c.market.news_shock
      then blocked "knife_guard" "news_shock"
      else if known_below c.market.reopen_cooldown_s reopen_cooldown
      then blocked "knife_guard" "reopen_cooldown"
      else if falls_hard c.market
      then blocked "knife_guard" "adverse_impulse"
      else none

  abbrev pub spread_check : GateContext → Option Failure
  spread_check c = if spread_blown rt.a c.market then blocked "liquidity" "spread_blowout" else none

  -- the participation cap of `_liquidity`, once the average volume is known
  unfoldable pub participation : GateContext → Float → Option Failure
  participation c adv =
      let cap_shares = rt.a.mul c.config.max_adv_pct adv in
      if ltb_f cap_shares
        (rt.a.div (projected_notional rt c.request) (notional_per_share c.request))
      then fit_or_block rt "liquidity" "participation" "participation"
          (risk_to_fit rt c (rt.a.mul cap_shares (notional_per_share c.request)))
      else spread_check c

  -- `_liquidity`
  unfoldable pub liquidity : GateContext → Option Failure
  liquidity c =
      if not (is_order c)
      then spread_check c
      else if leb_f (notional_per_share c.request) zero_f
      then blocked "liquidity" "no_price"
      else elim c.market.last [
        | none ↦ blocked "liquidity" "no_price"
        | some last ↦ elim c.market.adv_shares [
          | none ↦ blocked "liquidity" "no_adv"
          | some adv ↦
              if leb_f adv zero_f then blocked "liquidity" "no_adv" else participation c adv
        ]
      ]

  -- `_cost`
  unfoldable pub cost : GateContext → Option Failure
  cost c = if not (is_order c) then none else elim c.request.measured_move_bps [
    | none ↦ blocked "cost" "no_move"
    | some move ↦
        if leb_f (cost_bps c) zero_f
        then blocked "cost" "no_cost"
        else if leb_f move (rt.a.mul c.config.cost_gate_multiple (cost_bps c))
        then blocked "cost" "cost_gate"
        else none
  ]
