-- ===== src/Risk/Gate/Capital.antt =====
-- The checks on the mandate and on the capital of the book: signald/risk/gate.py.
use trading_execution.Prelude.{
  Bool, false, not, Option, none, some, String, str_eq, if◌then◌else◌, ◌||◌, ◌&&◌, get_or,
}
use trading_execution.Prelude.Int.{pos, ltb_ℤ, leb_ℤ, ◌+ℤ◌}
use trading_execution.Prelude.Float.{Float, leb_f, ltb_f, eqb_f, max_f, min_f, abs_f, zero_f, one_f}
use trading_execution.Prelude.Results.{Result, ok, err}
use trading_execution.Json.{is_blank, or_none, one_of}
use trading_execution.Risk.State.{
  intraday, notional_per_share, position_for, book_notional, cluster_notional, count, count_all,
  tally, or_text,
}
use trading_execution.Risk.Gate.Context.{
  Runtime, Moment, Exc, type_error, is_expired, LastSignal, GateContext, Failure, blocked, reduced,
  is_order, is_signal,
}
use trading_execution.Risk.Gate.Projection.{projected_notional, risk_to_fit}

module _ (rt : Runtime) where
  -- `_reduces_a_held_name`
  unfoldable pub reduces_a_held_name : GateContext → Bool
  reduces_a_held_name c =
      if not (str_eq c.request.side "sell") || c.request.opens_short
      then false
      else let symbol = rt.t.upper c.request.symbol in
        elim c.held_symbols [
          | some held ↦ one_of symbol held
          | none ↦ ltb_f zero_f (position_for rt.a c.book symbol)
        ]

  -- `_action_of`
  unfoldable pub action_of : GateContext → Option String
  action_of c = or_none (rt.t.upper (rt.t.strip (get_or c.action "")))

  -- `_parse_iso`
  unfoldable pub parse_iso : String → Option Moment
  parse_iso value = if is_blank value then none else rt.from_iso (rt.fix_zone value)

  -- the end of `_cooldown_failure`, where the last signal is the same
  unfoldable pub cooldown_gap : GateContext → LastSignal → Result Exc (Option Failure)
  unfolding parse_iso
  cooldown_gap c last = elim (parse_iso last.emitted_at) [
    | none ↦ ok none
    | some stamp ↦ elim (rt.hours_between c.now stamp) [
      | none ↦ err type_error
      | some gap ↦
          if leb_f c.cooldown_hours (max_f zero_f gap)
          then ok none
          else ok (reduced "mandate" "cooldown" c.request.requested_risk_pct)
    ]
  ]

  -- `_cooldown_failure`
  unfoldable pub cooldown_failure : GateContext → LastSignal → Result Exc (Option Failure)
  cooldown_failure c last =
      if not (str_eq last.ticker c.request.symbol) then ok none else elim (action_of c) [
        | none ↦ ok none
        | some action ↦ if str_eq last.action action then cooldown_gap c last else ok none
      ]

  unfoldable pub last_cooldown : GateContext → Option LastSignal → Result Exc (Option Failure)
  unfolding cooldown_failure
  last_cooldown c none = ok none
  last_cooldown c (some last) = cooldown_failure c last

  -- the signal-stage end of `_mandate`
  unfoldable pub mandate_cooldown : GateContext → Result Exc (Option Failure)
  unfolding last_cooldown
  mandate_cooldown c = if is_signal c then last_cooldown c c.last_signal else ok none

  abbrev pub held_usd : GateContext → Float
  held_usd c = get_or c.positions_value_usd (book_notional rt.a c.book)

  abbrev pub projected_usd : GateContext → Float
  projected_usd c = rt.a.add (held_usd c) (projected_notional rt c.request)

  abbrev pub fit_or_block : String → String → String → Float → Option Failure
  fit_or_block check code none_left adjusted =
      if leb_f adjusted zero_f then blocked check none_left else reduced check code adjusted

  -- the caps of `_mandate`
  unfoldable pub mandate_caps : GateContext → Result Exc (Option Failure)
  mandate_caps c =
      let m = c.mandate in
      if ltb_f m.max_total_exposure_usd (projected_usd c)
      then ok (
          fit_or_block "mandate" "exposure_cap" "exposure_cap"
            (risk_to_fit rt c (rt.a.sub m.max_total_exposure_usd (held_usd c))))
      else if (elim c.request.planned_notional_usd [
        | none ↦ false
        | some planned ↦ ltb_f m.max_notional_per_order_usd planned
      ])
      then ok (
          fit_or_block "mandate" "order_cap" "order_cap"
            (risk_to_fit rt c m.max_notional_per_order_usd))
      else if ltb_f (rt.a.mul c.config.leverage_cap c.book.equity) (projected_usd c)
      then ok (blocked "mandate" "leverage_cap")
      else mandate_cooldown c

  -- `_mandate`
  unfoldable pub mandate : GateContext → Result Exc (Option Failure)
  mandate c =
      let m = c.mandate in
      if not (one_of c.request.symbol m.allowed) && not (reduces_a_held_name c)
      then ok (blocked "mandate" "symbol")
      else if is_expired m c.now
      then ok (blocked "mandate" "expired")
      else if c.request.opens_short && not m.shorts
      then ok (blocked "mandate" "shorts")
      else if ltb_ℤ (pos 0) m.max_daily_trades
          && leb_ℤ m.max_daily_trades (tally c.book.sleeve_trades_today c.request.sleeve)
      then ok (blocked "mandate" "daily_cap")
      else if ltb_f c.book.cash m.min_cash_reserve_usd
      then ok (blocked "mandate" "cash_reserve")
      else if not c.market.tradable
      then ok (blocked "mandate" "not_tradable")
      else mandate_caps c

  -- `_sleeve_capital`
  unfoldable pub sleeve_capital : GateContext → Option Failure
  sleeve_capital c =
      let room =
        rt.a.sub (rt.a.mul c.sleeve_ceiling_pct c.book.equity)
          (rt.a.mul c.sleeve_deployed_pct c.book.equity) in
      if leb_f room zero_f
      then blocked "sleeve_capital" "sleeve_ceiling"
      else if ltb_f room (projected_notional rt c.request)
      then fit_or_block "sleeve_capital" "sleeve_ceiling" "no_room" (risk_to_fit rt c room)
      else none

  -- `_house_drawdown`
  unfoldable pub house_drawdown : GateContext → Option Failure
  house_drawdown c =
      if c.ladder.halt
      then blocked "house_drawdown" "halt"
      else if str_eq c.request.sleeve intraday && not c.ladder.allow_new_intraday
      then blocked "house_drawdown" "no_new_intraday"
      else if ltb_f c.ladder.size_multiplier one_f
      then reduced "house_drawdown" c.ladder.reason
          (rt.a.mul c.request.requested_risk_pct c.ladder.size_multiplier)
      else none

  -- `_house_cvar`
  unfoldable pub house_cvar : GateContext → Option Failure
  house_cvar c =
      if not (is_order c)
      then none
      else if str_eq c.es.estimator "unavailable" || leb_ℤ c.es.window_days (pos 0)
      then blocked "house_cvar" "es_unavailable"
      else let budget = min_f c.config.es_budget_house_pct c.config.es_budget_sleeve_pct in
        if leb_f (rt.a.add c.es.value_pct c.request.requested_risk_pct) budget
        then none
        else fit_or_block "house_cvar" "es_budget" "es_budget"
            (max_f zero_f (rt.a.sub budget c.es.value_pct))

  -- `_correlation_stress`
  unfoldable pub correlation_stress : GateContext → Option Failure
  correlation_stress c =
      if not (is_order c)
      then none
      else let key = or_text c.request.cluster (or_text c.request.sector c.request.symbol) in
        let projected =
          rt.a.add (cluster_notional rt.a c.book key) (projected_notional rt c.request) in
        let cap = rt.a.mul (rt.a.mul c.config.cluster_cap_pct c.sleeve_ceiling_pct) c.book.equity in
        if ltb_f cap projected then blocked "correlation_stress" "cluster_cap" else none

  -- `_vol_regime`
  unfoldable pub vol_regime : GateContext → Option Failure
  vol_regime c =
      if leb_f one_f c.vol.scalar || not c.vol.warmup_ok
      then none
      else fit_or_block "vol_regime" "vol_above_target" "vol_scalar_zero"
          (rt.a.mul c.request.requested_risk_pct (max_f zero_f c.vol.scalar))

  -- the position counts of `_concentration`
  unfoldable pub position_counts : GateContext → Option Failure
  position_counts c =
      let is_intraday = str_eq c.request.sleeve intraday in
      let most =
        if is_intraday then c.config.max_positions_intraday else c.config.max_positions_swing in
      if leb_ℤ most (count c.book c.request.sleeve)
        && eqb_f (position_for rt.a c.book c.request.symbol) zero_f
      then blocked "concentration" "max_positions"
      else if leb_ℤ (c.config.max_positions_swing +ℤ c.config.max_positions_intraday)
          (count_all c.book)
      then blocked "concentration" "max_positions"
      else if is_intraday
          && (ltb_ℤ (pos 0) c.config.intraday_max_trades_per_name
              && leb_ℤ c.config.intraday_max_trades_per_name
                  (tally c.book.trades_today c.request.symbol))
      then blocked "concentration" "max_trades_per_name"
      else none

  -- `_concentration`
  unfoldable pub concentration : GateContext → Option Failure
  concentration c =
      if not (is_order c)
      then none
      else let cap_pct =
          if str_eq c.request.sleeve intraday
          then c.config.max_single_name_pct_intraday
          else c.config.max_single_name_pct_swing in
        let existing =
          rt.a.mul (abs_f (position_for rt.a c.book c.request.symbol))
            (notional_per_share c.request) in
        let cap = rt.a.mul cap_pct c.book.equity in
        if ltb_f cap (rt.a.add existing (projected_notional rt c.request))
        then fit_or_block "concentration" "single_name_cap" "single_name_cap"
            (risk_to_fit rt c (rt.a.sub cap existing))
        else position_counts c
