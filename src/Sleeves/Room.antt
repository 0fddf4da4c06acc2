-- ===== src/Sleeves/Room.antt =====
-- The budgets of the sleeves that the router names: signald/sleeves/router.py and budgets.py.
use text.Mathlib.TextEquality.{eq_iff}
use trading_execution.Prelude.{
  ◌≡◌, refl, sym, subst, zero, suc, Bool, true, false, ◌⊎◌, inl, inr, arith, String, str_eq, map,
  filter, Bool-cases, ◌&&◌,
}
use trading_execution.Prelude.Int.{pos, negsuc}
use trading_execution.Prelude.Float.{
  Float, fin, nan, inf, neg_inf, Arith, ◌≤f◌, leb_f, ltb_f, zero_f, max_f,
}
use trading_execution.Prelude.Results.{ok, err}
use trading_execution.Json.{Fields, Value, null, str, obj, int, num, bool, arr, Text, get, to_text}
use trading_execution.Risk.State.{BookState, intraday, position_notional}
use trading_execution.Sleeves.{
  SleeveConfig, SleeveBudget, Route, research, engine, chosen_sleeve, not_enabled, swing, agrees,
  route_research, route_intraday, policy_for, swing_policy, intraday_policy, budget_for, room_pct,
  at_ceiling, notional_room_usd, deployed_pct_of, sleeve_deployed,
}

max_f_lem : (x : Float) → zero_f ≤f max_f zero_f x
unfolding leb_f ltb_f
max_f_lem x = ground arith

-- The share of the equity that the positions of a sleeve stand for, and nothing where there is no equity.
abbrev pub DeployedOf : Arith → BookState → String → Float → Type 0
DeployedOf a b sleeve x =
    ((ltb_f zero_f b.equity ≡ true)
      × (x
          ≡ a.div
              (a.sum (map (position_notional a) (filter (λ p. str_eq p.sleeve sleeve) b.positions)))
              b.equity))
    ⊎ ((ltb_f zero_f b.equity ≡ false) × (x ≡ zero_f))

-- The budget of a sleeve with this ceiling: its room is what the ceiling leaves above the deployed share,
-- never negative and no NaN; it is full exactly if there is no room.
pub record IsBudgeted (a : Arith) (b : BookState) (sleeve : String) (ceiling : Float)
    (s : SleeveBudget) : Type 0 where
  pub named : s.sleeve ≡ sleeve
  pub deployed :
      (x : Float) × DeployedOf a b sleeve x × (room_pct a s ≡ max_f zero_f (a.sub ceiling x))
  pub room : zero_f ≤f room_pct a s
  pub dollars : notional_room_usd a s b ≡ max_f zero_f (a.mul (room_pct a s) b.equity)
  pub unspent : zero_f ≤f notional_room_usd a s b
  pub full :
      ((at_ceiling a s ≡ true) × (room_pct a s ≡ zero_f))
      ⊎ ((at_ceiling a s ≡ false) × (ltb_f zero_f (room_pct a s) ≡ true))

full_lem :
    (x : Float)
    → zero_f ≤f x
    → ((leb_f x zero_f ≡ true) × (x ≡ zero_f))
      ⊎ ((leb_f x zero_f ≡ false) × (ltb_f zero_f x ≡ true))
unfolding leb_f ltb_f
full_lem (fin (pos zero)) h = inl (refl, refl)
full_lem (fin (pos (suc n))) h = inr (ground arith, ground arith)
full_lem (fin (negsuc n)) h = ground (arith, h)
full_lem nan h = ground (arith, h)
full_lem inf h = inr (refl, refl)
full_lem neg_inf h = ground (arith, h)

module _ (a : Arith) (c : SleeveConfig) (b : BookState) where
  deployed_lem : (sleeve : String) → DeployedOf a b sleeve (deployed_pct_of a b sleeve)
  unfolding deployed_pct_of sleeve_deployed
  deployed_lem sleeve = elim (Bool-cases (ltb_f zero_f b.equity)) [
    | inl some_equity ↦ inl (some_equity, rw some_equity refl)
    | inr no_equity ↦ inr (no_equity, rw no_equity refl)
  ]

  budgeted_lem :
      (sleeve : String) (ceiling : Float) (s : SleeveBudget)
      → s.sleeve ≡ sleeve
      → s.capital_ceiling_pct ≡ ceiling
      → s.deployed_pct ≡ deployed_pct_of a b sleeve
      → IsBudgeted a b sleeve ceiling s
  unfolding room_pct notional_room_usd at_ceiling
  budgeted_lem sleeve ceiling s h k l =
      let x = max_f_lem (a.sub s.capital_ceiling_pct s.deployed_pct) in
      record {
        named = h;
        deployed = (deployed_pct_of a b sleeve, deployed_lem sleeve, rw (k, l) refl);
        room = x;
        dollars = refl;
        unspent = max_f_lem (a.mul (room_pct a s) b.equity);
        full = full_lem (room_pct a s) x;
      }

  -- `budget_for` answers, with such a budget.
  abbrev pub HasBudget : String → Float → Type 0
  HasBudget sleeve ceiling =
      (s : SleeveBudget) × (budget_for a c sleeve b ≡ ok s) × IsBudgeted a b sleeve ceiling s

  swing_lem : HasBudget swing c.sleeve_swing_capital_pct
  unfolding budget_for policy_for swing_policy intraday_policy
  swing_lem = (_, refl, budgeted_lem swing _ _ refl refl refl)

  intraday_lem : HasBudget intraday c.sleeve_intraday_capital_pct
  unfolding budget_for policy_for swing_policy intraday_policy
  intraday_lem = (_, refl, budgeted_lem intraday _ _ refl refl refl)

  -- The artifact names no sleeve, or the swing sleeve.
  abbrev pub Submits : Text → Value → Type 0
  Submits t declared = (declared ≡ null) ⊎ (t.lower (t.strip (to_text t declared)) ≡ swing)

  submits_lem : (t : Text) (v : Value) → agrees t v ≡ true → Submits t v
  submits_lem t null h = inl refl
  submits_lem t (str s) h = inr ((eq_iff _ _).0 h)
  submits_lem t (obj f) h = inr ((eq_iff _ _).0 h)
  submits_lem t (int n) h = inr ((eq_iff _ _).0 h)
  submits_lem t (num x) h = inr ((eq_iff _ _).0 h)
  submits_lem t (bool x) h = inr ((eq_iff _ _).0 h)
  submits_lem t (arr x) h = inr ((eq_iff _ _).0 h)

  -- A route of the research layer, and one of the engine.
  abbrev pub IsResearch : Text → Fields → Route → Type 0
  IsResearch t extra r =
      (r ≡ record { sleeve = swing; source = research }) × Submits t (get "sleeve" extra)

  abbrev pub IsEngine : Bool → Route → Type 0
  IsEngine enabled r =
      (r ≡ record { sleeve = intraday; source = engine })
      × (c.intraday_enabled ≡ true)
      × (enabled ≡ true)

  research_lem :
      (t : Text) (extra : Fields) (r : Route) → route_research t extra ≡ ok r → IsResearch t extra r
  unfolding route_research
  research_lem t extra r h = elim (Bool-cases (agrees t (get "sleeve" extra))) [
    | inl own ↦
        let e : ok record { sleeve = swing; source = research } ≡ ok r = rw own at h in
        (cc, submits_lem t (get "sleeve" extra) own)
    | inr other ↦ let e : err chosen_sleeve ≡ ok r = rw other at h in cc
  ]

  opt_ins_lem : (x y : Bool) → (x && y) ≡ true → (x ≡ true) × (y ≡ true)
  opt_ins_lem x y h = ground (arith, h)

  engine_lem : (enabled : Bool) (r : Route) → route_intraday c enabled ≡ ok r → IsEngine enabled r
  unfolding route_intraday
  engine_lem enabled r h = elim (Bool-cases (c.intraday_enabled && enabled)) [
    | inl both ↦
        let e : ok record { sleeve = intraday; source = engine } ≡ ok r = rw both at h in
        let (on, asked) = opt_ins_lem c.intraday_enabled enabled both in (cc, on, asked)
    | inr missing ↦ let e : err not_enabled ≡ ok r = rw missing at h in cc
  ]

  -- A route that the router gives to a research artifact is in the swing sleeve, and the artifact named no
  -- sleeve or that one; a route that it gives to the engine is in the intraday sleeve, and both opt-ins were
  -- set. For every book and configuration `budget_for` then answers for the route's sleeve with a budget
  -- under its name, whose room in percent is the configured ceiling of that sleeve less the share of the
  -- equity that its positions stand for, zero where that would be negative or NaN, and whose room in dollars
  -- is that share of the equity, never negative nor NaN; the sleeve is at its ceiling exactly if no room is
  -- left.
  pub route-HasBudget :
      (t : Text) (extra : Fields) (enabled : Bool) (r : Route)
      → (route_research t extra ≡ ok r) ⊎ (route_intraday c enabled ≡ ok r)
      → ((route_research t extra ≡ ok r)
          × IsResearch t extra r
          × HasBudget r.sleeve c.sleeve_swing_capital_pct)
        ⊎ ((route_intraday c enabled ≡ ok r)
            × IsEngine enabled r
            × HasBudget r.sleeve c.sleeve_intraday_capital_pct)
  route-HasBudget t extra enabled r (inl h) =
      let e = research_lem t extra r h in
      inl (h, e, subst (λ x. HasBudget x.sleeve c.sleeve_swing_capital_pct) (sym e.0) swing_lem)
  route-HasBudget t extra enabled r (inr h) =
      let e = engine_lem enabled r h in
      inr
        (h, e, subst (λ x. HasBudget x.sleeve c.sleeve_intraday_capital_pct) (sym e.0) intraday_lem)
