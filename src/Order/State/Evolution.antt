-- ===== src/Order/State/Evolution.antt =====
-- How the state of an order may change while events arrive.
use trading_execution.Prelude.{◌≡◌, refl, true, Option, none, some, String, arith, ◌⊎◌, inl}
use trading_execution.Prelude.Int.{◌≤ℤ◌, int_laws}
use trading_execution.Order.State.Types.{Status, is_terminal, is_legal, OrderState, Fill}
use trading_execution.Order.State.Judged.{Follows, Counts}

-- The later state of an order that is known: it stays known, its filled quantity has not
-- fallen, its status has moved along legal transitions, and a terminal status has not moved.
abbrev pub Evolves : Option OrderState → Option OrderState → Type 0
Evolves none s = Unit
Evolves (some p) none = ⊥
Evolves (some p) (some s) =
    (p.filled_qty ≤ℤ s.filled_qty)
    × ((s.status ≡ p.status) ⊎ (is_legal p.status s.status ≡ true))
    × (is_terminal p.status ≡ true → s.status ≡ p.status)

pub is_legal-terminal : (s t : Status) → is_terminal s ≡ true → is_legal s t ≡ true → t ≡ s
unfolding is_legal is_terminal
is_legal-terminal s t h k = ground arith

pub is_legal_trans :
    (s t u : Status) → is_legal s t ≡ true → is_legal t u ≡ true → is_legal s u ≡ true
unfolding is_legal
is_legal_trans s t u h k = ground arith

pub Evolves-refl : (o : Option OrderState) → Evolves o o
Evolves-refl none = tt
Evolves-refl (some p) = (omega arith, inl refl, λ h. refl)

pub Evolves-trans : (o p q : Option OrderState) → Evolves o p → Evolves p q → Evolves o q
Evolves-trans none p q h k = tt
Evolves-trans (some o) none q h k = absurd h
Evolves-trans (some o) (some p) none h k = absurd k
Evolves-trans (some o) (some p) (some q) h k =
    ground (arith, is_legal_trans o.status p.status q.status)

-- An event that is applied lets its order evolve.
pub Evolves-of_judged :
    (prev : Option OrderState) (cid : String) (f : Option Fill) (s : OrderState)
    → Counts cid prev f s.filled_qty
    → Follows prev s.status
    → Evolves prev (some s)
Evolves-of_judged none cid f s c fo = tt
Evolves-of_judged (some p) cid none s c fo = ground (arith, is_legal-terminal p.status s.status)
Evolves-of_judged (some p) cid (some x) s c fo =
    grind (int_laws, is_legal-terminal p.status s.status)
