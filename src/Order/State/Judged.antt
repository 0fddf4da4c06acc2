-- ===== src/Order/State/Judged.antt =====
-- What the evaluation of one event promises of the state that it leads to.
use mathlib.Core.Path.{subst₂}
use trading_execution.Prelude.{◌≡◌, true, Option, none, some, String, arith, ◌⊎◌, subst}
use trading_execution.Prelude.Int.{ℤ, pos, ◌+ℤ◌, ◌≤ℤ◌, ◌<ℤ◌, leb_ℤ, int_laws}
use trading_execution.Prelude.Float.{Arith}
use trading_execution.Prelude.Results.{ok, guard, ◌>>◌, >>=-eq-ok}
use trading_execution.Json.{Fields, Text}
use trading_execution.Order.State.Types.{Status, is_legal, same_status, OrderState, Fill, bad}
use trading_execution.Order.State.Apply.{
  Reading, Advance, read, check_transition, base_filled, fill_total, apply_fill, keep, keep_filled,
  advance, judge, state_of,
}

-- The execution raises the quantity by its own positive quantity; without one the known quantity
-- stays, and a first sighting may start anywhere from zero.
abbrev pub Counts : String → Option OrderState → Option Fill → ℤ → Type 0
Counts cid prev (some f) filled =
    (f.client_order_id ≡ cid) × (pos 0 <ℤ f.qty) × (filled ≡ base_filled prev +ℤ f.qty)
Counts cid none none filled = pos 0 ≤ℤ filled
Counts cid (some p) none filled = filled ≡ p.filled_qty

-- A status that may follow what is known of the order.
abbrev pub Follows : Option OrderState → Status → Type 0
Follows none s = Unit
Follows (some p) s = (s ≡ p.status) ⊎ (is_legal p.status s ≡ true)

check_transition-Follows :
    (prev : Option OrderState) (s : Status) → check_transition prev s ≡ ok tt → Follows prev s
unfolding check_transition same_status
check_transition-Follows none s h = tt
check_transition-Follows (some p) s h = ground (arith)

module _ (t : Text) (a : Arith) where
  read_lem :
      (now : String) (event order : Fields) (cid : String) (prev : Option OrderState) {r : Reading}
      → read t a now event order cid prev ≡ ok r
      → (r.client_order_id ≡ cid) × (check_transition prev r.target ≡ ok tt)
  unfolding read
  read_lem now event order cid prev h = ground arith

  fill_total_lem :
      (broker : Option ℤ) (base qty : ℤ) {n : ℤ}
      → fill_total t a broker base qty ≡ ok n
      → n ≡ base +ℤ qty
  unfolding fill_total
  fill_total_lem none base qty h = ground arith
  fill_total_lem (some b) base qty h = grind int_laws

  apply_fill-Counts :
      (event : Fields) (r : Reading) (prev : Option OrderState) {v : Advance}
      → apply_fill t a event r prev ≡ ok v
      → Counts r.client_order_id prev v.fill v.filled
  unfolding apply_fill
  apply_fill-Counts event r prev h = grind (arith, fill_total_lem)

  keep-Counts :
      (r : Reading) (prev : Option OrderState) {v : Advance}
      → keep t a r prev ≡ ok v
      → Counts r.client_order_id prev v.fill v.filled
  unfolding keep keep_filled
  keep-Counts r none h = grind int_laws
  keep-Counts r (some p) h = grind int_laws

  advance-Counts :
      (event : Fields) (r : Reading) (prev : Option OrderState) {v : Advance}
      → advance t a event r prev ≡ ok v
      → Counts r.client_order_id prev v.fill v.filled
  unfolding advance
  advance-Counts event r prev {v} h =
      ground (arith, apply_fill-Counts event r prev {v = v}, keep-Counts r prev {v = v})

  -- The last guard of `judge`, and what is returned behind it.
  finish_lem :
      (r : Reading) (v : Advance) {s : OrderState} {f : Option Fill}
      → ◌>>◌ {B = OrderState × Option Fill}
          (guard (leb_ℤ v.filled r.qty) (bad "filled_qty_exceeds_qty" ""))
          (ok (state_of t a r v, v.fill))
        ≡ ok (s, f)
      → (v.filled ≤ℤ r.qty) × (state_of t a r v ≡ s) × (v.fill ≡ f)
  finish_lem r v {s} {f} h = ground arith

  -- What an event that is applied leads to.
  pub judge_lem :
      (now : String) (event order : Fields) (cid : String) (prev : Option OrderState)
      {s : OrderState} {f : Option Fill}
      → judge t a now event order cid prev ≡ ok (s, f)
      → (s.client_order_id ≡ cid)
        × Counts cid prev f s.filled_qty
        × (s.filled_qty ≤ℤ s.qty)
        × Follows prev s.status
  unfolding judge
  judge_lem now event order cid prev {s} {f} h =
      let (r, hr, k) = >>=-eq-ok (read t a now event order cid prev) _ h in
      let (v, hv, g) = >>=-eq-ok (advance t a event r prev) _ k in
      let (same, fits) = read_lem now event order cid prev hr in
      let (le, es, ef) = finish_lem r v g in
      subst₂
        (λ s f.
          (s.client_order_id ≡ cid)
          × Counts cid prev f s.filled_qty
          × (s.filled_qty ≤ℤ s.qty)
          × Follows prev s.status)
        es ef
        (
          same,
          subst (λ c. Counts c prev v.fill v.filled) same (advance-Counts event r prev hv),
          le,
          check_transition-Follows prev r.target fits,
        )
