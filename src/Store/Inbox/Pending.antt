-- ===== src/Store/Inbox/Pending.antt =====
-- The keys that are re-driven on restart: signald/inbox.py, `Inbox.pending`.
use trading_execution.Prelude.{
  ◌≡◌, refl, ◌∙◌, ap, subst, Bool, false, Option, none, some, List, [], ◌∷◌, String, str_eq, eq_iff,
  arith, inl, inr, Bool-cases, any, text_le, any-sort,
}
use trading_execution.Prelude.Dict.{lookup, insert, lookup-insert, IsUnique, insert-IsUnique}
use trading_execution.Store.Inbox.{
  Row, state_text, keyed, latest_of, state_of, latest, admitted_keys, pending,
}

-- The key was admitted and nothing has happened to it since.
abbrev pub is_open : Option String → Bool
is_open none = false
is_open (some state) = str_eq state "admitted"

lookup-latest :
    (key : String) (m : List (String × String)) (rows : List Row)
    → lookup key (latest m rows) ≡ latest_of key (lookup key m) rows
unfolding latest latest_of
lookup-latest key m [] = refl
lookup-latest key m (r ∷ rows) =
    lookup-latest key (insert r.key (state_text r) m) rows
    ∙ ap (λ s. latest_of key s rows) (lookup-insert r.key key (state_text r) m)

latest-IsUnique :
    (m : List (String × String)) (rows : List Row) → IsUnique m → IsUnique (latest m rows)
unfolding latest
latest-IsUnique m [] u = u
latest-IsUnique m (r ∷ rows) u =
    latest-IsUnique (insert r.key (state_text r) m) rows (insert-IsUnique r.key (state_text r) m u)

any-admitted_keys :
    (key : String) (m : List (String × String))
    → IsUnique m
    → any (λ k. str_eq k key) (admitted_keys m) ≡ is_open (lookup key m)
unfolding admitted_keys lookup
any-admitted_keys key [] u = refl
any-admitted_keys key ((k, state) ∷ m) (new, u) = elim (Bool-cases (str_eq k key)) [
  | inl same ↦
      let gone : lookup key m ≡ none = subst (λ j. lookup j m ≡ none) ((eq_iff k key).0 same) new in
      ground (arith, any-admitted_keys key m u, gone, same)
  | inr other ↦ ground (arith, any-admitted_keys key m u, other)
]

lookup-nil : (k : String) → lookup {V = String} k [] ≡ none
unfolding lookup
lookup-nil k = refl

-- The sweep on restart holds a key exactly if the last row of the key says that it is admitted.
pub pending-state_of :
    (key : String) (rows : List Row)
    → any (λ k. str_eq k key) (pending rows) ≡ is_open (state_of rows key)
unfolding pending state_of
pending-state_of key rows =
    any-sort (λ k. str_eq k key) text_le (admitted_keys (latest [] (keyed rows)))
    ∙ (any-admitted_keys key (latest [] (keyed rows)) (latest-IsUnique [] (keyed rows) tt)
        ∙ ap is_open (
            lookup-latest key [] (keyed rows)
            ∙ ap (λ s. latest_of key s (keyed rows)) (lookup-nil key)))
