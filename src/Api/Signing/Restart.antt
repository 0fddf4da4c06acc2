-- ===== src/Api/Signing/Restart.antt =====
-- A restart of the process over the nonce journal: signald/api/signing.py, `NonceStore._load`.
use trading_execution.Prelude.{
  ℕ, ◌+◌, ◌≤◌, ◌<◌, ◌≡◌, refl, ◌∙◌, true, false, none, some, List, [], ◌∷◌, ◌++◌, String, arith,
  str_eq, eq_iff, eq_refl, is_some, ltb, All, Option-cases, inl, inr, ap, if_intro, Bool-cases,
  subst,
}
use trading_execution.Prelude.Dict.{lookup, lookup-insert, IsUnique, insert-IsUnique}
use trading_execution.Json.{is_blank}
use trading_execution.Api.Signing.Replay.{lookup-keep_fresh}
use trading_execution.Api.Signing.{
  Line, row, junk, NonceStore, load_line, load_lines, keep_fresh, load, refresh, has_seen, consume,
}

lookup-nil : (n : String) → lookup {V = ℕ} n [] ≡ none
unfolding lookup
lookup-nil n = refl

-- A process that starts over the journal of another.
unfoldable pub restart : NonceStore → NonceStore
restart s = record s { loaded = false; seen = [] }

-- No line of the journal names the nonce.
abbrev pub IsForeign : String → Line → Type 0
IsForeign n junk = Unit
IsForeign n (row m at) = str_eq m n ≡ false

load_line-foreign :
    (n : String) (l : Line) (seen : List (String × ℕ))
    → IsForeign n l
    → lookup n (load_line seen l) ≡ lookup n seen
unfolding load_line
load_line-foreign n junk seen h = refl
load_line-foreign n (row m at) seen h = ground (arith, lookup-insert m n at seen)

load_lines-last :
    (n : String) (at : ℕ) (ls : List Line) (seen : List (String × ℕ))
    → is_blank n ≡ false
    → lookup n seen ≡ none
    → All (IsForeign n) ls
    → lookup n (load_lines seen (ls ++ (row n at ∷ []))) ≡ some at
unfolding load_lines load_line
load_lines-last n at [] seen b h k = ground (arith, lookup-insert n n at seen, eq_refl n)
load_lines-last n at (l ∷ ls) seen b h k =
    load_lines-last n at ls (load_line seen l) b (load_line-foreign n l seen k.0 ∙ h) k.1

load_lines-twice :
    (n : String) (at later : ℕ) (ls : List Line) (seen : List (String × ℕ))
    → is_blank n ≡ false
    → lookup n seen ≡ none
    → All (IsForeign n) ls
    → at ≤ later
    → lookup n (load_lines seen ((ls ++ (row n at ∷ [])) ++ (row n later ∷ []))) ≡ some at
unfolding load_lines load_line
load_lines-twice n at later [] seen b h k o = ground (arith, lookup-insert n n at seen, eq_refl n)
load_lines-twice n at later (l ∷ ls) seen b h k o =
    load_lines-twice n at later ls (load_line seen l) b (load_line-foreign n l seen k.0 ∙ h) k.1 o

IsUnique-load_line :
    (l : Line) (seen : List (String × ℕ)) → IsUnique seen → IsUnique (load_line seen l)
unfolding load_line
IsUnique-load_line junk seen u = u
IsUnique-load_line (row m at) seen u =
    if_intro IsUnique (is_blank m) u (elim (Option-cases (lookup m seen)) [
      | inl e ↦ rw (e) (insert-IsUnique m at seen u)
      | inr (prev, e) ↦ rw (e) (if_intro IsUnique (ltb at prev) (insert-IsUnique m at seen u) u)
    ])

IsUnique-load_lines :
    (ls : List Line) (seen : List (String × ℕ)) → IsUnique seen → IsUnique (load_lines seen ls)
unfolding load_lines
IsUnique-load_lines [] seen u = u
IsUnique-load_lines (l ∷ ls) seen u =
    IsUnique-load_lines ls (load_line seen l) (IsUnique-load_line l seen u)

keep_fresh-none :
    (ttl now : ℕ) (n : String) (m : List (String × ℕ))
    → lookup n m ≡ none
    → lookup n (keep_fresh ttl now m) ≡ none
unfolding lookup keep_fresh
keep_fresh-none ttl now n [] h = refl
keep_fresh-none ttl now n ((j, t) ∷ m) h = ground (arith, keep_fresh-none ttl now n m)

keep_fresh-stale :
    (ttl now : ℕ) (n : String) (at : ℕ) (m : List (String × ℕ))
    → IsUnique m
    → lookup n m ≡ some at
    → at + ttl ≤ now
    → lookup n (keep_fresh ttl now m) ≡ none
unfolding lookup keep_fresh
keep_fresh-stale ttl now n at [] u h b = refl
keep_fresh-stale ttl now n at ((j, t) ∷ m) u h b = elim (Bool-cases (str_eq j n)) [
  | inl e ↦
      let left : lookup n m ≡ none = subst (λ k. lookup k m ≡ none) ((eq_iff j n).0 e) u.0 in
      ground (arith, keep_fresh-none ttl now n m left)
  | inr e ↦ ground (arith, keep_fresh-stale ttl now n at m u.1)
]

consume_lem :
    (s : NonceStore) (lines : List Line) (n : String) (at : ℕ)
    → s.file ≡ some lines
    → (consume s at n).0 ≡ true
    → ((consume s at n).1.file ≡ some (lines ++ (row n at ∷ []))) × ((consume s at n).1.ttl ≡ s.ttl)
unfolding consume refresh load
consume_lem s lines n at f h = ground arith

has_seen-restart :
    (s : NonceStore) (lines : List Line) (n : String) (now : ℕ)
    → s.file ≡ some lines
    → has_seen (restart s) now n ≡ is_some (lookup n (keep_fresh s.ttl now (load_lines [] lines)))
unfolding restart has_seen refresh load
has_seen-restart s lines n now f = ground arith

-- A nonce that the journal did not name is remembered across a restart for as long as it lives: once it
-- is claimed, a process that starts over the journal has seen it until the lifetime is over.
pub restart_remembers :
    (s : NonceStore) (lines : List Line) (n : String) (at now : ℕ)
    → s.file ≡ some lines
    → is_blank n ≡ false
    → All (IsForeign n) lines
    → (consume s at n).0 ≡ true
    → now < at + s.ttl
    → has_seen (restart (consume s at n).1) now n ≡ true
restart_remembers s lines n at now f b k h l =
    let (file, ttl) = consume_lem s lines n at f h in
    has_seen-restart (consume s at n).1 (lines ++ (row n at ∷ [])) n now file
    ∙ ap is_some (
        lookup-keep_fresh _ now n at _ (load_lines-last n at lines [] b (lookup-nil n) k)
          (rw ttl l))

-- A nonce that is claimed again once its first claim has lapsed is forgotten by a restart: however soon
-- after the second claim, a process that starts over the journal has not seen it, since the earliest of
-- the two rows is the one that is loaded.
pub restart_forgets :
    (s : NonceStore) (lines : List Line) (n : String) (at later now : ℕ)
    → s.file ≡ some lines
    → is_blank n ≡ false
    → All (IsForeign n) lines
    → (consume s at n).0 ≡ true
    → (consume (consume s at n).1 later n).0 ≡ true
    → at + s.ttl ≤ later
    → later ≤ now
    → has_seen (restart (consume (consume s at n).1 later n).1) now n ≡ false
restart_forgets s lines n at later now f b k h l lapsed soon =
    let (file, ttl) = consume_lem s lines n at f h in
    let (file', ttl') = consume_lem (consume s at n).1 (lines ++ (row n at ∷ [])) n later file l in
    has_seen-restart _ _ n now file'
    ∙ ap is_some (
        keep_fresh-stale _ now n at _ (IsUnique-load_lines _ [] tt)
          (load_lines-twice n at later lines [] b (lookup-nil n) k (omega arith))
          (rw (ttl', ttl) (omega arith)))
