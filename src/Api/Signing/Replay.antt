-- ===== src/Api/Signing/Replay.antt =====
-- The replay of a signed request: signald/api/signing.py, `NonceStore` and
-- `Authenticator.authenticate`.
use trading_execution.Prelude.{
  ℕ, ◌+◌, ◌≤◌, ◌<◌, ◌≡◌, sym, ◌∙◌, subst, true, false, not, Option, some, List, [], ◌∷◌, String,
  arith, inl, inr, ◌||◌, Bool-cases, Option-cases, All, eq_iff, is_some, ap, if_intro,
}
use trading_execution.Prelude.Dict.{lookup, lookup-insert}
use trading_execution.Json.{is_blank}
use trading_execution.Api.Signing.{
  Crypto, NonceStore, AuthResult, Request, Keyring, keep_fresh, consume, refresh, has_seen, load,
  rank, claim, admit, authenticate, serve, key_id_of, timestamp_of, nonce_of, signature_of,
  is_skewed, verify, parts_of,
}
use trading_execution.Api.Signing.Claims.{authenticate-Authentic, admit-ok, authenticate-ok}

pub lookup-keep_fresh :
    (ttl now : ℕ) (n : String) (at : ℕ) (m : List (String × ℕ))
    → lookup n m ≡ some at
    → now < at + ttl
    → lookup n (keep_fresh ttl now m) ≡ some at
unfolding lookup keep_fresh
lookup-keep_fresh ttl now n at [] h b = cc
lookup-keep_fresh ttl now n at ((j, t) ∷ m) h b = ground (arith, lookup-keep_fresh ttl now n at m)

-- The store has been read from its file, and remembers the nonce from that moment.
abbrev pub Holds : String → ℕ → ℕ → NonceStore → Type 0
Holds n at ttl s = (s.loaded ≡ true) × (lookup n s.seen ≡ some at) × (s.ttl ≡ ttl)

refresh-Holds :
    (n : String) (at ttl now : ℕ) (s : NonceStore)
    → Holds n at ttl s
    → now < at + ttl
    → Holds n at ttl (refresh s now)
unfolding refresh load
refresh-Holds n at ttl now s h b = ground (arith, lookup-keep_fresh ttl now n at s.seen)

consume-Holds :
    (n m : String) (at ttl now : ℕ) (s : NonceStore)
    → Holds n at ttl s
    → now < at + ttl
    → Holds n at ttl (consume s now m).1
unfolding consume
consume-Holds n m at ttl now s h b =
    let r = refresh-Holds n at ttl now s h b in
    ground (arith, r, lookup-insert m n now (refresh s now).seen, eq_iff m n)

refresh-loaded : (s : NonceStore) (now : ℕ) → (refresh s now).loaded ≡ true
unfolding refresh load
refresh-loaded s now = ground arith

refresh-ttl : (s : NonceStore) (now : ℕ) → (refresh s now).ttl ≡ s.ttl
unfolding refresh load
refresh-ttl s now = ground arith

same_some : {a b : ℕ} → ◌≡◌ {A = Option ℕ} (some a) (some b) → a ≡ b
same_some h = cc

-- Two moments within half a window of one stamp are a window apart at most.
window_lem :
    (w slack ttl a b at bt claimed : ℕ)
    → w + slack < ttl
    → a ≤ claimed
    → is_skewed w a at ≡ false
    → is_skewed w b bt ≡ false
    → at ≡ bt
    → b + slack + 1 ≤ claimed + ttl
window_lem w slack ttl a b at bt claimed h k l m e = ground arith

-- The clock stays below a bound while a request is served.
abbrev pub IsBefore : ℕ → Request → Type 0
IsBefore bound r = (r.seen_at < bound) × (r.consumed_at < bound)

IsBefore-weaken : (a b : ℕ) (rs : List Request) → a ≤ b → All (IsBefore a) rs → All (IsBefore b) rs
IsBefore-weaken a b [] h k = tt
IsBefore-weaken a b (r ∷ rs) h k = ((omega arith, omega arith), IsBefore-weaken a b rs h k.1)

module _ (c : Crypto) where
  claim-Holds :
      (n : String) (at ttl : ℕ) (secret role : String) (s : NonceStore) (r : Request)
      → Holds n at ttl s
      → r.consumed_at < at + ttl
      → Holds n at ttl (claim c secret role s r).1
  unfolding claim
  claim-Holds n at ttl secret role s r h b =
      let k = consume-Holds n (nonce_of c r) at ttl r.consumed_at s h b in
      if_intro (λ (x : AuthResult × NonceStore). Holds n at ttl x.1)
        (not (verify c secret (signature_of c r) (parts_of c r))) h
        (if_intro (λ (x : AuthResult × NonceStore). Holds n at ttl x.1)
          (not (consume s r.consumed_at (nonce_of c r)).0) k k)

  admit-Holds :
      (n : String) (at ttl window : ℕ) (secret role : String) (s : NonceStore) (r : Request)
      → Holds n at ttl s
      → IsBefore (at + ttl) r
      → Holds n at ttl (admit c window secret role s r).1
  unfolding admit
  admit-Holds n at ttl window secret role s r h b =
      let k = refresh-Holds n at ttl r.seen_at s h b.0 in
      let l = claim-Holds n at ttl secret role (refresh s r.seen_at) r k b.1 in
      elim (Option-cases (c.from_iso (c.strip (timestamp_of c r)))) [
        | inl e ↦ rw (e, admit) h
        | inr (t, e) ↦
            rw (e, admit)
              (if_intro (λ (x : AuthResult × NonceStore). Holds n at ttl x.1)
                (is_skewed window r.now t) h
                (if_intro (λ (x : AuthResult × NonceStore). Holds n at ttl x.1)
                  (has_seen s r.seen_at (nonce_of c r)) k l))
      ]

  authenticate-Holds :
      (n : String) (at ttl : ℕ) (k : Keyring) (s : NonceStore) (r : Request)
      → Holds n at ttl s
      → IsBefore (at + ttl) r
      → Holds n at ttl (authenticate c k s r).1
  unfolding authenticate
  authenticate-Holds n at ttl k s r h b =
      if_intro (λ (x : AuthResult × NonceStore). Holds n at ttl x.1)
        (is_blank (key_id_of c r)
          || (is_blank (timestamp_of c r)
              || (is_blank (nonce_of c r) || is_blank (signature_of c r))))
        h
        (elim (Option-cases (lookup (key_id_of c r) k.keys)) [
          | inl e ↦ rw (e, authenticate) h
          | inr (secret, e) ↦ elim (Option-cases (lookup (key_id_of c r) k.roles)) [
            | inl f ↦ rw (e, f, authenticate) h
            | inr (role, f) ↦
                rw (e, f, authenticate)
                  (if_intro (λ (x : AuthResult × NonceStore). Holds n at ttl x.1)
                    (is_some (rank role)) (admit-Holds n at ttl k.replay_window secret role s r h b)
                    h)
          ]
        ])

  serve-Holds :
      (n : String) (at ttl : ℕ) (k : Keyring) (rs : List Request) (s : NonceStore)
      → Holds n at ttl s
      → All (IsBefore (at + ttl)) rs
      → Holds n at ttl (serve c k s rs)
  unfolding serve
  serve-Holds n at ttl k [] s h b = h
  serve-Holds n at ttl k (r ∷ rs) s h b =
      serve-Holds n at ttl k rs (authenticate c k s r).1 (authenticate-Holds n at ttl k s r h b.0)
        b.1

  Holds-has_seen :
      (n : String) (at ttl now : ℕ) (s : NonceStore)
      → Holds n at ttl s
      → now < at + ttl
      → has_seen s now n ≡ true
  unfolding has_seen
  Holds-has_seen n at ttl now s h b = ground (arith, refresh-Holds n at ttl now s h b)

  claim-loaded :
      (secret role : String) (s : NonceStore) (r : Request)
      → s.loaded ≡ true
      → ((claim c secret role s r).1.loaded ≡ true) × ((claim c secret role s r).1.ttl ≡ s.ttl)
  unfolding claim consume refresh load
  claim-loaded secret role s r h = ground arith

  -- A request that was let in leaves a store that holds its nonce from the moment of the claim.
  authenticate_lem :
      (k : Keyring) (s : NonceStore) (r : Request)
      → (authenticate c k s r).0.ok ≡ true
      → Holds (nonce_of c r) r.consumed_at s.ttl (authenticate c k s r).1
  authenticate_lem k s r h =
      let (secret, role, l, m, e) = authenticate-ok c k s r h in
      let (at, f, g, u, d) =
        admit-ok c k.replay_window secret role s r (subst (λ x. x.0.ok ≡ true) e h) in
      let (ready, same) =
        claim-loaded secret role (refresh s r.seen_at) r (refresh-loaded s r.seen_at) in
      let claimed = (authenticate-Authentic c k s r h).claimed in
      (rw (e, d) ready, claimed, rw (e, d) (same ∙ refresh-ttl s r.seen_at))

  -- A signed request that was let in is not let in again under its nonce and timestamp, at once or after
  -- requests in between, however these were signed, on these conditions: the replay window and a slack are
  -- together shorter than the nonces' lifetime; the clock does not run back between the window test of the
  -- first request and its claim; every reading of the nonce store's clock for a request in between is at
  -- most the slack after the window test of the replay; and so is the store's first reading for the replay.
  pub no_replay :
      (k : Keyring) (s : NonceStore) (r : Request) (rs : List Request) (again : Request) (slack : ℕ)
      → (authenticate c k s r).0.ok ≡ true
      → nonce_of c again ≡ nonce_of c r
      → timestamp_of c again ≡ timestamp_of c r
      → k.replay_window + slack < s.ttl
      → r.now ≤ r.consumed_at
      → All (IsBefore (again.now + slack + 1)) rs
      → again.seen_at ≤ again.now + slack
      → (authenticate c k (serve c k (authenticate c k s r).1 rs) again).0.ok ≡ false
  no_replay k s r rs again slack h same_nonce same_stamp short forward between late =
      elim (Bool-cases (authenticate c k (serve c k (authenticate c k s r).1 rs) again).0.ok) [
        | inr e ↦ e
        | inl e ↦
            let left = (authenticate c k s r).1 in
            let p = authenticate-Authentic c k s r h in
            let q = authenticate-Authentic c k (serve c k left rs) again e in
            let near =
              window_lem k.replay_window slack s.ttl r.now again.now p.at q.at r.consumed_at short
                forward p.timely q.timely
                (same_some (
                  sym p.stamped ∙ ap (λ x. c.from_iso (c.strip x)) (sym same_stamp) ∙ q.stamped)) in
            let held =
              serve-Holds (nonce_of c r) r.consumed_at s.ttl k rs left (authenticate_lem k s r h)
                (IsBefore-weaken _ _ rs near between) in
            let seen =
              Holds-has_seen (nonce_of c r) r.consumed_at s.ttl again.seen_at (serve c k left rs)
                held (omega arith) in
            let unseen : has_seen (serve c k left rs) again.seen_at (nonce_of c r) ≡ false =
              subst (λ n. has_seen (serve c k left rs) again.seen_at n ≡ false) same_nonce
                q.unseen in
            cc
      ]
