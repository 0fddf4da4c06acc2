-- ===== src/Api/Signing/Claims.antt =====
-- What a request that is let in has shown, and what one that is refused has spent:
-- signald/api/signing.py, `Authenticator.authenticate`.
use trading_execution.Prelude.{
  ℕ, ◌≡◌, refl, true, false, Option, none, some, String, arith, is_some, inl, inr, ◌||◌, Bool-cases,
  Option-cases,
}
use trading_execution.Prelude.Dict.{lookup, lookup-insert_self}
use trading_execution.Json.{is_blank}
use trading_execution.Api.Signing.{
  Crypto, NonceStore, Request, Keyring, rank, role_allows, verify, consume, refresh, has_seen,
  grant, claim, admit, authenticate, key_id_of, timestamp_of, nonce_of, signature_of, parts_of,
  is_skewed,
}

-- The role is enough for what the request needs.
abbrev pub Suffices : String → Option String → Type 0
Suffices role none = Unit
Suffices role (some required) = role_allows role required ≡ true

grant-ok : (role : String) (req : Option String) → (grant role req).ok ≡ true → Suffices role req
unfolding grant
grant-ok role none h = tt
grant-ok role (some required) h = ground arith

module _ (c : Crypto) where
  consume-claims :
      (s : NonceStore) (now : ℕ) (nonce : String)
      → (consume s now nonce).0 ≡ true
      → (lookup nonce (refresh s now).seen ≡ none)
        × (lookup nonce (consume s now nonce).1.seen ≡ some now)
  unfolding consume
  consume-claims s now nonce h = elim (Option-cases (lookup nonce (refresh s now).seen)) [
    | inl e ↦ (e, rw (e, consume) (lookup-insert_self nonce now (refresh s now).seen))
    | inr (at, e) ↦ let no : false ≡ true = rw (e, consume) at h in cc
  ]

  claim-ok :
      (secret role : String) (s : NonceStore) (r : Request)
      → (claim c secret role s r).0.ok ≡ true
      → (verify c secret (signature_of c r) (parts_of c r) ≡ true)
        × Suffices role r.required_role
        × (lookup (nonce_of c r) (claim c secret role s r).1.seen ≡ some r.consumed_at)
  unfolding claim
  claim-ok secret role s r h =
      let n = nonce_of c r in
      elim (Bool-cases (verify c secret (signature_of c r) (parts_of c r))) [
        | inr e ↦ let no : false ≡ true = rw (e, claim) at h in cc
        | inl e ↦ elim (Bool-cases (consume s r.consumed_at n).0) [
          | inr k ↦ let no : false ≡ true = rw (e, k, claim) at h in cc
          | inl k ↦
              let mine = consume-claims s r.consumed_at n k in
              (e, grant-ok role r.required_role (rw (e, k, claim) at h), rw (e, k, claim) (mine.1))
        ]
      ]

  -- What a request that was let in has shown.
  pub record Authentic (k : Keyring) (s : NonceStore) (r : Request) : Type 0 where
    pub secret : String
    pub role : String
    pub at : ℕ
    pub known : lookup (key_id_of c r) k.keys ≡ some secret
    pub ranked : lookup (key_id_of c r) k.roles ≡ some role
    pub suffices : Suffices role r.required_role
    pub stamped : c.from_iso (c.strip (timestamp_of c r)) ≡ some at
    pub timely : is_skewed k.replay_window r.now at ≡ false
    pub signed : verify c secret (signature_of c r) (parts_of c r) ≡ true
    pub unseen : has_seen s r.seen_at (nonce_of c r) ≡ false
    pub claimed : lookup (nonce_of c r) (authenticate c k s r).1.seen ≡ some r.consumed_at

  pub admit-ok :
      (window : ℕ) (secret role : String) (s : NonceStore) (r : Request)
      → (admit c window secret role s r).0.ok ≡ true
      → (at : ℕ) × (c.from_iso (c.strip (timestamp_of c r)) ≡ some at)
        × (is_skewed window r.now at ≡ false)
        × (has_seen s r.seen_at (nonce_of c r) ≡ false)
        × (admit c window secret role s r ≡ claim c secret role (refresh s r.seen_at) r)
  unfolding admit
  admit-ok window secret role s r h =
      elim (Option-cases (c.from_iso (c.strip (timestamp_of c r)))) [
        | inl e ↦ let no : false ≡ true = rw (e, admit) at h in cc
        | inr (at, e) ↦ elim (Bool-cases (is_skewed window r.now at)) [
          | inl k ↦ let no : false ≡ true = rw (e, k, admit) at h in cc
          | inr k ↦ elim (Bool-cases (has_seen s r.seen_at (nonce_of c r))) [
            | inl l ↦ let no : false ≡ true = rw (e, k, l, admit) at h in cc
            | inr l ↦ (at, e, k, l, rw (e, k, l, admit) refl)
          ]
        ]
      ]

  pub authenticate-ok :
      (k : Keyring) (s : NonceStore) (r : Request)
      → (authenticate c k s r).0.ok ≡ true
      → (secret : String) × (role : String) × (lookup (key_id_of c r) k.keys ≡ some secret)
        × (lookup (key_id_of c r) k.roles ≡ some role)
        × (authenticate c k s r ≡ admit c k.replay_window secret role s r)
  unfolding authenticate
  authenticate-ok k s r h =
      elim (Bool-cases (
        is_blank (key_id_of c r)
        || (is_blank (timestamp_of c r)
            || (is_blank (nonce_of c r) || is_blank (signature_of c r))))) [
              | inl e ↦ let no : false ≡ true = rw (e, authenticate) at h in cc
              | inr e ↦ elim (Option-cases (lookup (key_id_of c r) k.keys)) [
                | inl l ↦ let no : false ≡ true = rw (e, l, authenticate) at h in cc
                | inr (secret, l) ↦ elim (Option-cases (lookup (key_id_of c r) k.roles)) [
                  | inl m ↦ let no : false ≡ true = rw (e, l, m, authenticate) at h in cc
                  | inr (role, m) ↦ elim (Bool-cases (is_some (rank role))) [
                    | inr n ↦ let no : false ≡ true = rw (e, l, m, n, authenticate) at h in cc
                    | inl n ↦ (secret, role, l, m, rw (e, l, m, n, authenticate) refl)
                  ]
                ]
              ]
            ]

  -- A request that is let in names a known key whose role suffices, carries a timestamp within half the
  -- window of the clock and a signature of exactly its parts under the key's secret, and claims a
  -- nonce that was not seen.
  pub authenticate-Authentic :
      (k : Keyring) (s : NonceStore) (r : Request)
      → (authenticate c k s r).0.ok ≡ true
      → Authentic k s r
  authenticate-Authentic k s r h =
      let (secret, role, l, m, e) = authenticate-ok k s r h in
      let (at, f, g, u, d) = admit-ok k.replay_window secret role s r (rw e at h) in
      let q = claim-ok secret role (refresh s r.seen_at) r (rw (e, d) at h) in
      record {
        secret = secret;
        role = role;
        at = at;
        known = l;
        ranked = m;
        suffices = q.1;
        stamped = f;
        timely = g;
        signed = q.0;
        unseen = u;
        claimed = rw (e, d) q.2;
      }
