-- ===== src/Api/Signing.antt =====
-- The signed control API: signald/api/signing.py. A moment is a number of microseconds in UTC, and the
-- two windows are given in microseconds too.
pub mod Claims
pub mod Replay
pub mod Restart
mod Tests
use Prim.Native.String.{◌++◌ as append}
use trading_execution.Prelude.{
  ℕ, ◌+◌, ◌-◌, ◌*◌, Bool, true, false, not, Option, none, some, List, [], ◌∷◌, ◌++◌, String, str_eq,
  ltb, leb, if◌then◌else◌, ◌&&◌, ◌||◌, is_some,
}
use trading_execution.Prelude.Dict.{lookup, insert}
use trading_execution.Json.{is_blank}

-- What the code calls of Python's runtime: `hashlib`, `hmac` with its comparison, and texts.
-- A body of bytes is a text here.
pub record Crypto : Type 0 where
  pub sha256_hex : String → String
  pub hmac_hex : String → String → String
  pub lower : String → String
  pub strip : String → String
  -- `_as_utc(datetime.fromisoformat(text))`: `none` is ValueError
  pub from_iso : String → Option ℕ

-- A line of the nonce journal: a row, or what `_load` passes over, which is no JSON, or an object without
-- a nonce or a moment. `consume` writes objects only; a line that is JSON and no object, on which `_load`
-- raises AttributeError, is not modelled.
pub data Line : Type 0 where
  row : String → ℕ → Line
  junk : Line

-- `NonceStore`: the file is `none` where there is no path.
pub record NonceStore : Type 0 where
  pub ttl : ℕ
  pub loaded : Bool
  pub seen : List (String × ℕ)
  pub file : Option (List Line)

-- one line of `_load`: the earliest moment of a nonce stays
unfoldable pub load_line : List (String × ℕ) → Line → List (String × ℕ)
unfolding lookup insert
load_line seen junk = seen
load_line seen (row nonce at) = if is_blank nonce then seen else elim (lookup nonce seen) [
  | none ↦ insert nonce at seen
  | some prev ↦ if ltb at prev then insert nonce at seen else seen
]

unfoldable pub load_lines : List (String × ℕ) → List Line → List (String × ℕ)
unfolding load_line
load_lines seen [] = seen
load_lines seen (l ∷ ls) = load_lines (load_line seen l) ls

-- `_load`
unfoldable pub load : NonceStore → NonceStore
unfolding load_lines
load s = if s.loaded then s else elim s.file [
  | none ↦ record s { loaded = true }
  | some lines ↦ record s { loaded = true; seen = load_lines s.seen lines }
]

-- the dict that `_purge` leaves
unfoldable pub keep_fresh : ℕ → ℕ → List (String × ℕ) → List (String × ℕ)
keep_fresh ttl now [] = []
keep_fresh ttl now ((n, at) ∷ m) =
    let rest = keep_fresh ttl now m in if leb (at + ttl) now then rest else (n, at) ∷ rest

-- `_load` and `_purge`
unfoldable pub refresh : NonceStore → ℕ → NonceStore
unfolding load keep_fresh
refresh s now = record (load s) { seen = keep_fresh s.ttl now (load s).seen }

-- `seen`
unfoldable pub has_seen : NonceStore → ℕ → String → Bool
unfolding refresh
has_seen s now nonce = is_some (lookup nonce (refresh s now).seen)

-- `consume`: whether the nonce was claimed, and the store then
unfoldable pub consume : NonceStore → ℕ → String → Bool × NonceStore
unfolding refresh
consume s now nonce =
    let r = refresh s now in
    if is_some (lookup nonce r.seen) then (false, r) else (
      true,
      record r {
        seen = insert nonce now r.seen;
        file = elim r.file [ none ↦ none | some ls ↦ some (ls ++ (row nonce now ∷ [])) ];
      },
    )

-- The parts that are signed.
pub record Parts : Type 0 where
  pub method : String
  pub path : String
  pub body : String
  pub timestamp : String
  pub nonce : String
  pub key_id : String

-- `AuthResult`
pub record AuthResult : Type 0 where
  pub ok : Bool
  pub role : Option String
  pub reason : String

abbrev pub refused : Option String → String → AuthResult
refused role reason = record { ok = false; role = role; reason = reason }

-- the place of a role in `ROLES`
unfoldable pub rank : String → Option ℕ
rank s =
    if str_eq s "read"
    then some 0
    else if str_eq s "propose"
    then some 1
    else if str_eq s "execute"
    then some 2
    else if str_eq s "admin"
    then some 3
    else none

-- `_role_allows`
unfoldable pub role_allows : String → String → Bool
unfolding rank
role_allows role required = elim (rank role) [
  | none ↦ false
  | some r ↦ elim (rank required) [ none ↦ false | some q ↦ leb q r ]
]

-- the answer to a request whose nonce was claimed
unfoldable pub grant : String → Option String → AuthResult
unfolding role_allows
grant role none = record { ok = true; role = some role; reason = "ok" }
grant role (some required) =
    if role_allows role required
    then record { ok = true; role = some role; reason = "ok" }
    else refused (some role) "forbidden"

-- One request of the authenticator, with the three readings of the clock that it takes.
pub record Request : Type 0 where
  pub method : String
  pub path : String
  pub body : String
  pub headers : List (String × String)
  pub required_role : Option String
  pub now : ℕ
  pub seen_at : ℕ
  pub consumed_at : ℕ

-- `Authenticator`, but for its nonce store
pub record Keyring : Type 0 where
  pub keys : List (String × String)
  pub roles : List (String × String)
  pub replay_window : ℕ

-- `abs(now - parsed)` is more than half the window
abbrev pub is_skewed : ℕ → ℕ → ℕ → Bool
is_skewed window now at = ltb window (2 * ((now - at) + (at - now)))

module _ (c : Crypto) where
  -- `canonical_string`
  unfoldable pub canonical_string : Parts → String
  canonical_string p = append p.method (
      append "\n" (
        append p.path (
          append "\n" (
            append (c.sha256_hex p.body) (
              append "\n"
                (append p.timestamp (append "\n" (append p.nonce (append "\n" p.key_id)))))))))

  -- `sign`
  unfoldable pub sign : String → Parts → String
  unfolding canonical_string
  sign secret p = c.hmac_hex secret (canonical_string p)

  -- `verify`
  unfoldable pub verify : String → String → Parts → Bool
  unfolding sign
  verify secret signature p = str_eq (sign secret p) signature

  -- `_header`
  unfoldable pub header : List (String × String) → String → String
  header [] name = ""
  header ((k, v) ∷ hs) name =
      let rest = header hs name in if str_eq (c.lower k) (c.lower name) then c.strip v else rest

  abbrev pub key_id_of : Request → String
  key_id_of r = header r.headers "X-Key-Id"

  abbrev pub timestamp_of : Request → String
  timestamp_of r = header r.headers "X-Timestamp"

  abbrev pub nonce_of : Request → String
  nonce_of r = header r.headers "X-Nonce"

  abbrev pub signature_of : Request → String
  signature_of r = header r.headers "X-Signature"

  abbrev pub parts_of : Request → Parts
  parts_of r = record {
    method = r.method;
    path = r.path;
    body = r.body;
    timestamp = timestamp_of r;
    nonce = nonce_of r;
    key_id = key_id_of r;
  }

  -- the signature, the claim and the role
  unfoldable pub claim : String → String → NonceStore → Request → AuthResult × NonceStore
  unfolding verify consume grant refresh
  claim secret role s r =
      if not (verify secret (signature_of r) (parts_of r))
      then (refused none "bad_signature", s)
      else let taken = consume s r.consumed_at (nonce_of r) in
        if not taken.0
        then (refused none "replayed_nonce", taken.1)
        else (grant role r.required_role, taken.1)

  -- the window and the replay, behind the key and its role
  unfoldable pub admit : ℕ → String → String → NonceStore → Request → AuthResult × NonceStore
  unfolding claim
  admit window secret role s r = elim (c.from_iso (c.strip (timestamp_of r))) [
    | none ↦ (refused none "stale_timestamp", s)
    | some at ↦
        if is_skewed window r.now at
        then (refused none "stale_timestamp", s)
        else if has_seen s r.seen_at (nonce_of r)
        then (refused none "replayed_nonce", refresh s r.seen_at)
        else claim secret role (refresh s r.seen_at) r
  ]

  -- `authenticate`
  unfoldable pub authenticate : Keyring → NonceStore → Request → AuthResult × NonceStore
  unfolding admit
  authenticate k s r =
      if is_blank (key_id_of r)
        || (is_blank (timestamp_of r) || (is_blank (nonce_of r) || is_blank (signature_of r)))
      then (refused none "missing_header", s)
      else elim (lookup (key_id_of r) k.keys) [
        | none ↦ (refused none "unknown_key", s)
        | some secret ↦ elim (lookup (key_id_of r) k.roles) [
          | none ↦ (refused none "forbidden", s)
          | some role ↦
              if is_some (rank role)
              then admit k.replay_window secret role s r
              else (refused none "forbidden", s)
        ]
      ]

  -- A sequence of requests.
  unfoldable pub serve : Keyring → NonceStore → List Request → NonceStore
  unfolding authenticate
  serve k s [] = s
  serve k s (r ∷ rs) = serve k (authenticate k s r).1 rs
