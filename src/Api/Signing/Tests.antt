-- ===== src/Api/Signing/Tests.antt =====
-- One client's requests, and the theorems on them.
use trading_execution.Prelude.{◌+◌, ◌≡◌, refl, true, false, some, List, [], ◌∷◌, String, arith, ℕ}
use trading_execution.Prelude.Dict.{lookup, insert}
use trading_execution.Api.Signing.{
  Crypto, NonceStore, row, junk, Request, Keyring, load_line, load_lines, load, keep_fresh, refresh,
  has_seen, consume, rank, role_allows, grant, canonical_string, sign, verify, header, claim, admit,
  authenticate, serve,
}
use trading_execution.Api.Signing.Claims.{Authentic, authenticate-Authentic}
use trading_execution.Api.Signing.Replay.{no_replay}
use trading_execution.Api.Signing.Restart.{restart, restart_remembers, restart_forgets}

-- A toy of the runtime: every signature is "sig", every stamp is the moment 1000.
abbrev crypto : Crypto
crypto = record {
  sha256_hex = λ b. "digest";
  hmac_hex = λ s m. "sig";
  lower = λ s. s;
  strip = λ s. s;
  from_iso = λ s. some 1000;
}

abbrev keyring : Keyring
keyring = record {
  keys = ("k1", "secret") ∷ [];
  roles = ("k1", "execute") ∷ [];
  replay_window = 300;
}

abbrev headers : String → List (String × String)
headers nonce =
    ("X-Key-Id", "k1") ∷ ("X-Timestamp", "t") ∷ ("X-Nonce", nonce) ∷ ("X-Signature", "sig") ∷ []

abbrev request : String → ℕ → Request
request nonce now = record {
  method = "POST";
  path = "/halt";
  body = "{}";
  headers = headers nonce;
  required_role = some "propose";
  now = now;
  seen_at = now;
  consumed_at = now + 1;
}

abbrev fresh : NonceStore
fresh = record { ttl = 600; loaded = false; seen = []; file = some (junk ∷ row "n0" 900 ∷ []) }

-- All that a request computes with.
requests : Unit {0}
unfolding lookup insert load_line load_lines load keep_fresh refresh has_seen consume rank
    role_allows grant canonical_string sign verify header claim admit authenticate serve restart
requests = tt

accepted : (authenticate crypto keyring fresh (request "n1" 1010)).0.ok ≡ true
unfolding requests
accepted = refl

-- The nonce of the journal is refused.
journalled : (authenticate crypto keyring fresh (request "n0" 1010)).0.reason ≡ "replayed_nonce"
unfolding requests
journalled = refl

authenticate-Authentic_example : Authentic crypto keyring fresh (request "n1" 1010)
authenticate-Authentic_example =
    authenticate-Authentic crypto keyring fresh (request "n1" 1010) accepted

same : {n : String} (now : ℕ) → header crypto (request n now).headers "X-Nonce" ≡ n
unfolding requests
same now = refl

same_stamp :
    header crypto (request "n1" 1020).headers "X-Timestamp"
    ≡ header crypto (request "n1" 1010).headers "X-Timestamp"
unfolding requests
same_stamp = refl

no_replay_example :
    (authenticate crypto keyring
      (serve crypto keyring
        (authenticate crypto keyring fresh (request "n1" 1010)).1
        (request "n2" 1012 ∷ []))
      (request "n1" 1020)).0.ok
    ≡ false
no_replay_example =
    no_replay crypto keyring fresh (request "n1" 1010) (request "n2" 1012 ∷ []) (request "n1" 1020)
      10 accepted refl same_stamp (omega arith) (omega arith) ((omega arith, omega arith), tt)
      (omega arith)

-- A journal with one line that cannot be read.
abbrev journal : NonceStore
journal = record { ttl = 600; loaded = true; seen = []; file = some (junk ∷ []) }

claimed : (consume journal 1000 "n1").0 ≡ true
unfolding requests
claimed = refl

claimed_again : (consume (consume journal 1000 "n1").1 1700 "n1").0 ≡ true
unfolding requests
claimed_again = refl

restart_remembers_example : has_seen (restart (consume journal 1000 "n1").1) 1500 "n1" ≡ true
restart_remembers_example =
    restart_remembers journal (junk ∷ []) "n1" 1000 1500 refl refl (tt, tt) claimed (omega arith)

restart_forgets_example :
    has_seen (restart (consume (consume journal 1000 "n1").1 1700 "n1").1) 1701 "n1" ≡ false
restart_forgets_example =
    restart_forgets journal (junk ∷ []) "n1" 1000 1700 1701 refl refl (tt, tt) claimed claimed_again
      (omega arith) (omega arith)
