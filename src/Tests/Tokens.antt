-- ===== src/Tests/Tokens.antt =====
-- Runs of the Verifier and of the nonce stores.
use secure_svc_gw.Prelude.{
  ◌≤◌, ◌≡◌, refl, ◌↔◌, true, false, none, some, List, [], ◌∷◌, ℤ, pos, ◌<ℤ◌, leb_ℤ, arith, Str,
  codes, ◌⊎◌, lookup, insert, split, Str-discrete, unix, sub, Map,
}
use secure_svc_gw.Auth.{RegisteredKey, KeyRegistration}
use secure_svc_gw.Auth.Nonce.Memory.{NonceCache, check_and_store, five_minutes}
use secure_svc_gw.Auth.Nonce.Memory.Guard.{memory_store, memory_store-IsReplayGuard}
use secure_svc_gw.Auth.Nonce.Memory.Race.{swept, accepted_twice}
use secure_svc_gw.Auth.Nonce.Redis
use secure_svc_gw.Auth.Nonce.Redis.{RedisServer, lifetime, nonce_key, check_and_store-fails_closed}
use secure_svc_gw.Auth.Verifier.{
  Verifier, accepted, spend, admit, read_token, check_claims, register, register_all, verify,
  new_verifier_with_store,
}
use secure_svc_gw.Auth.Verifier.Acceptance.{IsGenuine, AreValid, verify-accepted_iff}
use secure_svc_gw.Auth.Verifier.Once.{Event, request, pass, times_accepted, accepted_once}
use secure_svc_gw.Auth.Verifier.Registration.{Answers, last_for, new_verifier_with_store-keys}
use secure_svc_gw.Auth.Verifier.Effects.{Leaves, verify-Leaves}
use secure_svc_gw.Auth.Verifier.Scopes.{regranted, verify-regranted}
use secure_svc_gw.Tests.{library, claims, key, verifier, now}

abbrev token : Str
token = codes "H.P.S"

token_accepted :
    (verify library memory_store now now verifier token).0 ≡ accepted claims (codes "alice")
unfolding verify admit read_token split Str-discrete lookup check_claims unix spend check_and_store
token_accepted = refl

verify-accepted_iff_example :
    ((verify library memory_store now now verifier token).0 ≡ accepted claims (codes "alice")) ↔ (
      (k : RegisteredKey) × (k.sub ≡ codes "alice")
      × IsGenuine library verifier.keys token k claims
      × AreValid now verifier.issuer verifier.audience claims
      × ((memory_store.check_and_store now claims.jti (unix claims.exp) verifier.nonces).0 ≡ true))
verify-accepted_iff_example =
    verify-accepted_iff library memory_store now now verifier token claims (codes "alice")

abbrev repeated : List Event
repeated = request now now token ∷ pass now ∷ request now now token ∷ []

accepted_once_example : times_accepted library memory_store token verifier repeated ≤ 1
accepted_once_example =
    accepted_once library memory_store memory_store-IsReplayGuard now verifier token repeated
      (omega arith) (refl, (refl, (refl, tt)))
      ((λ k c read fresh. fresh), ((λ k c read fresh. fresh), tt))

verify-Leaves_example :
    Leaves
      (verify library memory_store now now verifier token).0
      (codes "j1")
      verifier.nonces.items
      (verify library memory_store now now verifier token).1.nonces.items
verify-Leaves_example = verify-Leaves library now now verifier token (codes "j1") (omega arith)

accepted_twice_example :
    ((spend library memory_store now verifier key claims).0 ≡ accepted claims (codes "alice"))
    × ((spend library memory_store now
          (swept (unix (pos 1001)) (spend library memory_store now verifier key claims).1)
          key
          claims).0
        ≡ accepted claims (codes "alice"))
accepted_twice_example =
    accepted_twice library verifier key claims now (unix (pos 1001)) now (unfold lookup in refl)
      (unfold unix in refl) (unfold unix in refl)

verify-regranted_example :
    ((verify library memory_store now now
        (regranted (λ scopes. (codes "admin", tt) ∷ scopes) verifier)
        token).0
      ≡ (verify library memory_store now now verifier token).0)
    × ((verify library memory_store now now
          (regranted (λ scopes. (codes "admin", tt) ∷ scopes) verifier)
          token).1.nonces
        ≡ (verify library memory_store now now verifier token).1.nonces)
verify-regranted_example =
    verify-regranted (λ scopes. (codes "admin", tt) ∷ scopes) library memory_store now now verifier
      token

abbrev raw_key : Str
raw_key = codes "0123456789abcdef0123456789abcdef"

abbrev registrations : List KeyRegistration
registrations =
    record { kid = codes "k"; pub_base64 = raw_key; subject = codes "alice"; scopes = [] } ∷ []

abbrev registered : Verifier NonceCache
registered = record {
  keys = (codes "k", record { public_key = raw_key; sub = codes "alice"; scopes = [] }) ∷ [];
  issuer = codes "idp";
  audience = codes "gateway";
  nonces = record { items = []; ttl = five_minutes };
}

new_verifier_with_store-keys_example :
    Answers library (last_for (codes "k") registrations) (lookup (codes "k") registered.keys)
    × (registered.issuer ≡ codes "idp")
    × (registered.audience ≡ codes "gateway")
    × (registered.nonces ≡ registered.nonces)
new_verifier_with_store-keys_example =
    new_verifier_with_store-keys library registrations (codes "idp") (codes "gateway")
      registered.nonces registered (codes "k")
      (unfold new_verifier_with_store register_all register insert in refl)

-- A server that sets every key once, for ever.
abbrev server : RedisServer
server = record {
  State = Map ℤ;
  set_nx = λ now k ttl s. elim (lookup k s) [
    | none ↦ (some true, (k, ttl) ∷ s)
    | some old ↦ (some false, s)
  ];
  expire = λ now s. s;
}

check_and_store-fails_closed_example :
    (((Redis.check_and_store server now (codes "j1") (unix (pos 1000)) []).0 ≡ true) ↔ (
      (server.set_nx now (nonce_key (codes "j1")) (lifetime now (unix (pos 1000))) []).0
      ≡ some true))
    × (pos 0 <ℤ lifetime now (unix (pos 1000)))
    × ((lifetime now (unix (pos 1000)) ≡ sub (unix (pos 1000)) now)
        ⊎ (leb_ℤ (sub (unix (pos 1000)) now) (pos 0) ≡ true))
check_and_store-fails_closed_example =
    check_and_store-fails_closed server now (codes "j1") (unix (pos 1000)) []
