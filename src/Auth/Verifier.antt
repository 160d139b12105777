-- ===== src/Auth/Verifier.antt =====
-- internal/auth/jwt.go: the Verifier. Base64, JSON and Ed25519 are the routines of `Library`; the
-- human message beside a Reason is left out, since nothing but the log text reads it.
pub mod Acceptance
pub mod Once
pub mod Effects
pub mod Registration
pub mod Scopes
use secure_svc_gw.Prelude.{
  ℕ, Bool, true, false, not, ◌&&◌, ◌||◌, Option, none, some, List, [], ◌∷◌, ◌++◌, ℤ, pos, eqb,
  eqb_ℤ, Str, codes, is_empty, ◌==◌, split, Map, lookup, insert, Time, unix, after, add, second,
  ◌*◌, length, if◌then◌else◌, Result, ok, err, ◌>>=◌, ◌>>◌, guard, or_else,
}
use secure_svc_gw.Auth.{
  Reason, unknown_kid, bad_signature, bad_claims, expired, not_yet_valid, replay, wrong_audience,
  wrong_issuer, JwtHeader, Claims, RegisteredKey, KeyRegistration,
}
use secure_svc_gw.Auth.Nonce.{NonceStore}
use secure_svc_gw.Auth.Nonce.Memory.{NonceCache, new_nonce_cache}

-- base64.StdEncoding and base64.RawURLEncoding (`none` on an error), json.Unmarshal into the two
-- structs, and ed25519.Verify of a key, a message and a signature.
pub record Library : Type 0 where
  pub std_decode : Str → Option Str
  pub raw_url_decode : Str → Option Str
  pub unmarshal_header : Str → Option JwtHeader
  pub unmarshal_claims : Str → Option Claims
  pub ed25519_verify : Str → Str → Str → Bool

-- `nonces` is the state of the nonce store.
pub record Verifier (S : Type 0) : Type 0 where
  pub keys : Map RegisteredKey
  pub issuer : Str
  pub audience : Str
  pub nonces : S

-- 30 * time.Second
abbrev pub clock_skew : ℤ
clock_skew = pos (30 * second)

-- What Verify returns: the claims and the registered subject, or the reason of the AuthError.
pub data Verdict : Type 0 where
  accepted : Claims → Str → Verdict
  rejected : Reason → Verdict

abbrev three_parts : List Str → Result Reason (Str × Str × Str)
three_parts (header ∷ payload ∷ signature ∷ []) = ok (header, payload, signature)
three_parts _ = err bad_claims

-- The tests on the claims, from the issuer to the jti.

unfoldable pub check_claims : Time → Str → Str → Claims → Result Reason (Unit {0})
check_claims now issuer audience c = do
  guard (is_empty issuer || c.iss == issuer) wrong_issuer
  guard (c.aud == audience) wrong_audience
  guard (not (eqb_ℤ c.exp (pos 0) || after now (unix c.exp))) expired
  guard (not (not (eqb_ℤ c.iat (pos 0)) && after (unix c.iat) (add now clock_skew))) not_yet_valid
  guard (not (is_empty c.jti)) bad_claims

module _ (L : Library) where
  -- Verify up to the payload: the key of the token and its claims.
  unfoldable pub read_token : Map RegisteredKey → Str → Result Reason (RegisteredKey × Claims)
  read_token keys token = do
    (header, payload, signature) ← three_parts (split b'.' token)
    header_raw ← or_else (L.raw_url_decode header) bad_claims
    hdr ← or_else (L.unmarshal_header header_raw) bad_claims
    guard (hdr.alg == codes "EdDSA") bad_claims
    key ← or_else (lookup hdr.kid keys) unknown_kid
    sig ← or_else (L.raw_url_decode signature) bad_claims
    guard (L.ed25519_verify key.public_key (header ++ codes "." ++ payload) sig) bad_signature
    payload_raw ← or_else (L.raw_url_decode payload) bad_claims
    c ← or_else (L.unmarshal_claims payload_raw) bad_claims
    ok (key, c)

  -- Verify up to the call of the nonce store.
  unfoldable pub admit :
      {S : Type 0} → Time → Verifier S → Str → Result Reason (RegisteredKey × Claims)
  admit now v token = do
    (key, c) ← read_token v.keys token
    check_claims now v.issuer v.audience c
    ok (key, c)

  module _ (N : NonceStore) where
    -- The end of Verify: the nonce store is asked at the instant `later`.
    unfoldable pub spend :
        Time → Verifier N.State → RegisteredKey → Claims → Verdict × Verifier N.State
    spend later v key c =
        let (fresh, nonces) = N.check_and_store later c.jti (unix c.exp) v.nonces in
        let v' = record v { nonces = nonces } in
        if fresh then (accepted c key.sub, v') else (rejected replay, v')

    -- `now` is the instant of the time tests, `later` that of the call of the nonce store.
    unfoldable pub verify : Time → Time → Verifier N.State → Str → Verdict × Verifier N.State
    verify now later v token = elim (admit now v token) [
      | err reason ↦ (rejected reason, v)
      | ok (key, c) ↦ spend later v key c
    ]

-- Why NewVerifierWithStore fails; the kid of the registration, and the length of its key.
pub data VerifierError : Type 0 where
  no_client_keys : VerifierError
  bad_base64 : Str → VerifierError
  bad_key_size : Str → ℕ → VerifierError

-- ed25519.PublicKeySize
abbrev pub public_key_size : ℕ
public_key_size = 32

scope_set : List Str → Map (Unit {0}) → Map (Unit {0})
scope_set [] scopes = scopes
scope_set (s ∷ rest) scopes = scope_set rest (insert s tt scopes)

module _ (L : Library) where
  -- One round of the loop over the registrations.
  unfoldable pub register :
      KeyRegistration → Map RegisteredKey → Result VerifierError (Map RegisteredKey)
  unfolding scope_set
  register r keys = do
    raw ← or_else (L.std_decode r.pub_base64) (bad_base64 r.kid)
    guard (eqb (length raw) public_key_size) (bad_key_size r.kid (length raw))
    ok (
        insert r.kid (record { public_key = raw; sub = r.subject; scopes = scope_set r.scopes [] })
          keys)

  unfoldable pub register_all :
      List KeyRegistration → Map RegisteredKey → Result VerifierError (Map RegisteredKey)
  register_all [] keys = ok keys
  register_all (r ∷ regs) keys = do keys' ← register r keys; register_all regs keys'

  unfoldable pub new_verifier_with_store :
      {S : Type 0} → List KeyRegistration → Str → Str → S → Result VerifierError (Verifier S)
  new_verifier_with_store [] issuer audience store = err no_client_keys
  new_verifier_with_store (r ∷ regs) issuer audience store = do
    keys ← register_all (r ∷ regs) []
    ok (record { keys = keys; issuer = issuer; audience = audience; nonces = store })

  -- NewVerifier: with a cache in memory.
  unfoldable pub new_verifier :
      List KeyRegistration → Str → Str → ℤ → Result VerifierError (Verifier NonceCache)
  unfolding new_verifier_with_store
  new_verifier regs issuer audience nonce_ttl =
      new_verifier_with_store regs issuer audience (new_nonce_cache nonce_ttl)
