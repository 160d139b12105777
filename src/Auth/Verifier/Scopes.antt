-- ===== src/Auth/Verifier/Scopes.antt =====
-- internal/auth/jwt.go: the scopes that a key is registered with take no part in any decision.
use secure_svc_gw.Prelude.{
  ◌≡◌, refl, [], ◌∷◌, arith, Str, Map, lookup, Time, Result, ok, ◌>>=◌, or_else, >>=-assoc,
  Result-cases, inl, inr,
}
use secure_svc_gw.Auth.{Reason, Claims, RegisteredKey}
use secure_svc_gw.Auth.Nonce.{NonceStore}
use secure_svc_gw.Auth.Verifier.{Library, Verifier, read_token, admit, spend, verify}
use secure_svc_gw.Auth.Verifier.Acceptance.{verify_of_admitted, verify_of_refused}

module _ (grant : Map (Unit {0}) → Map (Unit {0})) where
  abbrev pub regrant_key : RegisteredKey → RegisteredKey
  regrant_key key = record key { scopes = grant key.scopes }

  -- The keys with other scopes registered.
  pub regrant : Map RegisteredKey → Map RegisteredKey
  regrant [] = []
  regrant ((kid, key) ∷ keys) = (kid, regrant_key key) ∷ regrant keys

  abbrev pub regranted : {S : Type 0} → Verifier S → Verifier S
  regranted v = record v { keys = regrant v.keys }

  or_else-lookup-regrant :
      {B : Type 0} (kid : Str) (keys : Map RegisteredKey) (r : Reason)
      (f : RegisteredKey → Result Reason B)
      → (or_else (lookup kid (regrant keys)) r >>= f)
        ≡ (or_else (lookup kid keys) r >>= λ key. f (regrant_key key))
  unfolding lookup regrant
  or_else-lookup-regrant kid [] r f = refl
  or_else-lookup-regrant kid ((k, key) ∷ keys) r f =
      ground (arith, or_else-lookup-regrant kid keys r f)

  read_token-regrant :
      (L : Library) (keys : Map RegisteredKey) (token : Str)
      → read_token L (regrant keys) token
        ≡ (read_token L keys token >>= λ (key, c). ok (regrant_key key, c))
  unfolding read_token
  read_token-regrant L keys token = simp (or_else-lookup-regrant, >>=-assoc)

  admit-regranted :
      (L : Library) {S : Type 0} (now : Time) (v : Verifier S) (token : Str)
      → admit L now (regranted v) token
        ≡ (admit L now v token >>= λ (key, c). ok (regrant_key key, c))
  unfolding admit
  admit-regranted L now v token = simp (read_token-regrant, >>=-assoc)

  spend-regranted :
      (L : Library) (N : NonceStore) (later : Time) (v : Verifier N.State) (key : RegisteredKey)
      (c : Claims)
      → ((spend L N later (regranted v) (regrant_key key) c).0 ≡ (spend L N later v key c).0)
        × ((spend L N later (regranted v) (regrant_key key) c).1.nonces
            ≡ (spend L N later v key c).1.nonces)
  unfolding spend
  spend-regranted L N later v key c = ground arith

  -- Whatever scopes the keys are registered with, Verify returns the same verdict, with the same
  -- claims for the scope test, and leaves the nonce store in the same state.
  pub verify-regranted :
      (L : Library) (N : NonceStore) (now later : Time) (v : Verifier N.State) (token : Str)
      → ((verify L N now later (regranted v) token).0 ≡ (verify L N now later v token).0)
        × ((verify L N now later (regranted v) token).1.nonces
            ≡ (verify L N now later v token).1.nonces)
  verify-regranted L N now later v token = elim (Result-cases (admit L now v token)) [
    | inl (r, refused) ↦
        rw
          (
            verify_of_refused L N now later v token refused,
            verify_of_refused L N now later (regranted v) token {r = r}
                (rw (admit-regranted L now v token, refused)),
          )
          (refl, refl)
    | inr ((key, c), admitted) ↦
        rw
          (
            verify_of_admitted L N now later v token admitted,
            verify_of_admitted L N now later (regranted v) token {key = regrant_key key} {c = c}
                (rw (admit-regranted L now v token, admitted)),
          )
          (spend-regranted L N later v key c)
  ]
