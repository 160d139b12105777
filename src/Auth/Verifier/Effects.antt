-- ===== src/Auth/Verifier/Effects.antt =====
-- internal/auth/jwt.go with the nonceCache of nonce.go: what a call of Verify leaves in the cache.
use secure_svc_gw.Prelude.{
  ◌≡◌, refl, inl, inr, false, none, some, arith, Str, ◌==◌, Map, lookup, lookup-insert, Time, unix,
  IsModern, is_zero, is_zero_of_NotAfter, if◌then◌else◌, Result-cases,
}
use secure_svc_gw.Auth.{Claims, RegisteredKey}
use secure_svc_gw.Auth.Nonce.Memory.{NonceCache, check_and_store}
use secure_svc_gw.Auth.Nonce.Memory.Guard.{memory_store}
use secure_svc_gw.Auth.Verifier.{
  Library, Verifier, Verdict, accepted, rejected, admit, spend, verify,
}
use secure_svc_gw.Auth.Verifier.Acceptance.{admit-parts, verify_of_admitted, verify_of_refused}

-- After a verdict the cache answers for a jti like this.
abbrev pub Leaves : Verdict → Str → Map Time → Map Time → Type 0
Leaves (rejected reason) jti before later = lookup jti later ≡ lookup jti before
Leaves (accepted c sub) jti before later =
    (lookup c.jti before ≡ none)
    × (lookup jti later ≡ (if jti == c.jti then some (unix c.exp) else lookup jti before))

spend-Leaves :
    (L : Library) (later : Time) (v : Verifier NonceCache) (key : RegisteredKey) (c : Claims)
    (jti : Str)
    → is_zero (unix c.exp) ≡ false
    → let (verdict, v') = spend L memory_store later v key c in
      Leaves verdict jti v.nonces.items v'.nonces.items
unfolding spend check_and_store
spend-Leaves L later v key c jti nonzero =
    ground (arith, lookup-insert jti c.jti (unix c.exp) v.nonces.items)

-- A rejection leaves the cache as it was. An acceptance adds the jti of the claims, which was not
-- there, with the expiry of the token, and nothing else.
pub verify-Leaves :
    (L : Library) (now later : Time) (v : Verifier NonceCache) (token jti : Str)
    → IsModern now
    → let (verdict, v') = verify L memory_store now later v token in
      Leaves verdict jti v.nonces.items v'.nonces.items
verify-Leaves L now later v token jti modern = elim (Result-cases (admit L now v token)) [
  | inl (r, refused) ↦ rw (verify_of_refused L memory_store now later v token refused) refl
  | inr ((key, c), admitted) ↦
      let (read, valid) = admit-parts L now v token key c admitted in
      rw (verify_of_admitted L memory_store now later v token admitted) (
        spend-Leaves L later v key c jti
          (is_zero_of_NotAfter now (unix c.exp) modern valid.unexpired))
]
