-- ===== src/Auth/Nonce/Memory/Race.antt =====
-- internal/auth/jwt.go, nonce.go: Verify tests the expiry and asks the nonceCache in two steps. The
-- sweeper may run between them.
use secure_svc_gw.Prelude.{
  ◌≡◌, true, false, none, [], ◌∷◌, arith, Str, Map, lookup, insert, Time, unix, after, is_zero,
}
use secure_svc_gw.Auth.{Claims, RegisteredKey}
use secure_svc_gw.Auth.Nonce.Memory.{NonceCache, check_and_store, sweep_items, sweep}
use secure_svc_gw.Auth.Nonce.Memory.Guard.{memory_store}
use secure_svc_gw.Auth.Verifier.{Library, Verifier, accepted, spend}

lookup-sweep_items_gone :
    (now : Time) (jti : Str) (exp : Time) (items : Map Time)
    → lookup jti items ≡ none
    → after now exp ≡ true
    → lookup jti (sweep_items now (insert jti exp items)) ≡ none
unfolding lookup insert sweep_items
lookup-sweep_items_gone now jti exp [] absent expired = ground arith
lookup-sweep_items_gone now jti exp ((k, e) ∷ items) absent expired =
    ground (arith, lookup-sweep_items_gone now jti exp items)

abbrev pub swept : Time → Verifier NonceCache → Verifier NonceCache
swept now v = record v { nonces = sweep now v.nonces }

-- Two requests with one token have both passed the tests on its claims before it expires. If the
-- sweeper runs after the expiry, and between their calls of CheckAndStore, both are accepted.
pub accepted_twice :
    (L : Library) (v : Verifier NonceCache) (key : RegisteredKey) (c : Claims)
    (first sweeping second : Time)
    → lookup c.jti v.nonces.items ≡ none
    → is_zero (unix c.exp) ≡ false
    → after sweeping (unix c.exp) ≡ true
    → let (verdict, v1) = spend L memory_store first v key c in
      (verdict ≡ accepted c key.sub)
      × ((spend L memory_store second (swept sweeping v1) key c).0 ≡ accepted c key.sub)
unfolding spend check_and_store sweep
accepted_twice L v key c first sweeping second fresh nonzero expired =
    ground (arith, lookup-sweep_items_gone sweeping c.jti (unix c.exp) v.nonces.items fresh expired)
