-- ===== src/Auth/Nonce.antt =====
-- internal/auth/nonce.go: the interface NonceStore, and what replay defence needs of a store.
pub mod Memory
pub mod Redis
use secure_svc_gw.Prelude.{◌≡◌, Bool, true, false, Str, Time, NotAfter, IsModern}

-- `check_and_store now jti exp` is CheckAndStore at the instant `now`. `pass now` is what the store
-- does by itself up to `now`: the sweeper of the memory, the expiry of keys in Redis.
pub record NonceStore : Type 1 where
  pub State : Type 0
  pub check_and_store : Time → Str → Time → State → Bool × State
  pub pass : Time → State → State

-- The contract: a jti that was accepted is refused until its expiry, whatever happens between.
pub record IsReplayGuard (N : NonceStore) : Type 1 where
  -- The store knows the jti at least up to the instant.
  pub Seen : Str → Time → N.State → Type 0
  pub refuses :
      (now : Time) (jti : Str) (exp until : Time) (s : N.State)
      → NotAfter now until
      → Seen jti until s
      → (N.check_and_store now jti exp s).0 ≡ false
  pub remembers :
      (now : Time) (jti : Str) (exp : Time) (s : N.State)
      → IsModern now
      → NotAfter now exp
      → (N.check_and_store now jti exp s).0 ≡ true
      → Seen jti exp (N.check_and_store now jti exp s).1
  pub keeps :
      (now : Time) (other : Str) (exp : Time) (jti : Str) (until : Time) (s : N.State)
      → NotAfter now until
      → Seen jti until s
      → Seen jti until (N.check_and_store now other exp s).1
  pub keeps_passing :
      (now : Time) (jti : Str) (until : Time) (s : N.State)
      → NotAfter now until
      → Seen jti until s
      → Seen jti until (N.pass now s)
