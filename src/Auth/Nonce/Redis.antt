-- ===== src/Auth/Nonce/Redis.antt =====
-- internal/auth/redis_nonce.go: the store shared by all replicas. The client of package redis and
-- the server behind it are a parameter.
use secure_svc_gw.Prelude.{
  ◌≡◌, ◌↔◌, ◌⊎◌, Bool, true, false, Option, none, some, ◌++◌, arith, ℤ, pos, ◌<ℤ◌, leb_ℤ, Str,
  codes, Time, sub, if◌then◌else◌, Result, ok, ◌>>=◌, ◌>>◌, or_else, guard,
}
use secure_svc_gw.Auth.Nonce.{NonceStore}
use secure_svc_gw.Auth.Nonce.Memory.{five_minutes}

-- `set_nx now key ttl` is SetNX of the value 1 at the instant `now`: an error, or whether the key
-- was set. `expire` drops the keys whose time is over.
pub record RedisServer : Type 1 where
  pub State : Type 0
  pub set_nx : Time → Str → ℤ → State → Option Bool × State
  pub expire : Time → State → State

-- redis.ParseURL, the server that options name, and whether it answers a ping.
pub record RedisNet (R : RedisServer) : Type 1 where
  pub Options : Type 0
  pub parse_url : Str → Option Options
  pub state : Options → R.State
  pub ping : Options → Bool

pub data RedisError : Type 0 where
  bad_url no_ping : RedisError

unfoldable pub new_redis_nonce_store :
    {R : RedisServer} → RedisNet R → Str → Result RedisError R.State
new_redis_nonce_store net url = do
  opt ← or_else (net.parse_url url) bad_url
  guard (net.ping opt) no_ping
  ok (net.state opt)

-- The lifetime that CheckAndStore gives to a key.
unfoldable pub lifetime : Time → Time → ℤ
lifetime now exp = let ttl = sub exp now in if leb_ℤ ttl (pos 0) then five_minutes else ttl

abbrev pub nonce_key : Str → Str
nonce_key jti = codes "nonce:" ++ jti

-- `false` on an error: the request is denied.
abbrev pub succeeded : Option Bool → Bool
succeeded none = false
succeeded (some set) = set

module _ (R : RedisServer) where
  unfoldable pub check_and_store : Time → Str → Time → R.State → Bool × R.State
  check_and_store now jti exp s =
      let (reply, s') = R.set_nx now (nonce_key jti) (lifetime now exp) s in (succeeded reply, s')

  abbrev pub redis_store : NonceStore
  redis_store = record { State = R.State; check_and_store = check_and_store; pass = R.expire }

  -- A jti is fresh exactly if the server answered without an error that it set the key of the jti;
  -- the lifetime of the key is positive, and is the time that is left to the token unless none is.
  pub check_and_store-fails_closed :
      (now : Time) (jti : Str) (exp : Time) (s : R.State)
      → (((check_and_store now jti exp s).0 ≡ true)
          ↔ ((R.set_nx now (nonce_key jti) (lifetime now exp) s).0 ≡ some true))
        × (pos 0 <ℤ lifetime now exp)
        × ((lifetime now exp ≡ sub exp now) ⊎ (leb_ℤ (sub exp now) (pos 0) ≡ true))
  unfolding check_and_store lifetime
  check_and_store-fails_closed now jti exp s =
      ((λ h. ground arith, λ h. ground arith), ground arith, ground arith)
