-- ===== src/Startup.antt =====
-- cmd/gateway/main.go: what main builds of a configuration before it serves.
pub mod Served
pub mod Boot
pub mod Ready
pub mod Started
pub mod Guarded
pub mod Counted
pub mod Deployed
pub mod Delivered
pub mod Succeeds
use secure_svc_gw.Prelude.{
  ℕ, zero, suc, ◌+◌, Option, none, some, List, [], ◌∷◌, Str, codes, Map, insert, Result, ok, err,
}
use secure_svc_gw.Config.{ClientKey, Service}
use secure_svc_gw.Auth.{KeyRegistration}
use secure_svc_gw.Lb.{Pool, new_pool}
use secure_svc_gw.Lb.Floats.{Float}

unfoldable pub registrations : List ClientKey → List KeyRegistration
registrations [] = []
registrations (k ∷ keys) =
    record { kid = k.kid; pub_base64 = k.pub_base64; subject = k.subject; scopes = k.scopes }
    ∷ registrations keys

-- The loop over the attempts to reach Redis, of which `left` are left; `dial attempt` is
-- NewRedisNonceStore at that attempt, `none` on an error.
connect_from : {A : Type 0} → (ℕ → Option A) → ℕ → ℕ → Option A
connect_from dial zero attempt = none
connect_from dial (suc left) attempt =
    let later = connect_from dial left (attempt + 1) in
    elim (dial attempt) [ some store ↦ some store | none ↦ later ]

-- The ten attempts; main exits on `none`.
unfoldable pub connect : {A : Type 0} → (ℕ → Option A) → Option A
unfolding connect_from
connect dial = connect_from dial 10 1

module _ {F : Type 0} ⦃float : Float F⦄ where
  -- The loop over the services: pools[svc.Name] = lb.NewPool(svc.Name, svc.Backends).
  unfoldable pub pools_from : List Service → Map (Pool F) → Map (Pool F)
  pools_from [] pools = pools
  pools_from (svc ∷ services) pools =
      pools_from services (insert svc.name (new_pool svc.name svc.backends) pools)

  unfoldable pub pools_of : List Service → Map (Pool F)
  unfolding pools_from
  pools_of services = pools_from services []
