-- ===== src/Startup/Counted.antt =====
-- cmd/gateway/main.go with internal/proxy and internal/health: the in-flight counters of the pools
-- that main makes, whatever requests and checkers do with them.
use secure_svc_gw.Prelude.{
  ℕ, zero, suc, ◌≡◌, sym, inl, inr, some, List, [], ◌∷◌, map, ℤ, pos, Str, Map, lookup, insert,
  lookup-insert, ◌==◌, get_elem?, arith, Bool-cases,
}
use secure_svc_gw.Config
use secure_svc_gw.Config.{Service}
use secure_svc_gw.Lb.{Pool, new_pool}
use secure_svc_gw.Lb.Floats.{Float}
use secure_svc_gw.Proxy.Gateway.Load.{loads}
use secure_svc_gw.Proxy.Traffic.{Traffic, Steps}
use secure_svc_gw.Proxy.Traffic.Counters.{held, counter, IsCounted, Steps-Agrees, Agrees-IsCounted}
use secure_svc_gw.Startup.{pools_from, pools_of}

new_pool-zero :
    (F : Type 0) ⦃float : Float F⦄ (service : Str) (cfg : List Config.Backend) (k : ℕ) (x : ℤ)
    → get_elem? (map (λ b. b.inflight) (new_pool {F = F} service cfg).backends) k ≡ some x
    → x ≡ pos 0
unfolding new_pool
new_pool-zero F service [] k x h = absurd (cc)
new_pool-zero F service (b ∷ cfg) zero x h = sym (cc h)
new_pool-zero F service (b ∷ cfg) (suc k) x h = new_pool-zero F service cfg k x h

module _ {F : Type 0} ⦃float : Float F⦄ where
  abbrev AreZero : Map (Pool F) → Type 0
  AreZero pools = (s : Str) (k : ℕ) (x : ℤ) → counter s k pools ≡ some x → x ≡ pos 0

  insert-AreZero :
      (name : Str) (cfg : List Config.Backend) (pools : Map (Pool F))
      → AreZero pools
      → AreZero (insert name (new_pool name cfg) pools)
  unfolding loads
  insert-AreZero name cfg pools zeros s k x h =
      let law = lookup-insert s name (new_pool {F = F} name cfg) pools in
      elim (Bool-cases (s == name)) [
        | inl same ↦ new_pool-zero F name cfg k x (rw (rw same at law) at h)
        | inr other ↦ zeros s k x (rw (rw other at law) at h)
      ]

  pools_from-AreZero :
      (services : List Service) (pools : Map (Pool F))
      → AreZero pools
      → AreZero (pools_from services pools)
  unfolding pools_from
  pools_from-AreZero [] pools zeros = zeros
  pools_from-AreZero (svc ∷ services) pools zeros =
      pools_from-AreZero services (insert svc.name (new_pool svc.name svc.backends) pools)
        (insert-AreZero svc.name svc.backends pools zeros)

  -- From the pools that main makes on, whatever requests and checkers do in any order of their steps:
  -- each in-flight counter is the number of the calls of forward that are between Acquire and Release
  -- for its backend, and so it is zero when there are none. (The calls in flight are fewer than an
  -- int64 holds.)
  pub pools_of-IsCounted :
      (S : Type 0) (services : List Service) (end : Traffic F)
      → Steps S (record { pools = pools_of services; active = [] }) end
      → IsCounted end
  unfolding pools_of lookup loads held
  pools_of-IsCounted S services end steps =
      Agrees-IsCounted end
        (Steps-Agrees S _ end steps (omega arith)
          (pools_from-AreZero services [] (λ s k x h. absurd (cc)))).1
