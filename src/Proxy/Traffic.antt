-- ===== src/Proxy/Traffic.antt =====
-- internal/proxy/handler.go and internal/health/checker.go on the shared pools: the steps of any
-- number of requests and of the checkers, in any order. The mutex and the atomics of a backend make
-- each of them one step.
pub mod Counters
pub mod Requests
pub mod Pools
use secure_svc_gw.Prelude.{ℕ, ◌<◌, Bool, List, [], ◌∷◌, ◌++◌, ℤ, Str, Map, max_int64, length}
use secure_svc_gw.Lb.{Pool, set_healthy, acquire, release, record_latency}
use secure_svc_gw.Lb.Floats.{Float}
use secure_svc_gw.Proxy.Gateway.{World, on_backend}

-- The pools, and the calls of forward between their Acquire and their Release: the service and the
-- index of the backend of each.
pub record Traffic (F : Type 0) : Type 0 where
  pub pools : Map (Pool F)
  pub active : List (Str × ℕ)

module _ {F : Type 0} ⦃float : Float F⦄ (S : Type 0) where
  -- A step of one request or of one checker, on the pools of the world that it meets. An int64 counts
  -- the calls of forward.
  pub data Step : Traffic F → Traffic F → Type 0 where
    acquired :
        (w : World F S) (active : List (Str × ℕ)) (service : Str) (i : ℕ)
        → length active < max_int64
        → Step
            (record { pools = w.pools; active = active })
            (record {
              pools = (on_backend service i acquire w).pools;
              active = (service, i) ∷ active;
            })
    timed :
        (w : World F S) (active : List (Str × ℕ)) (service : Str) (i : ℕ) (elapsed_ms : ℤ)
        → Step
            (record { pools = w.pools; active = active })
            (record {
              pools = (on_backend service i (record_latency elapsed_ms) w).pools;
              active = active;
            })
    released :
        (w : World F S) (before after : List (Str × ℕ)) (service : Str) (i : ℕ)
        → Step
            (record { pools = w.pools; active = before ++ (service, i) ∷ after })
            (record { pools = (on_backend service i release w).pools; active = before ++ after })
    checked :
        (w : World F S) (active : List (Str × ℕ)) (service : Str) (i : ℕ) (up : Bool)
        → Step
            (record { pools = w.pools; active = active })
            (record { pools = (on_backend service i (set_healthy up) w).pools; active = active })

  -- Any number of steps.
  pub data Steps (a : Traffic F) : Traffic F → Type 0 where
    none_yet : Steps a a
    then_ : {b c : Traffic F} → Steps a b → Step b c → Steps a c

  pub Steps-trans : (a b c : Traffic F) → Steps a b → Steps b c → Steps a c
  Steps-trans a b _ first none_yet = first
  Steps-trans a b _ first (then_ {b = d} second step) = then_ (Steps-trans a b d first second) step
