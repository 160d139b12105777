-- ===== src/Lb/Stats.antt =====
-- internal/lb/pool.go: the statistics of one backend.
use secure_svc_gw.Prelude.{◌≡◌, Bool, true, false, ℤ, IsInt64, decr_int64-incr_int64, arith}
use secure_svc_gw.Lb.{Backend, set_healthy, acquire, release, record_latency}
use secure_svc_gw.Lb.Floats.{Float}

module _ {F : Type 0} ⦃float : Float F⦄ where
  -- A release after an acquire gives the backend back, at the ends of the counter's range too.
  pub release-acquire : (b : Backend F) → IsInt64 b.inflight → release (acquire b) ≡ b
  unfolding acquire release
  release-acquire b range = rw (decr_int64-incr_int64 b.inflight range)

  -- A backend that comes back has no history: whatever its average was, it is left the same, and
  -- its first sample becomes its average.
  pub set_healthy-forgets :
      (b : Backend F) (ewma : F) (known : Bool) (milliseconds : ℤ)
      → b.healthy ≡ false
      → (set_healthy true (record b { ewma_ms = ewma; has_stats = known }) ≡ set_healthy true b)
        × ((record_latency milliseconds (set_healthy true b)).ewma_ms ≡ float.of_int milliseconds)
  unfolding set_healthy record_latency
  set_healthy-forgets b ewma known milliseconds down = ground arith
