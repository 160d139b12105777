-- ===== src/Health.antt =====
-- internal/health/checker.go: the Checker of one pool, and `record`, which gets the outcome of a probe.
-- The mutex makes it one step.
pub mod Streaks
pub mod History
pub mod Runs
pub mod Probes
pub mod Reach
pub mod Fate
use secure_svc_gw.Prelude.{
  ℕ, Bool, true, false, not, ◌&&◌, Option, none, some, List, [], ◌∷◌, ◌++◌, ℤ, pos, leb_ℤ, ltb,
  incr_int64, Str, Map, insert, lookup_or, if◌then◌else◌, get_elem?, modify,
}
use secure_svc_gw.Lb.{Backend, Pool, set_healthy}
use secure_svc_gw.Lb.Floats.{Float}

-- The log lines of record, with the backend that they name.
pub data Notice : Type 0 where
  restored : Str → Notice
  ejected : Str → Notice

-- `gauge` holds what was set of metrics.BackendHealthy for the pool's service, by backend.
pub record Checker (F : Type 0) : Type 0 where
  pub pool : Pool F
  pub fail_threshold : ℤ
  pub pass_threshold : ℤ
  pub fails : Map ℤ
  pub passes : Map ℤ
  pub gauge : Map Bool
  pub log : List Notice

module _ {F : Type 0} ⦃float : Float F⦄ where
  unfoldable pub new_checker : Pool F → Checker F
  new_checker pool = record {
    pool = pool;
    fail_threshold = pos 3;
    pass_threshold = pos 2;
    fails = [];
    passes = [];
    gauge = [];
    log = [];
  }

  -- b.SetHealthy(v), through the pointer to the backend at index `k`.
  abbrev set_healthy_at : ℕ → Bool → Pool F → Pool F
  set_healthy_at k v p = record p { backends = modify k (set_healthy v) p.backends }

  -- The branch of record for a probe that passed, on the backend `b` at index `k`.
  unfoldable pub on_pass : ℕ → Backend F → Checker F → Checker F
  on_pass k b c =
      let passes = incr_int64 (lookup_or b.id (pos 0) c.passes) in
      let counted = record c {
        fails = insert b.id (pos 0) c.fails;
        passes = insert b.id passes c.passes;
      } in
      if not b.healthy && leb_ℤ c.pass_threshold passes
      then record counted {
        pool = set_healthy_at k true c.pool;
        gauge = insert b.id true c.gauge;
        log = c.log ++ restored b.id ∷ [];
      }
      else if b.healthy
      then record counted { gauge = insert b.id true c.gauge }
      else counted

  -- The branch for a probe that failed.
  unfoldable pub on_fail : ℕ → Backend F → Checker F → Checker F
  on_fail k b c =
      let fails = incr_int64 (lookup_or b.id (pos 0) c.fails) in
      let counted = record c {
        passes = insert b.id (pos 0) c.passes;
        fails = insert b.id fails c.fails;
      } in
      if b.healthy && leb_ℤ c.fail_threshold fails
      then record counted {
        pool = set_healthy_at k false c.pool;
        gauge = insert b.id false c.gauge;
        log = c.log ++ ejected b.id ∷ [];
      }
      else counted

  -- record, for the backend at index `k` of the pool.
  unfoldable pub record_probe : ℕ → Bool → Checker F → Checker F
  record_probe k passed c = elim (get_elem? c.pool.backends k) [
    | none ↦ c
    | some b ↦ if passed then on_pass k b c else on_fail k b c
  ]

-- The outcome of a probe: whether an answer came, and its status.
unfoldable pub probe_ok : Option ℕ → Bool
probe_ok none = false
probe_ok (some status) = ltb status 400
