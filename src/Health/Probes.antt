-- ===== src/Health/Probes.antt =====
-- internal/health/checker.go: the Checker with its client, the probe of a backend, and the schedule
-- of Run: each tick starts a goroutine per backend, and these end in any order.
use secure_svc_gw.Prelude.{
  true, false, none, some, get_elem?, if◌then◌else◌, ℕ, suc, ◌+◌, ◌≡◌, Option, List, [], ◌∷◌, ◌++◌,
  ℤ, Bool, pos, Str, codes,
}
use secure_svc_gw.Lb
use secure_svc_gw.Lb.{Pool}
use secure_svc_gw.Lb.Floats.{Float}
use secure_svc_gw.Health.{Checker, new_checker, record_probe, probe_ok}
use secure_svc_gw.Proxy.Tls.{Pki, TlsConfig}

-- The http.Client of the probes.
pub record ProbeClient (P : Pki) : Type 0 where
  pub timeout : ℤ
  pub tls : TlsConfig P
  pub max_idle_conns_per_host : ℕ

-- The fields of Checker that stay as they are, and in `checker` those that change.
pub record Prober (P : Pki) (F : Type 0) : Type 0 where
  pub client : ProbeClient P
  pub health_path : Str
  pub interval : ℤ
  pub checker : Checker F

-- The request of probe.
pub record ProbeRequest : Type 0 where
  pub method : Str
  pub url : Str

module _ {F : Type 0} ⦃float : Float F⦄ where
  unfoldable pub new_prober : {P : Pki} → Pool F → TlsConfig P → Str → ℤ → Prober P F
  new_prober pool tls health_path interval = record {
    client = record { timeout = pos 1500000000; tls = tls; max_idle_conns_per_host = 4 };
    health_path = health_path;
    interval = interval;
    checker = new_checker pool;
  }

  -- The request of probe, where `fails` says on what http.NewRequestWithContext fails: its error is
  -- dropped, and the request is then nil, which is `none`.
  unfoldable pub probe_request :
      {P : Pki} → (Str → Str → Bool) → Prober P F → Lb.Backend F → Option ProbeRequest
  probe_request fails p b =
      let url = b.addr ++ p.health_path in
      if fails (codes "GET") url then none else some (record { method = codes "GET"; url = url })

  -- The indices of the backends of the pool, from `k` on: what the loop over All() visits.
  unfoldable pub indices_from : ℕ → List (Lb.Backend F) → List ℕ
  indices_from k [] = []
  indices_from k (b ∷ backends) = k ∷ indices_from (suc k) backends

  -- The goroutines of tick, one per backend.
  unfoldable pub probes_of : Checker F → List ℕ
  unfolding indices_from
  probes_of c = indices_from 0 c.pool.backends

-- The checker, the goroutines that have not ended, how many ticks there were, and whether the process
-- still runs.
pub record Schedule (F : Type 0) : Type 0 where
  pub checker : Checker F
  pub running : List ℕ
  pub ticks : ℕ
  pub alive : Bool

module _ {F : Type 0} ⦃float : Float F⦄ where
  unfoldable pub tick : Schedule F → Schedule F
  tick s = record s { running = s.running ++ probes_of s.checker; ticks = s.ticks + 1 }

  -- The end of probe for the backend at index `k`: what the client gave goes to record; on a nil
  -- request Do panics, in a goroutine that does not recover, and the process ends.
  unfoldable pub end_probe : ℕ → Option (Option ℕ) → List ℕ → Schedule F → Schedule F
  end_probe k (some answer) others s = record s {
    checker = record_probe k (probe_ok answer) s.checker;
    running = others;
  }
  end_probe k none others s = record s { alive = false }

  -- Run up to its first ticker event.
  unfoldable pub begin : Checker F → Schedule F
  begin c = tick (record { checker = c; running = []; ticks = 0; alive = true })

module _ {F : Type 0} ⦃float : Float F⦄ (request_of : Lb.Backend F → Option ProbeRequest) where
  -- One step of Run and its goroutines, with what it records: the backend and whether it passed.
  pub data Step : Schedule F → List (ℕ × Bool) → Schedule F → Type 0 where
    ticked : (s : Schedule F) → s.alive ≡ true → Step s [] (tick s)
    ended :
        (s : Schedule F) (k : ℕ) (b : Lb.Backend F) (r : ProbeRequest) (answer : Option ℕ)
        (before after : List ℕ)
        → s.alive ≡ true
        → s.running ≡ before ++ k ∷ after
        → get_elem? s.checker.pool.backends k ≡ some b
        → request_of b ≡ some r
        → Step s ((k, probe_ok answer) ∷ []) (end_probe k (some answer) (before ++ after) s)
    crashed :
        (s : Schedule F) (k : ℕ) (b : Lb.Backend F) (before after : List ℕ)
        → s.alive ≡ true
        → s.running ≡ before ++ k ∷ after
        → get_elem? s.checker.pool.backends k ≡ some b
        → request_of b ≡ none
        → Step s [] (end_probe k none (before ++ after) s)

  -- What Run can reach, with all that was recorded, in order.
  pub data Reached (c : Checker F) : List (ℕ × Bool) → Schedule F → Type 0 where
    begun : Reached c [] (begin c)
    then_ :
        {events recorded : List (ℕ × Bool)} {s s' : Schedule F}
        → Reached c events s
        → Step s recorded s'
        → Reached c (events ++ recorded) s'
