-- ===== src/Health/Fate.antt =====
-- internal/health/checker.go with internal/lb/pool.go: what becomes of a backend, by its probes, in
-- every state that Run can reach.
use secure_svc_gw.Prelude.{
  ℕ, zero, suc, ◌+◌, ◌<◌, ◌≤◌, ◌≡◌, ◌≢◌, sym, ap, subst, ◌∙◌, inl, inr, Bool, true, false, Option,
  some, List, [], ◌∷◌, arith, max_int64, Str, length, get_elem?, All,
}
use secure_svc_gw.Config
use secure_svc_gw.Lb.{Backend, Pool, new_pool, healthy, pick}
use secure_svc_gw.Lb.Floats.{Float}
use secure_svc_gw.Lb.Pick.{InRange, healthy_complete}
use secure_svc_gw.Lb.Choice.{pick-IsUp}
use secure_svc_gw.Health.{Checker, new_checker}
use secure_svc_gw.Health.Streaks.{deserved}
use secure_svc_gw.Health.History.{Tracks}
use secure_svc_gw.Health.Runs.{results, run-Tracks}
use secure_svc_gw.Health.Probes.{ProbeRequest, Schedule, Reached}
use secure_svc_gw.Health.Reach.{occurs, Reached-IsProbed}

-- Only the backend at index `k` has its ID.
abbrev pub HasOwnId : List Config.Backend → ℕ → Config.Backend → Type 0
HasOwnId cfg k x = (m : ℕ) (y : Config.Backend) → get_elem? cfg m ≡ some y → y.id ≡ x.id → m ≡ k

deserved_of_failures : (h : List Bool) → All (λ p. p ≡ false) h → 3 ≤ length h → deserved h ≡ false
deserved_of_failures [] all long = absurd (omega arith)
deserved_of_failures (a ∷ []) all long = absurd (omega arith)
deserved_of_failures (a ∷ b ∷ []) all long = absurd (omega arith)
deserved_of_failures (a ∷ b ∷ c ∷ h) (p, (q, (r, all))) long = rw (p, q, r)

index-lt-new_pool :
    (F : Type 0) ⦃float : Float F⦄ (service : Str) (cfg : List Config.Backend) (k : ℕ)
    (x : Config.Backend)
    → get_elem? cfg k ≡ some x
    → k < length (new_pool {F = F} service cfg).backends
unfolding new_pool
index-lt-new_pool F service [] k x at = absurd (cc)
index-lt-new_pool F service (y ∷ cfg) zero x at = omega arith
index-lt-new_pool F service (y ∷ cfg) (suc k) x at =
    omega (arith, index-lt-new_pool F service cfg k x at)

module _ {F : Type 0} ⦃float : Float F⦄ where
  -- The checker that NewChecker makes of the backends of a service.
  abbrev pub checker_for : Str → List Config.Backend → Checker F
  checker_for service cfg = new_checker (new_pool service cfg)

  -- In every state that Run can reach, in whatever order the probes of its ticks end: a backend with
  -- an ID of its own has one result or one running probe per tick, it is healthy exactly as its
  -- results deserve, and its counters and its gauge agree with that. (The results are fewer than an
  -- int holds.)
  pub Reached-Tracks :
      (request_of : Backend F → Option ProbeRequest) (service : Str) (cfg : List Config.Backend)
      (k : ℕ) (x : Config.Backend) (events : List (ℕ × Bool)) (s : Schedule F)
      → get_elem? cfg k ≡ some x
      → HasOwnId cfg k x
      → length events < max_int64
      → Reached request_of (checker_for service cfg) events s
      → Tracks s.checker k x.id (results k events [])
        × (length (results k events []) + occurs k s.running ≡ s.ticks)
  unfolding new_checker
  Reached-Tracks request_of service cfg k x events s at only short r =
      let i = Reached-IsProbed request_of (checker_for service cfg) events s r in
      (
        subst (λ c. Tracks c k x.id (results k events [])) (sym i.ran)
            (run-Tracks service cfg k x events at only short),
        i.counted k (index-lt-new_pool F service cfg k x at),
      )

  down-IsNotPicked :
      (p : Pool F) (i j k : ℕ) (b : Backend F)
      → (2 ≤ length (healthy p) → InRange (length (healthy p)) i j)
      → get_elem? p.backends k ≡ some b
      → b.healthy ≡ false
      → pick i j p ≢ some k
  down-IsNotPicked p i j k b range at down picked = elim (pick-IsUp i j p range) [
    | inl (none_, _) ↦ cc (none_, picked)
    | inr (m, some_, (c, at', up)) ↦
        let same : m ≡ k = cc (some_, picked) in
        let here : get_elem? p.backends k ≡ some c = rw same at at' in
        let both : b ≡ c = cc (at, here) in cc (both, up, down)
  ]

  -- A backend with an ID of its own in its pool that passes no probe, such as one whose certificate
  -- another CA signed, is never picked with draws in range once three of its probes have ended: whatever the ticks and the order of the probes, that is so
  -- after three ticks and as many as it has probes still running. (The results are fewer than an int
  -- holds.)
  pub Reached-ejected :
      (request_of : Backend F → Option ProbeRequest) (service : Str) (cfg : List Config.Backend)
      (k : ℕ) (x : Config.Backend) (events : List (ℕ × Bool)) (s : Schedule F) (i j : ℕ)
      → get_elem? cfg k ≡ some x
      → HasOwnId cfg k x
      → length events < max_int64
      → Reached request_of (checker_for service cfg) events s
      → All (λ passed. passed ≡ false) (results k events [])
      → 3 + occurs k s.running ≤ s.ticks
      → (2 ≤ length (healthy s.checker.pool) → InRange (length (healthy s.checker.pool)) i j)
      → pick i j s.checker.pool ≢ some k
  Reached-ejected request_of service cfg k x events s i j at only short r failed late range =
      let (t, count) = Reached-Tracks request_of service cfg k x events s at only short r in
      down-IsNotPicked s.checker.pool i j k t.backend range t.at
        (t.health ∙ deserved_of_failures (results k events []) failed (omega (arith, count)))

  -- A backend with an ID of its own in its pool, whose latest two results are passes, is among the
  -- backends that Pick draws from, however often it failed before. (The results are fewer than an int
  -- holds.)
  pub Reached-restored :
      (request_of : Backend F → Option ProbeRequest) (service : Str) (cfg : List Config.Backend)
      (k : ℕ) (x : Config.Backend) (events : List (ℕ × Bool)) (h : List Bool) (s : Schedule F)
      → get_elem? cfg k ≡ some x
      → HasOwnId cfg k x
      → length events < max_int64
      → Reached request_of (checker_for service cfg) events s
      → results k events [] ≡ true ∷ true ∷ h
      → (m : ℕ) × (get_elem? (healthy s.checker.pool) m ≡ some k)
  Reached-restored request_of service cfg k x events h s at only short r passed =
      let (t, _) = Reached-Tracks request_of service cfg k x events s at only short r in
      healthy_complete s.checker.pool k (t.backend, t.at, t.health ∙ ap deserved passed)
