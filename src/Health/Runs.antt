-- ===== src/Health/Runs.antt =====
-- internal/health/checker.go: any sequence of calls of record, over all backends of a pool.
use native.Mathlib.Decide.{ℕ_discrete}
use secure_svc_gw.Prelude.{
  ℕ, zero, suc, ◌+◌, ◌<◌, ◌≡◌, ◌≢◌, refl, sym, ap, subst, ◌∙◌, ◌⊎◌, inl, inr, Bool, true, false,
  none, some, List, [], ◌∷◌, arith, pos, eqb, eqb_iff, incr_int64, max_int64, Str, lookup,
  lookup_or, lookup-insert, if◌then◌else◌, length, get_elem?, modify, get_elem?-modify,
  Option-cases,
}
use secure_svc_gw.Config
use secure_svc_gw.Lb.{Backend, Pool, set_healthy, new_pool}
use secure_svc_gw.Lb.Floats.{Float}
use secure_svc_gw.Health.{Checker, new_checker, on_pass, on_fail, record_probe}
use secure_svc_gw.Health.Streaks.{streak}
use secure_svc_gw.Health.History.{Tracks, on_pass-Tracks, on_fail-Tracks}

-- The results of the probes of backend `k`, most recent first, before those in `h`.
unfoldable pub results : ℕ → List (ℕ × Bool) → List Bool → List Bool
results k [] h = h
results k ((m, passed) ∷ events) h = results k events (if eqb m k then passed ∷ h else h)

module _ {F : Type 0} ⦃float : Float F⦄ where
  unfoldable pub run : List (ℕ × Bool) → Checker F → Checker F
  run [] c = c
  run ((k, passed) ∷ events) c = run events (record_probe k passed c)

  -- Only the backend at index `k` has the ID.
  abbrev pub OnlyAt : Pool F → ℕ → Str → Type 0
  OnlyAt p k id = (m : ℕ) (b : Backend F) → get_elem? p.backends m ≡ some b → b.id ≡ id → m ≡ k

  module _ (c : Checker F) (k : ℕ) (id : Str) (h : List Bool) (t : Tracks c k id h) (m : ℕ)
      (b : Backend F) (other : m ≢ k) (differs : b.id ≢ id) where
    on_pass_other : Tracks (on_pass m b c) k id h
    unfolding on_pass
    on_pass_other = record {
      backend = t.backend;
      at = ground (arith, get_elem?-modify c.pool.backends m k (set_healthy true), t.at);
      named = t.named;
      health = t.health;
      passed = ground (
        arith,
        t.passed,
        lookup-insert id b.id (incr_int64 (lookup_or b.id (pos 0) c.passes)) c.passes,
      );
      failed = ground (arith, t.failed, lookup-insert id b.id (pos 0) c.fails);
      shown = ground (arith, t.shown, lookup-insert id b.id true c.gauge);
      pass_two = ground (arith, t.pass_two);
      fail_three = ground (arith, t.fail_three);
    }

    on_fail_other : Tracks (on_fail m b c) k id h
    unfolding on_fail
    on_fail_other = record {
      backend = t.backend;
      at = ground (arith, get_elem?-modify c.pool.backends m k (set_healthy false), t.at);
      named = t.named;
      health = t.health;
      passed = ground (arith, t.passed, lookup-insert id b.id (pos 0) c.passes);
      failed = ground (
        arith,
        t.failed,
        lookup-insert id b.id (incr_int64 (lookup_or b.id (pos 0) c.fails)) c.fails,
      );
      shown = ground (arith, t.shown, lookup-insert id b.id false c.gauge);
      pass_two = ground (arith, t.pass_two);
      fail_three = ground (arith, t.fail_three);
    }

  record_probe-at :
      (c : Checker F) (m : ℕ) (passed : Bool) (b : Backend F)
      → get_elem? c.pool.backends m ≡ some b
      → record_probe m passed c ≡ (if passed then on_pass m b c else on_fail m b c)
  unfolding record_probe
  record_probe-at c m passed b at = rw (at, record_probe)

  record_probe_absent :
      (c : Checker F) (m : ℕ) (passed : Bool)
      → get_elem? c.pool.backends m ≡ none
      → record_probe m passed c ≡ c
  unfolding record_probe
  record_probe_absent c m passed at = rw (at, record_probe)

  record_probe-Tracks_self :
      (c : Checker F) (k : ℕ) (id : Str) (h : List Bool) (passed : Bool)
      → Tracks c k id h
      → length h < max_int64
      → Tracks (record_probe k passed c) k id (passed ∷ h)
  record_probe-Tracks_self c k id h true t short = rw (record_probe-at c k true t.backend t.at) (
      subst (λ i. Tracks (on_pass k t.backend c) k i (true ∷ h)) t.named
        (on_pass-Tracks c k t.backend h t.at t.health
          (subst (λ i. lookup_or i (pos 0) c.passes ≡ pos (streak true h)) (sym t.named) t.passed)
          (subst (λ i. lookup_or i (pos 0) c.fails ≡ pos (streak false h)) (sym t.named) t.failed)
          (subst (λ i. (lookup i c.gauge ≡ none) ⊎ (lookup i c.gauge ≡ some t.backend.healthy))
            (sym t.named) t.shown)
          t.pass_two t.fail_three short))
  record_probe-Tracks_self c k id h false t short = rw (record_probe-at c k false t.backend t.at) (
      subst (λ i. Tracks (on_fail k t.backend c) k i (false ∷ h)) t.named
        (on_fail-Tracks c k t.backend h t.at t.health
          (subst (λ i. lookup_or i (pos 0) c.passes ≡ pos (streak true h)) (sym t.named) t.passed)
          (subst (λ i. lookup_or i (pos 0) c.fails ≡ pos (streak false h)) (sym t.named) t.failed)
          (subst (λ i. (lookup i c.gauge ≡ none) ⊎ (lookup i c.gauge ≡ some t.backend.healthy))
            (sym t.named) t.shown)
          t.pass_two t.fail_three short))

  record_probe-Tracks_other :
      (c : Checker F) (k : ℕ) (id : Str) (h : List Bool) (m : ℕ) (passed : Bool) (b : Backend F)
      → Tracks c k id h
      → get_elem? c.pool.backends m ≡ some b
      → m ≢ k
      → b.id ≢ id
      → Tracks (record_probe m passed c) k id h
  record_probe-Tracks_other c k id h m true b t at other differs =
      rw (record_probe-at c m true b at) (on_pass_other c k id h t m b other differs)
  record_probe-Tracks_other c k id h m false b t at other differs =
      rw (record_probe-at c m false b at) (on_fail_other c k id h t m b other differs)

  -- One event, for the backend itself or for another one.
  record_probe-Tracks :
      (c : Checker F) (k : ℕ) (id : Str) (h : List Bool) (m : ℕ) (passed : Bool)
      → Tracks c k id h
      → OnlyAt c.pool k id
      → length h < max_int64
      → Tracks (record_probe m passed c) k id (if eqb m k then passed ∷ h else h)
  record_probe-Tracks c k id h m passed t only short = elim (ℕ_discrete m k) [
    | yes here ↦ rw ((eqb_iff m k).1 here) (
        subst (λ i. Tracks (record_probe i passed c) k id (passed ∷ h)) (sym here)
          (record_probe-Tracks_self c k id h passed t short))
    | no other ↦
        let differ : eqb m k ≡ false = ground arith in
        rw differ (elim (Option-cases (get_elem? c.pool.backends m)) [
          | inl absent ↦ rw (record_probe_absent c m passed absent) t
          | inr (b, at) ↦
              record_probe-Tracks_other c k id h m passed b t at other (λ e. other (only m b at e))
        ])
  ]

  pub record_probe-shape :
      (c : Checker F) (j : ℕ) (passed : Bool)
      → ((record_probe j passed c).pool.backends ≡ c.pool.backends)
        ⊎ ((record_probe j passed c).pool.backends ≡ modify j (set_healthy passed) c.pool.backends)
  unfolding record_probe on_pass on_fail
  record_probe-shape c j true = ground arith
  record_probe-shape c j false = ground arith

  modify-backends :
      (j m : ℕ) (v : Bool) (b : Backend F) (bs : List (Backend F))
      → get_elem? (modify j (set_healthy v) bs) m ≡ some b
      → (b' : Backend F) × (get_elem? bs m ≡ some b') × (b'.id ≡ b.id)
  unfolding set_healthy
  modify-backends j m v b bs h = elim (Option-cases (get_elem? bs m)) [
    | inl absent ↦ absurd (ground (arith, get_elem?-modify bs j m (set_healthy v)))
    | inr (b', at) ↦ (b', at, ground (arith, get_elem?-modify bs j m (set_healthy v)))
  ]

  -- The backends stay where they are and keep their IDs.
  record_probe-backends :
      (c : Checker F) (j m : ℕ) (passed : Bool) (b : Backend F)
      → get_elem? (record_probe j passed c).pool.backends m ≡ some b
      → (b' : Backend F) × (get_elem? c.pool.backends m ≡ some b') × (b'.id ≡ b.id)
  record_probe-backends c j m passed b h = elim (record_probe-shape c j passed) [
    | inl same ↦ (b, ap (λ bs. get_elem? bs m) (sym same) ∙ h, refl)
    | inr changed ↦
        modify-backends j m passed b c.pool.backends (ap (λ bs. get_elem? bs m) (sym changed) ∙ h)
  ]

  record_probe-OnlyAt :
      (c : Checker F) (k : ℕ) (id : Str) (m : ℕ) (passed : Bool)
      → OnlyAt c.pool k id
      → OnlyAt (record_probe m passed c).pool k id
  record_probe-OnlyAt c k id m passed only n b at named =
      let (b', at', same) = record_probe-backends c m n passed b at in only n b' at' (same ∙ named)

  run-Tracks_from :
      (c : Checker F) (k : ℕ) (id : Str) (h : List Bool) (events : List (ℕ × Bool))
      → Tracks c k id h
      → OnlyAt c.pool k id
      → length events + length h < max_int64
      → Tracks (run events c) k id (results k events h)
  unfolding run results
  run-Tracks_from c k id h [] t only short = t
  run-Tracks_from c k id h ((m, passed) ∷ events) t only short =
      run-Tracks_from (record_probe m passed c) k id (if eqb m k then passed ∷ h else h) events
        (record_probe-Tracks c k id h m passed t only (omega arith))
        (record_probe-OnlyAt c k id m passed only) (ground arith)

  new_pool-backends :
      (cfg : List Config.Backend) (service : Str) (m : ℕ) (b : Backend F)
      → get_elem? (new_pool service cfg).backends m ≡ some b
      → (x : Config.Backend) × (get_elem? cfg m ≡ some x) × (x.id ≡ b.id) × (b.healthy ≡ true)
  unfolding new_pool
  new_pool-backends [] service m b h = absurd (cc)
  new_pool-backends (x ∷ cfg) service zero b h = (x, refl, ground arith, ground arith)
  new_pool-backends (x ∷ cfg) service (suc m) b h = new_pool-backends cfg service m b h

  get_elem?-new_pool :
      (cfg : List Config.Backend) (service : Str) (m : ℕ) (x : Config.Backend)
      → get_elem? cfg m ≡ some x
      → (b : Backend F) × (get_elem? (new_pool service cfg).backends m ≡ some b)
        × (b.id ≡ x.id)
        × (b.healthy ≡ true)
  unfolding new_pool
  get_elem?-new_pool [] service m x h = absurd (cc)
  get_elem?-new_pool (y ∷ cfg) service zero x h = (_, refl, ground arith, refl)
  get_elem?-new_pool (y ∷ cfg) service (suc m) x h = get_elem?-new_pool cfg service m x h

  -- Whatever probes of the pool's backends are recorded, in any order: a backend whose ID is its own
  -- is healthy exactly as its own results deserve, its two counters are its streaks of passes and of
  -- failures, and its gauge, once set, shows its health. (The results are fewer than an int holds.)
  pub run-Tracks :
      (service : Str) (cfg : List Config.Backend) (k : ℕ) (x : Config.Backend)
      (events : List (ℕ × Bool))
      → get_elem? cfg k ≡ some x
      → ((m : ℕ) (y : Config.Backend) → get_elem? cfg m ≡ some y → y.id ≡ x.id → m ≡ k)
      → length events < max_int64
      → Tracks
          (run events (new_checker (new_pool {F = F} service cfg)))
          k
          x.id
          (results k events [])
  unfolding new_checker lookup
  run-Tracks service cfg k x events at only short =
      let (b, at', named, up) = get_elem?-new_pool cfg service k x at in
      run-Tracks_from (new_checker (new_pool service cfg)) k x.id [] events
        (record {
          backend = b;
          at = at';
          named = named;
          health = up;
          passed = refl;
          failed = refl;
          shown = inl refl;
          pass_two = refl;
          fail_three = refl;
        })
        (λ m b' here same.
          let (y, at_y, id_y, _) = new_pool-backends cfg service m b' here in
          only m y at_y (id_y ∙ same))
        (omega arith)
