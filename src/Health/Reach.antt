-- ===== src/Health/Reach.antt =====
-- internal/health/checker.go: every state that Run and its goroutines can reach.
use mathlib.Core.List.{append-nil}
use secure_svc_gw.Prelude.{
  ℕ, suc, ◌+◌, ◌<◌, ◌≡◌, refl, sym, ap, subst, ◌∙◌, inl, inr, none, some, Bool, ◌&&◌, Option, List,
  [], ◌∷◌, ◌++◌, arith, eqb, leb, ltb, if◌then◌else◌, length, length-modify,
}
use secure_svc_gw.Lb
use secure_svc_gw.Lb.{Pool, set_healthy}
use secure_svc_gw.Lb.Floats.{Float}
use secure_svc_gw.Health.{Checker, record_probe, probe_ok}
use secure_svc_gw.Health.Runs.{results, run, record_probe-shape}
use secure_svc_gw.Health.Probes.{
  ProbeRequest, crashed, indices_from, probes_of, Schedule, tick, end_probe, ticked, ended, begin,
  Reached, begun, then_,
}

-- How often an index is in a list.
abbrev pub occurs : ℕ → List ℕ → ℕ
occurs k [] = 0
occurs k (m ∷ ms) = let rest = occurs k ms in if eqb m k then suc rest else rest

occurs-append : (k : ℕ) (ms ns : List ℕ) → occurs k (ms ++ ns) ≡ occurs k ms + occurs k ns
occurs-append k [] ns = omega arith
occurs-append k (m ∷ ms) ns = ground (arith, occurs-append k ms ns)

results-append :
    (k : ℕ) (events more : List (ℕ × Bool)) (h : List Bool)
    → results k (events ++ more) h ≡ results k more (results k events h)
unfolding results
results-append k [] more h = refl
results-append k ((m, passed) ∷ events) more h =
    results-append k events more (if eqb m k then passed ∷ h else h)

module _ {F : Type 0} ⦃float : Float F⦄ where
  run-append :
      (events more : List (ℕ × Bool)) (c : Checker F)
      → run (events ++ more) c ≡ run more (run events c)
  unfolding run
  run-append [] more c = refl
  run-append ((m, passed) ∷ events) more c = run-append events more (record_probe m passed c)

  occurs-indices_from :
      (k j : ℕ) (backends : List (Lb.Backend F))
      → occurs k (indices_from j backends)
        ≡ (if leb j k && ltb k (j + length backends) then 1 else 0)
  unfolding indices_from
  occurs-indices_from k j [] = ground arith
  occurs-indices_from k j (b ∷ backends) = ground (arith, occurs-indices_from k (suc j) backends)

  occurs-probes_of :
      (k : ℕ) (c : Checker F) → k < length c.pool.backends → occurs k (probes_of c) ≡ 1
  unfolding probes_of
  occurs-probes_of k c h = ground (arith, occurs-indices_from k 0 c.pool.backends)

  record_probe-size :
      (k : ℕ) (passed : Bool) (c : Checker F)
      → length (record_probe k passed c).pool.backends ≡ length c.pool.backends
  record_probe-size k passed c = elim (record_probe-shape c k passed) [
    | inl same ↦ ap length same
    | inr changed ↦ ap length changed ∙ length-modify k (set_healthy passed) c.pool.backends
  ]

  -- The checker is what the recorded results make of the first one, and each tick has given every
  -- backend one result, or one probe that is still running.
  pub record IsProbed (c : Checker F) (events : List (ℕ × Bool)) (s : Schedule F) : Type 0 where
    pub ran : s.checker ≡ run events c
    pub size : length s.checker.pool.backends ≡ length c.pool.backends
    pub counted :
        (k : ℕ)
        → k < length c.pool.backends
        → length (results k events []) + occurs k s.running ≡ s.ticks

  begin-IsProbed : (c : Checker F) → IsProbed c [] (begin c)
  unfolding begin tick run results
  begin-IsProbed c = record {
    ran = refl;
    size = refl;
    counted = λ k h. omega (arith, occurs-probes_of k c h);
  }

  tick-IsProbed :
      (c : Checker F) (events : List (ℕ × Bool)) (s : Schedule F)
      → IsProbed c events s
      → IsProbed c (events ++ []) (tick s)
  unfolding tick
  tick-IsProbed c events s i =
      subst (λ es. IsProbed c es (tick s)) (sym (append-nil events))
        (record {
          ran = i.ran;
          size = i.size;
          counted = λ k h. omega (
            arith,
            i.counted k h,
            occurs-append k s.running (probes_of s.checker),
            occurs-probes_of k s.checker (omega (arith, i.size)),
          );
        })

  end_probe-IsProbed :
      (c : Checker F) (events : List (ℕ × Bool)) (s : Schedule F) (m : ℕ) (answer : Option ℕ)
      (before after : List ℕ)
      → s.running ≡ before ++ m ∷ after
      → IsProbed c events s
      → IsProbed c
          (events ++ (m, probe_ok answer) ∷ [])
          (end_probe m (some answer) (before ++ after) s)
  unfolding end_probe run results
  end_probe-IsProbed c events s m answer before after split i = record {
    ran =
        ap (record_probe m (probe_ok answer)) i.ran
        ∙ sym (run-append events ((m, probe_ok answer) ∷ []) c);
    size = record_probe-size m (probe_ok answer) s.checker ∙ i.size;
    counted = λ k h.
        let here : occurs k s.running ≡ occurs k (before ++ m ∷ after) = ap (occurs k) split in
        let longer = ap length (results-append k events ((m, probe_ok answer) ∷ []) []) in
        ground (
          arith,
          i.counted k h,
          here,
          longer,
          occurs-append k before (m ∷ after),
          occurs-append k before after,
        );
  }

  crash-IsProbed :
      (c : Checker F) (events : List (ℕ × Bool)) (s : Schedule F) (m : ℕ) (others : List ℕ)
      → IsProbed c events s
      → IsProbed c (events ++ []) (end_probe m none others s)
  unfolding end_probe
  crash-IsProbed c events s m others i =
      subst (λ es. IsProbed c es (end_probe m none others s)) (sym (append-nil events))
        (record { ran = i.ran; size = i.size; counted = i.counted })

  pub Reached-IsProbed :
      (request_of : Lb.Backend F → Option ProbeRequest) (c : Checker F) (events : List (ℕ × Bool))
      (s : Schedule F)
      → Reached request_of c events s
      → IsProbed c events s
  Reached-IsProbed q c _ _ begun = begin-IsProbed c
  Reached-IsProbed q c _ _ (then_ {events = events} r (ticked s on)) =
      tick-IsProbed c events s (Reached-IsProbed q c events s r)
  Reached-IsProbed q c _ _
        (then_ {events = events} r (crashed s k b before after on split at nil)) =
      crash-IsProbed c events s k (before ++ after) (Reached-IsProbed q c events s r)
  Reached-IsProbed q c _ _
        (then_ {events = events} r (ended s k b request answer before after on split at made)) =
      end_probe-IsProbed c events s k answer before after split (Reached-IsProbed q c events s r)
