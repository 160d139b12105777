-- ===== src/Tests/Probing.antt =====
-- Runs of the checker with its ticks and its probes.
use secure_svc_gw.Prelude.{
  ℕ, zero, suc, ◌+◌, ◌≤◌, ◌≡◌, ◌≢◌, refl, true, false, Option, none, some, List, [], ◌∷◌, ◌++◌,
  Str-discrete, lookup, insert, incr_int64, All, codes, arith, length, get_elem?,
}
use secure_svc_gw.Config
use secure_svc_gw.Lb
use secure_svc_gw.Lb.{healthy, pick, new_pool, set_healthy}
use secure_svc_gw.Health.{new_checker, record_probe, probe_ok, on_fail, on_pass}
use secure_svc_gw.Health.History.{Tracks}
use secure_svc_gw.Health.Runs.{results}
use secure_svc_gw.Health.Probes.{
  ProbeRequest, Schedule, tick, end_probe, probes_of, ticked, ended, begin, Reached, begun, then_,
}
use secure_svc_gw.Health.Reach.{occurs}
use secure_svc_gw.Health.Fate.{
  HasOwnId, checker_for, Reached-Tracks, Reached-ejected, Reached-restored,
}
use secure_svc_gw.Tests.{tenths}

abbrev one : Config.Backend
one = record { id = codes "a"; addr = codes "https://a" }

abbrev single : List Config.Backend
single = one ∷ []

-- The probes of the checker of main, on addresses that are all well formed.
abbrev request_of : Lb.Backend ℕ → Option ProbeRequest
request_of b = some (record { method = codes "GET"; url = b.addr ++ codes "/healthz" })

only_one : HasOwnId single 0 one
only_one zero y at named = refl
only_one (suc m) y at named = absurd (cc)

-- The schedule after a probe has ended `n` times, each after its tick, with the answer.
abbrev after_probe : Option ℕ → Schedule ℕ → Schedule ℕ
after_probe answer s = end_probe 0 (some answer) ([] ++ []) s

abbrev first_end : Option ℕ → Schedule ℕ
first_end answer = after_probe answer (begin (checker_for (codes "s") single))

abbrev second_end : Option ℕ → Schedule ℕ
second_end answer = after_probe answer (tick (first_end answer))

abbrev third_end : Option ℕ → Schedule ℕ
third_end answer = after_probe answer (tick (second_end answer))

Reached-first :
    (answer : Option ℕ)
    → Reached request_of
        (checker_for (codes "s") single)
        ((0, probe_ok answer) ∷ [])
        (first_end answer)
unfolding begin tick probes_of new_checker new_pool
Reached-first answer = then_ begun (ended _ 0 _ _ answer [] [] refl refl refl refl)

Reached-second :
    Reached request_of
      (checker_for (codes "s") single)
      ((0, false) ∷ (0, false) ∷ [])
      (second_end none)
unfolding begin tick probes_of new_checker new_pool end_probe record_probe probe_ok on_fail
    incr_int64 lookup insert Str-discrete
Reached-second =
    then_ (then_ (Reached-first none) (ticked _ refl))
      (ended _ 0 _ _ none [] [] refl refl refl refl)

Reached-third :
    Reached request_of
      (checker_for (codes "s") single)
      ((0, false) ∷ (0, false) ∷ (0, false) ∷ [])
      (third_end none)
unfolding begin tick probes_of new_checker new_pool end_probe record_probe probe_ok on_fail
    incr_int64 lookup insert Str-discrete
Reached-third =
    then_ (then_ Reached-second (ticked _ refl)) (ended _ 0 _ _ none [] [] refl refl refl refl)

Reached-Tracks_example :
    Tracks
      (third_end none).checker
      0
      (codes "a")
      (results 0 ((0, false) ∷ (0, false) ∷ (0, false) ∷ []) [])
    × (length (results 0 ((0, false) ∷ (0, false) ∷ (0, false) ∷ []) [])
          + occurs 0 (third_end none).running
        ≡ (third_end none).ticks)
Reached-Tracks_example =
    Reached-Tracks request_of (codes "s") single 0 one ((0, false) ∷ (0, false) ∷ (0, false) ∷ [])
      (third_end none) refl only_one (omega arith) Reached-third

none_healthy : length (healthy (third_end none).checker.pool) ≡ 0
unfolding set_healthy healthy begin tick probes_of new_checker new_pool end_probe record_probe
    probe_ok on_fail incr_int64 lookup insert Str-discrete
none_healthy = refl

All-failed :
    All (λ passed. passed ≡ false) (results 0 ((0, false) ∷ (0, false) ∷ (0, false) ∷ []) [])
unfolding results
All-failed = (refl, (refl, (refl, tt)))

three_ticks : 3 + occurs 0 (third_end none).running ≤ (third_end none).ticks
unfolding begin tick probes_of new_checker new_pool end_probe
three_ticks = omega arith

Reached-ejected_example : pick 0 0 (third_end none).checker.pool ≢ some 0
Reached-ejected_example =
    Reached-ejected request_of (codes "s") single 0 one ((0, false) ∷ (0, false) ∷ (0, false) ∷ [])
      (third_end none) 0 0 refl only_one (omega arith) Reached-third All-failed three_ticks
      (λ two. absurd (omega (arith, none_healthy)))

Reached-passing :
    Reached request_of
      (checker_for (codes "s") single)
      ((0, true) ∷ (0, true) ∷ [])
      (second_end (some 200))
unfolding begin tick probes_of new_checker new_pool end_probe record_probe probe_ok on_pass
    incr_int64 lookup insert Str-discrete
Reached-passing =
    then_ (then_ (Reached-first (some 200)) (ticked _ refl))
      (ended _ 0 _ _ (some 200) [] [] refl refl refl refl)

both_passed : results 0 ((0, true) ∷ (0, true) ∷ []) [] ≡ true ∷ true ∷ []
unfolding results
both_passed = refl

Reached-restored_example :
    (m : ℕ) × (get_elem? (healthy (second_end (some 200)).checker.pool) m ≡ some 0)
Reached-restored_example =
    Reached-restored request_of (codes "s") single 0 one ((0, true) ∷ (0, true) ∷ []) []
      (second_end (some 200)) refl only_one (omega arith) Reached-passing both_passed
