-- ===== src/Health/History.antt =====
-- internal/health/checker.go: what record makes of the probes of one backend.
use secure_svc_gw.Prelude.{
  ℕ, suc, ◌<◌, ◌≡◌, refl, sym, ap, ◌∙◌, ◌⊎◌, inl, inr, Bool, true, false, not, ◌&&◌, ◌||◌, none,
  some, List, ◌∷◌, arith, ℤ, pos, leb, leb_ℤ, incr_int64, incr_int64-pos, max_int64, Str, Map,
  lookup, insert, lookup_or, lookup-insert, length, get_elem?, modify, get_elem?-modify, Bool-cases,
}
use secure_svc_gw.Lb.{Backend, set_healthy}
use secure_svc_gw.Lb.Floats.{Float}
use secure_svc_gw.Health.{Checker, on_pass, on_fail}
use secure_svc_gw.Health.Streaks.{streak, deserved, deserved-pass, deserved-fail, streak-le-length}

-- The latest entry of a map.
lookup_or-insert : (id : Str) (n : ℤ) (m : Map ℤ) → lookup_or id (pos 0) (insert id n m) ≡ n
lookup_or-insert id n m = ground (arith, lookup-insert id id n m)

lookup-insert_self {ℓ} :
    {V : Type ℓ} (id : Str) (v : V) (m : Map V) → lookup id (insert id v m) ≡ some v
lookup-insert_self id v m = ground (arith, lookup-insert id id v m)

next_count :
    (id : Str) (m : Map ℤ) (n : ℕ)
    → lookup_or id (pos 0) m ≡ pos n
    → n < max_int64
    → incr_int64 (lookup_or id (pos 0) m) ≡ pos (suc n)
next_count id m n h short = ap incr_int64 h ∙ incr_int64-pos n short ∙ ap pos (omega arith)

or_true : (x : Bool) {y : Bool} → y ≡ true → (x || y) ≡ true
or_true x h = ground arith

or_false : (x : Bool) {y : Bool} → y ≡ false → (x || y) ≡ x
or_false x h = ground arith

and_not-true : (x : Bool) {y : Bool} → y ≡ true → (x && not y) ≡ false
and_not-true x h = ground arith

and_not-false : (x : Bool) {y : Bool} → y ≡ false → (x && not y) ≡ x
and_not-false x h = ground arith

restore_test :
    (up : Bool) (threshold : ℤ) (n : ℕ) (count : ℤ)
    → threshold ≡ pos 2
    → count ≡ pos (suc n)
    → (up || leb 2 (suc n)) ≡ (up || (not up && leb_ℤ threshold count))
restore_test up threshold n count p q = rw (p, q) (ground arith)

eject_test :
    (up : Bool) (threshold : ℤ) (n : ℕ) (count : ℤ)
    → threshold ≡ pos 3
    → count ≡ pos (suc n)
    → (up && not (leb 3 (suc n))) ≡ (up && not (up && leb_ℤ threshold count))
eject_test up threshold n count p q = rw (p, q) (ground arith)

module _ {F : Type 0} where
  -- The counters, the liveness bit and the gauge of the backend at index `k` are those of the
  -- history, most recent first.
  pub record Tracks (c : Checker F) (k : ℕ) (id : Str) (h : List Bool) : Type 0 where
    pub backend : Backend F
    pub at : get_elem? c.pool.backends k ≡ some backend
    pub named : backend.id ≡ id
    pub health : backend.healthy ≡ deserved h
    pub passed : lookup_or id (pos 0) c.passes ≡ pos (streak true h)
    pub failed : lookup_or id (pos 0) c.fails ≡ pos (streak false h)
    pub shown : (lookup id c.gauge ≡ none) ⊎ (lookup id c.gauge ≡ some backend.healthy)
    pub pass_two : c.pass_threshold ≡ pos 2
    pub fail_three : c.fail_threshold ≡ pos 3

module _ {F : Type 0} ⦃float : Float F⦄ where
  set_healthy-fields :
      (v : Bool) (b : Backend F) → ((set_healthy v b).healthy ≡ v) × ((set_healthy v b).id ≡ b.id)
  unfolding set_healthy
  set_healthy-fields v b = ground arith

  get_elem?-modify_self :
      (k : ℕ) (f : Backend F → Backend F) (b : Backend F) (bs : List (Backend F))
      → get_elem? bs k ≡ some b
      → get_elem? (modify k f bs) k ≡ some (f b)
  get_elem?-modify_self k f b bs h = ground (arith, get_elem?-modify bs k k f)

  module _ (c : Checker F) (k : ℕ) (b : Backend F) (h : List Bool)
      (at : get_elem? c.pool.backends k ≡ some b) (health : b.healthy ≡ deserved h)
      (passed : lookup_or b.id (pos 0) c.passes ≡ pos (streak true h))
      (failed : lookup_or b.id (pos 0) c.fails ≡ pos (streak false h))
      (shown : (lookup b.id c.gauge ≡ none) ⊎ (lookup b.id c.gauge ≡ some b.healthy))
      (pass_two : c.pass_threshold ≡ pos 2) (fail_three : c.fail_threshold ≡ pos 3)
      (short : length h < max_int64) where
    pass_count : incr_int64 (lookup_or b.id (pos 0) c.passes) ≡ pos (suc (streak true h))
    pass_count =
        next_count b.id c.passes (streak true h) passed (omega (arith, streak-le-length true h))

    fail_count : incr_int64 (lookup_or b.id (pos 0) c.fails) ≡ pos (suc (streak false h))
    fail_count =
        next_count b.id c.fails (streak false h) failed (omega (arith, streak-le-length false h))

    -- Whether a pass restores the backend, and a failure ejects it.
    abbrev restores : Bool
    restores =
        not b.healthy && leb_ℤ c.pass_threshold (incr_int64 (lookup_or b.id (pos 0) c.passes))

    abbrev ejects : Bool
    ejects = b.healthy && leb_ℤ c.fail_threshold (incr_int64 (lookup_or b.id (pos 0) c.fails))

    deserved-restores : deserved (true ∷ h) ≡ (b.healthy || restores)
    deserved-restores =
        deserved-pass h
        ∙ ap (λ x. x || leb 2 (suc (streak true h))) (sym health)
        ∙ restore_test b.healthy c.pass_threshold (streak true h) _ pass_two pass_count

    deserved-ejects : deserved (false ∷ h) ≡ (b.healthy && not ejects)
    deserved-ejects =
        deserved-fail h
        ∙ ap (λ x. x && not (leb 3 (suc (streak false h)))) (sym health)
        ∙ eject_test b.healthy c.fail_threshold (streak false h) _ fail_three fail_count

    pub on_pass-Tracks : Tracks (on_pass k b c) k b.id (true ∷ h)
    unfolding on_pass
    on_pass-Tracks = elim (Bool-cases restores) [
      | inl back ↦
          rw (back, on_pass)
            (record {
              backend = set_healthy true b;
              at = get_elem?-modify_self k (set_healthy true) b c.pool.backends at;
              named = (set_healthy-fields true b).1;
              health =
                  (set_healthy-fields true b).0 ∙ sym (deserved-restores ∙ or_true b.healthy back);
              passed = lookup_or-insert b.id _ c.passes ∙ pass_count;
              failed = lookup_or-insert b.id _ c.fails;
              shown = inr (
                  lookup-insert_self b.id true c.gauge
                  ∙ ap some (sym (set_healthy-fields true b).0));
              pass_two = pass_two;
              fail_three = fail_three;
            })
      | inr stays ↦ elim (Bool-cases b.healthy) [
        | inl up ↦
            rw (stays, up, on_pass)
              (record {
                backend = b;
                at = at;
                named = refl;
                health = sym (deserved-restores ∙ or_false b.healthy stays);
                passed = lookup_or-insert b.id _ c.passes ∙ pass_count;
                failed = lookup_or-insert b.id _ c.fails;
                shown = inr (lookup-insert_self b.id true c.gauge ∙ ap some (sym up));
                pass_two = pass_two;
                fail_three = fail_three;
              })
        | inr down ↦
            rw (stays, down, on_pass)
              (record {
                backend = b;
                at = at;
                named = refl;
                health = sym (deserved-restores ∙ or_false b.healthy stays);
                passed = lookup_or-insert b.id _ c.passes ∙ pass_count;
                failed = lookup_or-insert b.id _ c.fails;
                shown = shown;
                pass_two = pass_two;
                fail_three = fail_three;
              })
      ]
    ]

    pub on_fail-Tracks : Tracks (on_fail k b c) k b.id (false ∷ h)
    unfolding on_fail
    on_fail-Tracks = elim (Bool-cases ejects) [
      | inl out ↦
          rw (out, on_fail)
            (record {
              backend = set_healthy false b;
              at = get_elem?-modify_self k (set_healthy false) b c.pool.backends at;
              named = (set_healthy-fields false b).1;
              health =
                  (set_healthy-fields false b).0
                  ∙ sym (deserved-ejects ∙ and_not-true b.healthy out);
              passed = lookup_or-insert b.id _ c.passes;
              failed = lookup_or-insert b.id _ c.fails ∙ fail_count;
              shown = inr (
                  lookup-insert_self b.id false c.gauge
                  ∙ ap some (sym (set_healthy-fields false b).0));
              pass_two = pass_two;
              fail_three = fail_three;
            })
      | inr stays ↦
          rw (stays, on_fail)
            (record {
              backend = b;
              at = at;
              named = refl;
              health = sym (deserved-ejects ∙ and_not-false b.healthy stays);
              passed = lookup_or-insert b.id _ c.passes;
              failed = lookup_or-insert b.id _ c.fails ∙ fail_count;
              shown = shown;
              pass_two = pass_two;
              fail_three = fail_three;
            })
    ]
