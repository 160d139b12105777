-- ===== src/Lb/Draws.antt =====
-- internal/lb/pool.go: what Pick returns, whatever the draws.
use secure_svc_gw.Prelude.{
  ℕ, ◌≡◌, refl, ◌⊎◌, inl, inr, some, List, [], ◌∷◌, get_elem?, Bool-cases, Option-cases,
}
use secure_svc_gw.Lb.{Pool, score, healthy, second_index, cheaper, choose, pick}
use secure_svc_gw.Lb.Floats.{Float}
use secure_svc_gw.Lb.Pick.{IsUp, healthy-IsUp}

module _ {F : Type 0} ⦃float : Float F⦄ where
  cheaper-either : (p : Pool F) (a b : ℕ) → (cheaper p a b ≡ a) ⊎ (cheaper p a b ≡ b)
  unfolding cheaper
  cheaper-either p a b = elim (Option-cases (get_elem? p.backends a)) [
    | inl none_a ↦ inl (rw (none_a, cheaper) refl)
    | inr (x, at_a) ↦ elim (Option-cases (get_elem? p.backends b)) [
      | inl none_b ↦ inl (rw (at_a, none_b, cheaper) refl)
      | inr (y, at_b) ↦ elim (Bool-cases (float.at_most (score x) (score y))) [
        | inl less ↦ inl (rw (at_a, at_b, less, cheaper) refl)
        | inr more ↦ inr (rw (at_a, at_b, more, cheaper) refl)
      ]
    ]
  ]

  choose-among :
      (p : Pool F) (i j : ℕ) (hs : List ℕ) (k : ℕ)
      → choose p i j hs ≡ some k
      → (n : ℕ) × (get_elem? hs n ≡ some k)
  unfolding choose
  choose-among p i j [] k h = absurd (cc)
  choose-among p i j (only ∷ []) k h = (0, h)
  choose-among p i j (x ∷ y ∷ more) k h =
      let hs : List ℕ = x ∷ y ∷ more in
      elim (Option-cases (get_elem? hs i)) [
        | inl none_a ↦ absurd (cc (rw (none_a, choose) at h))
        | inr (a, at_a) ↦ elim (Option-cases (get_elem? hs (second_index i j))) [
          | inl none_b ↦ absurd (cc (rw (at_a, none_b, choose) at h))
          | inr (b, at_b) ↦
              let picked : some (cheaper p a b) ≡ some k = rw (at_a, at_b, choose) at h in
              elim (cheaper-either p a b) [
                | inl left ↦ (i, cc (at_a, left, picked))
                | inr right ↦ (second_index i j, cc (at_b, right, picked))
              ]
        ]
      ]

  -- What Pick returns is a healthy backend of the pool, whatever the draws.
  pub pick-IsUp_any : (p : Pool F) (i j k : ℕ) → pick i j p ≡ some k → IsUp p k
  unfolding pick
  pick-IsUp_any p i j k h =
      let (n, at) = choose-among p i j (healthy p) k h in healthy-IsUp p n k at
