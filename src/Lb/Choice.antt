-- ===== src/Lb/Choice.antt =====
-- internal/lb/pool.go: Pick over its snapshot of the healthy backends.
use native.Mathlib.Decide.{dec_lt}
use secure_svc_gw.Prelude.{
  ℕ, ◌≤◌, ◌<◌, ◌≡◌, ◌≢◌, refl, sym, ap, ◌∙◌, ◌⊎◌, inl, inr, true, false, none, some, List, [], ◌∷◌,
  arith, length, get_elem?, get_elem?-of_lt, Bool-cases, Option-cases,
}
use secure_svc_gw.Lb.{Backend, Pool, score, healthy, second_index, cheaper, choose, pick}
use secure_svc_gw.Lb.Floats.{Float, IsTotal}
use secure_svc_gw.Lb.Pick.{
  InRange, second_index-ranges, IsUp, healthy-IsUp, healthy_complete, healthy_distinct,
}

get_elem?-of_empty {ℓ} :
    {A : Type ℓ} (xs : List A) (k : ℕ) → get_elem? xs 0 ≡ none → get_elem? xs k ≡ none
get_elem?-of_empty [] k h = refl
get_elem?-of_empty (x ∷ xs) k h = cc

some_injective {ℓ} : {A : Type ℓ} {a b : A} → some a ≡ some b → a ≡ b
some_injective h = cc

none≢some {ℓ} : {A : Type ℓ} {a : A} → none ≡ some a → ⊥
none≢some h = cc

module _ {F : Type 0} ⦃float : Float F⦄ where
  -- Which of two backends has the lower score, both there.
  pub record IsCheaper (p : Pool F) (a b k : ℕ) : Type 0 where
    pub left : Backend F
    pub right : Backend F
    pub at_left : get_elem? p.backends a ≡ some left
    pub at_right : get_elem? p.backends b ≡ some right
    pub lower :
        ((k ≡ a) × (float.at_most (score left) (score right) ≡ true))
        ⊎ ((k ≡ b) × (float.at_most (score right) (score left) ≡ true))

  cheaper-IsCheaper :
      (p : Pool F) (a b : ℕ) → IsTotal float → IsUp p a → IsUp p b → IsCheaper p a b (cheaper p a b)
  unfolding cheaper
  cheaper-IsCheaper p a b total (x, at_a, _) (y, at_b, _) =
      rw (at_a, cheaper)
        (rw at_b (elim (Bool-cases (float.at_most (score x) (score y))) [
          | inl less ↦ rw less (record {
            left = x;
            right = y;
            at_left = at_a;
            at_right = at_b;
            lower = inl (refl, less);
          })
          | inr more ↦ rw more (record {
            left = x;
            right = y;
            at_left = at_a;
            at_right = at_b;
            lower = inr (refl, total _ _ more);
          })
        ]))

  choose_two :
      (p : Pool F) (i j : ℕ) (hs : List ℕ)
      → 2 ≤ length hs
      → InRange (length hs) i j
      → (a b : ℕ) × (get_elem? hs i ≡ some a)
        × (get_elem? hs (second_index i j) ≡ some b)
        × (choose p i j hs ≡ some (cheaper p a b))
  unfolding choose
  choose_two p i j [] two range = absurd (omega arith)
  choose_two p i j (h ∷ []) two range = absurd (omega arith)
  choose_two p i j (h ∷ k ∷ more) two range =
      let hs : List ℕ = h ∷ k ∷ more in
      let (in_range, _) = second_index-ranges (length hs) i j range in
      let (a, at_a) = get_elem?-of_lt hs i range.0 in
      let (b, at_b) = get_elem?-of_lt hs (second_index i j) in_range in
      (a, b, at_a, at_b, ground arith)

  -- With two or more healthy backends and draws in range, Pick compares two different healthy
  -- backends and returns one of them that has the lower score, if the order of scores is total.
  pub pick-IsCheaper :
      (i j : ℕ) (p : Pool F)
      → 2 ≤ length (healthy p)
      → InRange (length (healthy p)) i j
      → IsTotal float
      → (a b k : ℕ) × (a ≢ b) × IsUp p a × IsUp p b × (pick i j p ≡ some k) × IsCheaper p a b k
  unfolding pick
  pick-IsCheaper i j p two range total =
      let (a, b, at_a, at_b, chosen) = choose_two p i j (healthy p) two range in
      let (_, ne) = second_index-ranges (length (healthy p)) i j range in
      let up_a = healthy-IsUp p i a at_a in
      let up_b = healthy-IsUp p (second_index i j) b at_b in
      (
        a,
        b,
        cheaper p a b,
        healthy_distinct p i (second_index i j) a b (λ e. ne (sym e)) at_a at_b,
        up_a,
        up_b,
        chosen,
        cheaper-IsCheaper p a b total up_a up_b,
      )

  beaten :
      (p : Pool F) (a b worst : ℕ) (w x y : Backend F)
      → IsCheaper p a b worst
      → a ≢ b
      → get_elem? p.backends a ≡ some x
      → get_elem? p.backends b ≡ some y
      → get_elem? p.backends worst ≡ some w
      → (a ≢ worst → float.at_most (score w) (score x) ≡ false)
      → (b ≢ worst → float.at_most (score w) (score y) ≡ false)
      → ⊥
  beaten p a b worst w x y c ne at_x at_y at_w costs_a costs_b = elim c.lower [
    | inl (w_a, less) ↦
        let left_w : c.left ≡ w =
          some_injective (sym c.at_left ∙ ap (get_elem? p.backends) (sym w_a) ∙ at_w) in
        let right_y : c.right ≡ y = some_injective (sym c.at_right ∙ at_y) in
        cc (costs_b (λ e. ne (sym w_a ∙ sym e)))
    | inr (w_b, less) ↦
        let right_w : c.right ≡ w =
          some_injective (sym c.at_right ∙ ap (get_elem? p.backends) (sym w_b) ∙ at_w) in
        let left_x : c.left ≡ x = some_injective (sym c.at_left ∙ at_x) in
        cc (costs_a (λ e. ne (e ∙ w_b)))
  ]

  -- A healthy backend that costs more than each other healthy one is never picked, while there is
  -- another.
  pub pick-ne_worst :
      (i j : ℕ) (p : Pool F) (worst : ℕ) (w : Backend F)
      → 2 ≤ length (healthy p)
      → InRange (length (healthy p)) i j
      → IsTotal float
      → get_elem? p.backends worst ≡ some w
      → ((m : ℕ) (b : Backend F)
          → m ≢ worst
          → get_elem? p.backends m ≡ some b
          → b.healthy ≡ true
          → float.at_most (score w) (score b) ≡ false)
      → pick i j p ≢ some worst
  pick-ne_worst i j p worst w two range total at_w costs e =
      let (a, b, k, ne, (x, at_x, up_x), (y, at_y, up_y), chosen, c) =
        pick-IsCheaper i j p two range total in
      let k_worst : k ≡ worst = some_injective (sym chosen ∙ e) in
      beaten p a b worst w x y (rw k_worst at c) ne at_x at_y at_w
        (λ other. costs a x other at_x up_x) (λ other. costs b y other at_y up_y)

  choose_one_or_none :
      (p : Pool F) (i j : ℕ) (hs : List ℕ) → length hs < 2 → choose p i j hs ≡ get_elem? hs 0
  unfolding choose
  choose_one_or_none p i j [] few = refl
  choose_one_or_none p i j (h ∷ []) few = refl
  choose_one_or_none p i j (h ∷ k ∷ more) few = absurd (omega arith)

  cheaper_either : (p : Pool F) (a b : ℕ) → (cheaper p a b ≡ a) ⊎ (cheaper p a b ≡ b)
  unfolding cheaper
  cheaper_either p a b = ground arith

  -- With draws in range Pick returns nil exactly if no backend is healthy, and a backend that it
  -- returns is in the pool and healthy.
  pub pick-IsUp :
      (i j : ℕ) (p : Pool F)
      → (2 ≤ length (healthy p) → InRange (length (healthy p)) i j)
      → ((pick i j p ≡ none) × ((m : ℕ) → ¬ IsUp p m))
        ⊎ ((k : ℕ) × (pick i j p ≡ some k) × IsUp p k)
  unfolding pick
  pick-IsUp i j p range = elim (dec_lt (length (healthy p)) 2) [
    | yes few ↦
        let first = choose_one_or_none p i j (healthy p) few in
        elim (Option-cases (get_elem? (healthy p) 0)) [
          | inl empty ↦ inl (
            first ∙ empty,
            λ m up.
                let (k, found) = healthy_complete p m up in
                none≢some (sym (get_elem?-of_empty (healthy p) k empty) ∙ found),
          )
          | inr (k, found) ↦ inr (k, first ∙ found, healthy-IsUp p 0 k found)
        ]
    | no many ↦
        let (a, b, at_a, at_b, chosen) =
          choose_two p i j (healthy p) (omega arith) (range (omega arith)) in
        elim (cheaper_either p a b) [
          | inl is_a ↦ inr (a, chosen ∙ ap some is_a, healthy-IsUp p i a at_a)
          | inr is_b ↦ inr (b, chosen ∙ ap some is_b, healthy-IsUp p (second_index i j) b at_b)
        ]
  ]
