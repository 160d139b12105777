-- ===== src/Lb/Pick.antt =====
-- internal/lb/pool.go: what Pick chooses.
use native.Mathlib.Decide.{dec_lt}
use secure_svc_gw.Prelude.{
  ℕ, zero, suc, ◌+◌, ◌-◌, ◌<◌, ◌≡◌, ◌≢◌, refl, ap, ◌∙◌, ◌⊎◌, inl, inr, true, some, List, [], ◌∷◌,
  arith, leb, if◌then◌else◌, get_elem?, Bool-cases,
}
use secure_svc_gw.Lb.{Backend, Pool, healthy_from, healthy, second_index}
use secure_svc_gw.Lb.Floats.{Float}

-- The draws of the two calls of rand.Intn are in their ranges.
abbrev pub InRange : ℕ → ℕ → ℕ → Type 0
InRange n i j = (i < n) × (j < n - 1)

-- The two indices are in range and differ, and every such pair comes from one pair of draws.
pub second_index-ranges :
    (n i j : ℕ) → InRange n i j → (second_index i j < n) × (second_index i j ≢ i)
unfolding second_index
second_index-ranges n i j h = ground arith

abbrev pub draw_of : ℕ → ℕ → ℕ
draw_of i k = if leb k i then k else k - 1

-- For each first index, the second draw is turned into the other indices one to one, so that the
-- pairs of different healthy backends are as likely as one another: the other index `k` comes from
-- the draw `draw_of i k`, which is in range, and from no other draw `j`.
pub second_index-uniform :
    (n i k j : ℕ)
    → i < n
    → k < n
    → k ≢ i
    → (draw_of i k < n - 1)
      × (second_index i (draw_of i k) ≡ k)
      × ((second_index i j ≢ k) ⊎ (j ≡ draw_of i k))
unfolding second_index
second_index-uniform n i k j hi hk ne = (ground arith, ground arith, ground arith)

module _ {F : Type 0} where
  -- The backend at an index of the pool is there and healthy.
  abbrev pub IsUp : Pool F → ℕ → Type 0
  IsUp p k = (b : Backend F) × (get_elem? p.backends k ≡ some b) × (b.healthy ≡ true)

module _ {F : Type 0} ⦃float : Float F⦄ where
  -- Each entry of the snapshot points at a healthy backend.
  healthy_from-IsUp :
      (i : ℕ) (backends : List (Backend F)) (k m : ℕ)
      → get_elem? (healthy_from i backends) k ≡ some m
      → (d : ℕ) × (b : Backend F) × (m ≡ i + d)
        × (get_elem? backends d ≡ some b)
        × (b.healthy ≡ true)
  unfolding healthy_from
  healthy_from-IsUp i [] k m h = absurd (cc)
  healthy_from-IsUp i (b ∷ backends) zero m h = elim (Bool-cases b.healthy) [
    | inl up ↦ (0, b, ground arith, refl, up)
    | inr down ↦
        let later : get_elem? (healthy_from (suc i) backends) 0 ≡ some m = ground arith in
        let (d, c, e, at, up) = healthy_from-IsUp (suc i) backends 0 m later in
        (suc d, c, omega arith, at, up)
  ]
  healthy_from-IsUp i (b ∷ backends) (suc k) m h = elim (Bool-cases b.healthy) [
    | inl up ↦
        let later : get_elem? (healthy_from (suc i) backends) k ≡ some m = ground arith in
        let (d, c, e, at, up') = healthy_from-IsUp (suc i) backends k m later in
        (suc d, c, omega arith, at, up')
    | inr down ↦
        let later : get_elem? (healthy_from (suc i) backends) (suc k) ≡ some m = ground arith in
        let (d, c, e, at, up') = healthy_from-IsUp (suc i) backends (suc k) m later in
        (suc d, c, omega arith, at, up')
  ]

  -- Each healthy backend has an entry.
  healthy_from_complete :
      (i : ℕ) (backends : List (Backend F)) (d : ℕ) (b : Backend F)
      → get_elem? backends d ≡ some b
      → b.healthy ≡ true
      → (k : ℕ) × (get_elem? (healthy_from i backends) k ≡ some (i + d))
  unfolding healthy_from
  healthy_from_complete i [] d b at up = absurd (cc)
  healthy_from_complete i (c ∷ backends) zero b at up = (0, ground arith)
  healthy_from_complete i (c ∷ backends) (suc d) b at up =
      let (k, found) = healthy_from_complete (suc i) backends d b at up in
      let shift : suc i + d ≡ i + suc d = omega arith in
      elim (Bool-cases c.healthy) [
        | inl here ↦ (suc k, ground arith)
        | inr down ↦ (k, ground arith)
      ]

  -- The entries are in increasing order, so no backend has two.
  healthy_from_increasing :
      (i : ℕ) (backends : List (Backend F)) (k k' m m' : ℕ)
      → k < k'
      → get_elem? (healthy_from i backends) k ≡ some m
      → get_elem? (healthy_from i backends) k' ≡ some m'
      → m < m'
  unfolding healthy_from
  healthy_from_increasing i [] k k' m m' lt h h' = absurd (cc)
  healthy_from_increasing i (c ∷ backends) zero (suc k') m m' lt h h' =
      elim (Bool-cases c.healthy) [
        | inl up ↦
            let later : get_elem? (healthy_from (suc i) backends) k' ≡ some m' = ground arith in
            let (d, b, e, _, _) = healthy_from-IsUp (suc i) backends k' m' later in ground arith
        | inr down ↦
            healthy_from_increasing (suc i) backends zero (suc k') m m' lt (ground arith)
              (ground arith)
      ]
  healthy_from_increasing i (c ∷ backends) (suc k) (suc k') m m' lt h h' =
      elim (Bool-cases c.healthy) [
        | inl up ↦
            healthy_from_increasing (suc i) backends k k' m m' (omega arith) (ground arith)
              (ground arith)
        | inr down ↦
            healthy_from_increasing (suc i) backends (suc k) (suc k') m m' lt (ground arith)
              (ground arith)
      ]
  healthy_from_increasing i (c ∷ backends) k zero m m' lt h h' = elim lt [ ]

  pub healthy-IsUp : (p : Pool F) (k m : ℕ) → get_elem? (healthy p) k ≡ some m → IsUp p m
  unfolding healthy
  healthy-IsUp p k m h =
      let (d, b, e, at, up) = healthy_from-IsUp 0 p.backends k m h in
      let same : m ≡ d = omega arith in (b, rw same at, up)

  pub healthy_complete :
      (p : Pool F) (m : ℕ) → IsUp p m → (k : ℕ) × (get_elem? (healthy p) k ≡ some m)
  unfolding healthy
  healthy_complete p m (b, at, up) =
      let (k, found) = healthy_from_complete 0 p.backends m b at up in
      let same : 0 + m ≡ m = omega arith in (k, found ∙ ap some same)

  pub healthy_distinct :
      (p : Pool F) (k k' m m' : ℕ)
      → k ≢ k'
      → get_elem? (healthy p) k ≡ some m
      → get_elem? (healthy p) k' ≡ some m'
      → m ≢ m'
  unfolding healthy
  healthy_distinct p k k' m m' ne h h' e = elim (dec_lt k k') [
    | yes lt ↦ absurd (omega (arith, healthy_from_increasing 0 p.backends k k' m m' lt h h'))
    | no ge ↦
        absurd (omega (arith, healthy_from_increasing 0 p.backends k' k m' m (omega arith) h' h))
  ]
