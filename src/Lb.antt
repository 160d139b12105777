-- ===== src/Lb.antt =====
-- internal/lb/pool.go: backends, their statistics, and the pool.
pub mod Floats
pub mod Stats
pub mod Pick
pub mod Choice
pub mod Draws
use secure_svc_gw.Prelude.{
  ℕ, zero, suc, ◌+◌, ◌-◌, Bool, true, false, not, ◌&&◌, Option, none, some, List, [], ◌∷◌, map, ℤ,
  pos, incr_int64, decr_int64, Str, leb, if◌then◌else◌, length, get_elem?,
}
use secure_svc_gw.Config
use Floats.{Float}

-- `ewma_ms` is of the type of floats. The mutex and the atomics make each method one step.
pub record Backend (F : Type 0) : Type 0 where
  pub id : Str
  pub addr : Str
  pub healthy : Bool
  pub inflight : ℤ
  pub ewma_ms : F
  pub has_stats : Bool

pub record Pool (F : Type 0) : Type 0 where
  pub service : Str
  pub backends : List (Backend F)

-- j++ if j >= i: the second index skips the first.
unfoldable pub second_index : ℕ → ℕ → ℕ
second_index i j = if leb i j then j + 1 else j

module _ {F : Type 0} ⦃float : Float F⦄ where
  unfoldable pub set_healthy : Bool → Backend F → Backend F
  set_healthy v b =
      let b' = record b { healthy = v } in
      if v && not b.healthy then record b' { ewma_ms = float.zero; has_stats = false } else b'

  unfoldable pub acquire : Backend F → Backend F
  acquire b = record b { inflight = incr_int64 b.inflight }

  unfoldable pub release : Backend F → Backend F
  release b = record b { inflight = decr_int64 b.inflight }

  -- The argument is the duration in whole milliseconds.
  unfoldable pub record_latency : ℤ → Backend F → Backend F
  record_latency milliseconds b =
      let sample = float.of_int milliseconds in
      if b.has_stats
      then record b {
        ewma_ms = float.plus (float.times float.alpha sample) (float.times float.rest b.ewma_ms);
      }
      else record b { ewma_ms = sample; has_stats = true }

  unfoldable pub score : Backend F → F
  score b =
      let ewma = if float.equal b.ewma_ms float.zero then float.one else b.ewma_ms in
      float.times ewma (float.of_int (incr_int64 b.inflight))

  new_backend : Config.Backend → Backend F
  new_backend b = record {
    id = b.id;
    addr = b.addr;
    healthy = true;
    inflight = pos 0;
    ewma_ms = float.zero;
    has_stats = false;
  }

  unfoldable pub new_pool : Str → List Config.Backend → Pool F
  unfolding new_backend
  new_pool service cfg = record { service = service; backends = map new_backend cfg }

  -- The healthy backends. A *Backend is the index of the backend in the pool.
  healthy_from : ℕ → List (Backend F) → List ℕ
  healthy_from i [] = []
  healthy_from i (b ∷ backends) =
      let rest = healthy_from (suc i) backends in if b.healthy then i ∷ rest else rest

  unfoldable pub healthy : Pool F → List ℕ
  unfolding healthy_from
  healthy p = healthy_from 0 p.backends

  -- The cheaper one of two backends, the first one if they tie.
  unfoldable pub cheaper : Pool F → ℕ → ℕ → ℕ
  cheaper p a b = elim (get_elem? p.backends a) [
    | none ↦ a
    | some x ↦ elim (get_elem? p.backends b) [
      | none ↦ a
      | some y ↦ if float.at_most (score x) (score y) then a else b
    ]
  ]

  -- Pick, where the two draws of rand.Intn are `i` below the number of healthy backends and `j`
  -- below one less. `none` is nil.
  unfoldable pub choose : Pool F → ℕ → ℕ → List ℕ → Option ℕ
  choose p i j [] = none
  choose p i j (only ∷ []) = some only
  choose p i j (h ∷ k ∷ more) = elim (get_elem? (h ∷ k ∷ more) i) [
    | none ↦ none
    | some a ↦ elim (get_elem? (h ∷ k ∷ more) (second_index i j)) [
      | none ↦ none
      | some b ↦ some (cheaper p a b)
    ]
  ]

  unfoldable pub pick : ℕ → ℕ → Pool F → Option ℕ
  unfolding choose
  pick i j p = choose p i j (healthy p)
