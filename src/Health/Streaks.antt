-- ===== src/Health/Streaks.antt =====
-- internal/health/checker.go: the counters as streaks, and the health that a history deserves.
use secure_svc_gw.Prelude.{
  ℕ, suc, ◌≤◌, ◌≡◌, Bool, true, false, not, ◌&&◌, ◌||◌, List, [], ◌∷◌, arith, leb, length,
}

-- How many of the latest results, most recent first, are `v` in a row.
abbrev pub streak : Bool → List Bool → ℕ
streak v [] = 0
streak true (true ∷ h) = suc (streak true h)
streak true (false ∷ h) = 0
streak false (true ∷ h) = 0
streak false (false ∷ h) = suc (streak false h)

-- The health that the results deserve, most recent first: of the runs of two passes and the runs of
-- three failures the latest one decides. Before any such run a backend counts as healthy.
abbrev pub deserved : List Bool → Bool
deserved [] = true
deserved (true ∷ []) = true
deserved (true ∷ true ∷ h) = true
deserved (true ∷ false ∷ h) = deserved (false ∷ h)
deserved (false ∷ []) = true
deserved (false ∷ true ∷ h) = deserved (true ∷ h)
deserved (false ∷ false ∷ []) = true
deserved (false ∷ false ∷ false ∷ h) = false
deserved (false ∷ false ∷ true ∷ h) = deserved (true ∷ h)

-- One more pass, and one more failure, as the checker decides with its counters.
pub deserved-pass :
    (h : List Bool) → deserved (true ∷ h) ≡ (deserved h || leb 2 (suc (streak true h)))
deserved-pass [] = ground arith
deserved-pass (true ∷ h) = ground arith
deserved-pass (false ∷ h) = ground arith

pub deserved-fail :
    (h : List Bool) → deserved (false ∷ h) ≡ (deserved h && not (leb 3 (suc (streak false h))))
deserved-fail [] = ground arith
deserved-fail (true ∷ h) = ground arith
deserved-fail (false ∷ []) = ground arith
deserved-fail (false ∷ false ∷ h) = ground arith
deserved-fail (false ∷ true ∷ h) = ground arith

pub streak-le-length : (v : Bool) (h : List Bool) → streak v h ≤ length h
streak-le-length v [] = omega arith
streak-le-length true (true ∷ h) = omega (arith, streak-le-length true h)
streak-le-length true (false ∷ h) = omega arith
streak-le-length false (true ∷ h) = omega arith
streak-le-length false (false ∷ h) = omega (arith, streak-le-length false h)
