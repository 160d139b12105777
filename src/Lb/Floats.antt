-- ===== src/Lb/Floats.antt =====
-- The float64 operations that the load balancer uses. Floats are a parameter: a type with these
-- operations, and with the laws that a theorem names.
use secure_svc_gw.Prelude.{Bool, true, false, ◌≡◌, ℤ}

pub record Float (F : Type 0) : Type 0 where
  pub zero : F
  pub one : F
  pub of_int : ℤ → F
  pub plus : F → F → F
  pub times : F → F → F
  pub at_most : F → F → Bool
  pub equal : F → F → Bool
  -- The constants 0.3 and 1 - 0.3.
  pub alpha : F
  pub rest : F

-- The order is total, as it is on all floats but the NaNs.
abbrev pub IsTotal : {F : Type 0} → Float F → Type 0
IsTotal {F} float = (x y : F) → float.at_most x y ≡ false → float.at_most y x ≡ true
