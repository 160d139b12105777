-- ===== src/Prelude/Int.antt =====
-- Signed integers over the native numbers, under the library's names, and the wrap-around of int64.
use Prim.Native.Nat.{ℕ, suc, ◌+◌, ◌-◌, ◌≤◌, ◌<◌}
use mathlib.Core.Path.{◌≡◌}
use mathlib.Core.Bool.{Bool}
use native.Mathlib.Omega.{arith}
use secure_svc_gw.Prelude.Bools.{ltb, leb, eqb, if◌then◌else◌}

-- `negsuc n` is -(n + 1).
pub data ℤ : Type 0 where
  pos : ℕ → ℤ
  negsuc : ℕ → ℤ

abbrev pub pos_part : ℤ → ℕ
pos_part (pos n) = n
pos_part (negsuc n) = 0

abbrev pub neg_part : ℤ → ℕ
neg_part (pos n) = 0
neg_part (negsuc n) = suc n

-- a - b, as an integer.
abbrev pub sub_ℕ : ℕ → ℕ → ℤ
sub_ℕ a b = if leb b a then pos (a - b) else negsuc (b - a - 1)

infixl 65 ◌+ℤ◌ ◌-ℤ◌
infix 50 ◌≤ℤ◌ ◌<ℤ◌
unfoldable pub ◌+ℤ◌ : ℤ → ℤ → ℤ
a +ℤ b = sub_ℕ (pos_part a + pos_part b) (neg_part a + neg_part b)

unfoldable pub ◌-ℤ◌ : ℤ → ℤ → ℤ
a -ℤ b = sub_ℕ (pos_part a + neg_part b) (neg_part a + pos_part b)

abbrev pub ◌≤ℤ◌ : ℤ → ℤ → Type 0
a ≤ℤ b = pos_part a + neg_part b ≤ pos_part b + neg_part a

abbrev pub ◌<ℤ◌ : ℤ → ℤ → Type 0
a <ℤ b = pos_part a + neg_part b < pos_part b + neg_part a

abbrev pub ltb_ℤ : ℤ → ℤ → Bool
ltb_ℤ a b = ltb (pos_part a + neg_part b) (pos_part b + neg_part a)

abbrev pub leb_ℤ : ℤ → ℤ → Bool
leb_ℤ a b = leb (pos_part a + neg_part b) (pos_part b + neg_part a)

abbrev pub eqb_ℤ : ℤ → ℤ → Bool
eqb_ℤ a b = eqb (pos_part a + neg_part b) (pos_part b + neg_part a)

-- The largest int64, and the value that an int64 operation has for the exact result `a`, where
-- that misses the range by less than its size.
abbrev pub max_int64 : ℕ
max_int64 = 9223372036854775807

abbrev pub wrap_int64 : ℤ → ℤ
wrap_int64 a =
    if ltb_ℤ (pos max_int64) a
    then a -ℤ pos 18446744073709551616
    else if ltb_ℤ a (negsuc max_int64)
    then a +ℤ pos 18446744073709551616
    else a

-- x + 1 and x - 1 on int64.
unfoldable pub incr_int64 : ℤ → ℤ
unfolding ◌+ℤ◌ ◌-ℤ◌
incr_int64 a = wrap_int64 (a +ℤ pos 1)

unfoldable pub decr_int64 : ℤ → ℤ
unfolding ◌+ℤ◌ ◌-ℤ◌
decr_int64 a = wrap_int64 (a -ℤ pos 1)

-- Short of the largest int64 the increment is exact.
pub incr_int64-pos : (n : ℕ) → n < max_int64 → incr_int64 (pos n) ≡ pos (n + 1)
unfolding incr_int64
incr_int64-pos n h = ground arith

abbrev pub IsInt64 : ℤ → Type 0
IsInt64 a = (a ≤ℤ pos max_int64) × (negsuc max_int64 ≤ℤ a)

-- Incrementing and decrementing an int64 gives it back, at the ends of the range too.
pub decr_int64-incr_int64 : (a : ℤ) → IsInt64 a → decr_int64 (incr_int64 a) ≡ a
unfolding incr_int64 decr_int64
decr_int64-incr_int64 a h = ground arith

pub incr_int64-IsInt64 : (a : ℤ) → IsInt64 a → IsInt64 (incr_int64 a)
unfolding incr_int64
incr_int64-IsInt64 a h = ground arith

pub decr_int64-pos : (n : ℕ) → n < max_int64 → decr_int64 (pos (suc n)) ≡ pos n
unfolding decr_int64
decr_int64-pos n h = ground arith
