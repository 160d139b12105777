-- ===== src/Prelude/Times.antt =====
-- Package time: instants with nanoseconds and durations in nanoseconds.
use Prim.Native.Nat.{ℕ, suc, ◌+◌, ◌-◌, ◌*◌, ◌/◌, ◌%◌}
use mathlib.Core.Path.{◌≡◌, refl}
use mathlib.Core.Bool.{Bool, true, false, ◌&&◌, ◌||◌}
use native.Mathlib.Omega.{arith}
use secure_svc_gw.Prelude.Bools.{ltb, eqb, if◌then◌else◌}
use secure_svc_gw.Prelude.Int.{
  ℤ, pos, negsuc, ◌+ℤ◌, ◌-ℤ◌, ◌<ℤ◌, ltb_ℤ, eqb_ℤ, max_int64, wrap_int64,
}

-- Seconds since the start of the year 1, and nanoseconds within the second.
pub record Time : Type 0 where
  pub sec : ℤ
  pub nsec : ℕ

-- t.After(u), and t.Before(u) with the arguments swapped.
abbrev pub after : Time → Time → Bool
after t u = ltb_ℤ u.sec t.sec || eqb_ℤ u.sec t.sec && ltb u.nsec t.nsec

-- t is at or before u.
abbrev pub NotAfter : Time → Time → Type 0
NotAfter t u = after t u ≡ false

pub NotAfter-refl : (t : Time) → NotAfter t t
NotAfter-refl t = ground arith

pub NotAfter-trans : (t u v : Time) → NotAfter t u → NotAfter u v → NotAfter t v
NotAfter-trans t u v p q = ground arith

-- time.Unix(s, 0). The sum with the seconds up to 1970 wraps, as in Go.
unfoldable pub unix : ℤ → Time
unfolding ◌+ℤ◌ ◌-ℤ◌
unix s = record { sec = wrap_int64 (s +ℤ pos 62135596800); nsec = 0 }

-- t.IsZero()
abbrev pub is_zero : Time → Bool
is_zero t = eqb_ℤ t.sec (pos 0) && eqb t.nsec 0

-- A number of seconds in the range that Go's Add keeps.
abbrev saturate : ℤ → ℤ
saturate a =
    if ltb_ℤ (pos max_int64) a
    then pos max_int64
    else if ltb_ℤ a (negsuc (max_int64 - 1))
    then negsuc (max_int64 - 1)
    else a

abbrev pub second : ℕ
second = 1000000000

-- t.Add(d)
unfoldable pub add : Time → ℤ → Time
unfolding ◌+ℤ◌ ◌-ℤ◌
add t (pos d) = record {
  sec = saturate (t.sec +ℤ pos ((t.nsec + d) / second));
  nsec = (t.nsec + d) % second;
}
add t (negsuc d) =
    let borrow = (suc d - t.nsec + 999999999) / second in
    record { sec = saturate (t.sec -ℤ pos borrow); nsec = t.nsec + borrow * second - suc d }

-- A whole number of nanoseconds in the range of a Duration.
abbrev clamp_int64 : ℤ → ℤ
clamp_int64 a =
    if ltb_ℤ (pos max_int64) a
    then pos max_int64
    else if ltb_ℤ a (negsuc max_int64)
    then negsuc max_int64
    else a

abbrev times_second : ℤ → ℤ
times_second (pos n) = pos (n * second)
times_second (negsuc n) = negsuc (suc n * second - 1)

-- t.Sub(u), clamped as in Go.
unfoldable pub sub : Time → Time → ℤ
unfolding ◌+ℤ◌ ◌-ℤ◌
sub t u = clamp_int64 (times_second (t.sec -ℤ u.sec) +ℤ (pos t.nsec -ℤ pos u.nsec))

-- The wall clock is past the year 1, as every clock since 1970 is.
abbrev pub IsModern : Time → Type 0
IsModern t = pos 0 <ℤ t.sec

pub is_zero_of_NotAfter : (t u : Time) → IsModern t → NotAfter t u → is_zero u ≡ false
is_zero_of_NotAfter t u m h = ground arith

-- A minute past 1970, less ten nanoseconds.
add_test : add (unix (pos 60)) (negsuc 9) ≡ record { sec = pos 62135596859; nsec = 999999990 }
unfolding unix add
add_test = refl

sub_test : sub (unix (pos 7)) (add (unix (pos 9)) (pos 5)) ≡ negsuc 2000000004
unfolding sub unix add
sub_test = refl

-- The largest int64 wraps into the distant past.
unix_wraps : after (unix (pos 0)) (unix (pos max_int64)) ≡ true
unfolding unix
unix_wraps = refl
