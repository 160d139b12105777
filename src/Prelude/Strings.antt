-- ===== src/Prelude/Strings.antt =====
-- Go strings: sequences of bytes, with the functions of package `strings` that the program calls.
use Prim.Native.Char.{code}
use Prim.Native.Nat.{ℕ, zero, suc, ◌+◌, ◌-◌}
use Prim.Native.String.{String}
use mathlib.Core.Path.{◌≡◌, refl}
use mathlib.Core.Logic.{◌↔◌, ite, dite}
use mathlib.Core.Bool.{Bool, true, false, ◌&&◌, Bool-discrete}
use mathlib.Core.List.{List, [], ◌∷◌, ◌++◌, map, reverse}
use native.Mathlib.Omega.{arith}
use secure_svc_gw.Prelude.Bools.{leb, eqb, if◌then◌else◌}

abbrev pub Str : Type 0
Str = List ℕ

-- The bytes of a literal (the program's literals are ASCII).
abbrev pub codes : String → Str
codes String.[] = []
codes (String.◌∷◌ c s) = code c ∷ codes s

unfoldable pub str_eq : Str → Str → Bool
str_eq [] [] = true
str_eq (a ∷ s) (b ∷ t) = eqb a b && str_eq s t
str_eq _ _ = false

pub str_eq_iff : (s t : Str) → (str_eq s t ≡ true) ↔ (s ≡ t)
unfolding str_eq
str_eq_iff [] [] = (λ _. refl, λ _. refl)
str_eq_iff (a ∷ s) (b ∷ t) = ground (arith, str_eq_iff s t)
str_eq_iff [] (b ∷ t) = (λ h. cc, λ h. cc)
str_eq_iff (a ∷ s) [] = (λ h. cc, λ h. cc)

-- Shut in proofs, where a split on `s == t` yields the equation or its negation.
unfoldable pub Str-discrete : Discrete Str
unfolding str_eq
Str-discrete s t =
    dite (Bool-discrete (str_eq s t) true) (λ same. yes ((str_eq_iff s t).0 same))
      (λ differ. no (λ p. differ ((str_eq_iff s t).1 p)))

infix 50 ◌==◌
abbrev pub ◌==◌ : Str → Str → Bool
s == t = ite (Str-discrete s t) true false

-- s == ""
abbrev pub is_empty : Str → Bool
is_empty [] = true
is_empty (_ ∷ _) = false

-- strings.HasPrefix
unfoldable pub has_prefix : Str → Str → Bool
has_prefix s [] = true
has_prefix [] (p ∷ prefix) = false
has_prefix (c ∷ s) (p ∷ prefix) = eqb c p && has_prefix s prefix

abbrev pub drop : ℕ → Str → Str
drop zero s = s
drop (suc n) [] = []
drop (suc n) (_ ∷ s) = drop n s

abbrev pub take : ℕ → Str → Str
take zero s = []
take (suc n) [] = []
take (suc n) (c ∷ s) = c ∷ take n s

abbrev pub str_len : Str → ℕ
str_len [] = 0
str_len (_ ∷ s) = suc (str_len s)

-- strings.TrimPrefix
unfoldable pub trim_prefix : Str → Str → Str
unfolding has_prefix
trim_prefix s prefix = if has_prefix s prefix then drop (str_len prefix) s else s

-- The loop of strings.Split for a separator of one byte; `cur` is the open part.
unfoldable pub split_from : ℕ → Str → Str → List Str
split_from sep cur [] = cur ∷ []
split_from sep cur (c ∷ s) =
    let closed = cur ∷ split_from sep [] s in
    let longer = split_from sep (cur ++ c ∷ []) s in if eqb c sep then closed else longer

unfoldable pub split : ℕ → Str → List Str
unfolding split_from
split sep s = split_from sep [] s

-- One byte of strings.ToLower and strings.EqualFold: an ASCII letter loses its case.
abbrev pub lower_byte : ℕ → ℕ
lower_byte c = if leb b'A' c && leb c b'Z' then c + 32 else c

unfoldable pub to_lower : Str → Str
to_lower [] = []
to_lower (c ∷ s) = lower_byte c ∷ to_lower s

-- The encodings of the white-space characters of unicode.IsSpace.
abbrev spaces : List Str
spaces =
    (9 ∷ [])
    ∷ (10 ∷ [])
    ∷ (11 ∷ [])
    ∷ (12 ∷ [])
    ∷ (13 ∷ [])
    ∷ (32 ∷ [])
    ∷ (0xC2 ∷ 0x85 ∷ [])
    ∷ (0xC2 ∷ 0xA0 ∷ [])
    ∷ (0xE1 ∷ 0x9A ∷ 0x80 ∷ [])
    ∷ (0xE2 ∷ 0x80 ∷ 0x80 ∷ [])
    ∷ (0xE2 ∷ 0x80 ∷ 0x81 ∷ [])
    ∷ (0xE2 ∷ 0x80 ∷ 0x82 ∷ [])
    ∷ (0xE2 ∷ 0x80 ∷ 0x83 ∷ [])
    ∷ (0xE2 ∷ 0x80 ∷ 0x84 ∷ [])
    ∷ (0xE2 ∷ 0x80 ∷ 0x85 ∷ [])
    ∷ (0xE2 ∷ 0x80 ∷ 0x86 ∷ [])
    ∷ (0xE2 ∷ 0x80 ∷ 0x87 ∷ [])
    ∷ (0xE2 ∷ 0x80 ∷ 0x88 ∷ [])
    ∷ (0xE2 ∷ 0x80 ∷ 0x89 ∷ [])
    ∷ (0xE2 ∷ 0x80 ∷ 0x8A ∷ [])
    ∷ (0xE2 ∷ 0x80 ∷ 0xA8 ∷ [])
    ∷ (0xE2 ∷ 0x80 ∷ 0xA9 ∷ [])
    ∷ (0xE2 ∷ 0x80 ∷ 0xAF ∷ [])
    ∷ (0xE2 ∷ 0x81 ∷ 0x9F ∷ [])
    ∷ (0xE3 ∷ 0x80 ∷ 0x80 ∷ [])
    ∷ []

-- The length of the first of `encodings` that starts `s`, 0 if there is none.
front_width : List Str → Str → ℕ
unfolding has_prefix
front_width [] s = 0
front_width (e ∷ encodings) s = if has_prefix s e then str_len e else front_width encodings s

-- Drops encodings at the front; `skip` bytes of one are still to go.
trim_front : List Str → ℕ → Str → Str
unfolding front_width
trim_front encodings skip [] = []
trim_front encodings (suc skip) (c ∷ s) = trim_front encodings skip s
trim_front encodings zero (c ∷ s) =
    let width = front_width encodings (c ∷ s) in
    let trimmed = trim_front encodings (width - 1) s in if eqb width 0 then c ∷ s else trimmed

-- strings.TrimSpace. UTF-8 synchronises itself, so the last character is a space exactly when its
-- bytes end the text.
unfoldable pub trim_space : Str → Str
unfolding trim_front
trim_space s = reverse (trim_front (map reverse spaces) 0 (reverse (trim_front spaces 0 s)))

trim_space_test : trim_space (codes " \t a b \n") ≡ codes "a b"
unfolding trim_space
trim_space_test = refl

split_test : split b'.' (codes "a..b") ≡ codes "a" ∷ [] ∷ codes "b" ∷ []
unfolding split
split_test = refl
