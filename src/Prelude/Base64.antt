-- ===== src/Prelude/Base64.antt =====
-- Package encoding/base64: the standard encoding with padding.
use Prim.Native.Nat.{ℕ, ◌+◌, ◌-◌, ◌*◌, ◌/◌, ◌%◌, ◌<◌}
use mathlib.Core.Path.{◌≡◌, refl, ap, ◌∙◌}
use mathlib.Core.Bool.{false, ◌&&◌, ◌||◌}
use mathlib.Core.Option.{Option, none, some}
use mathlib.Core.List.{[], ◌∷◌}
use native.Mathlib.Omega.{arith}
use secure_svc_gw.Prelude.Bools.{ltb, leb, eqb, if◌then◌else◌}
use secure_svc_gw.Prelude.Lists.{All}
use secure_svc_gw.Prelude.Strings.{Str}

-- The character of six bits, and back.
digit : ℕ → ℕ
digit n =
    if ltb n 26
    then n + b'A'
    else if ltb n 52
    then n + 71
    else if ltb n 62
    then n - 4
    else if eqb n 62
    then b'+'
    else b'/'

value : ℕ → Option ℕ
value c =
    if leb b'A' c && leb c b'Z'
    then some (c - b'A')
    else if leb b'a' c && leb c b'z'
    then some (c - 71)
    else if leb b'0' c && leb c b'9'
    then some (c + 4)
    else if eqb c b'+'
    then some 62
    else if eqb c b'/'
    then some 63
    else none

-- StdEncoding.EncodeToString
unfoldable pub std_encode : Str → Str
unfolding digit
std_encode [] = []
std_encode (a ∷ []) = digit (a / 4) ∷ digit (a % 4 * 16) ∷ b'=' ∷ b'=' ∷ []
std_encode (a ∷ b ∷ []) =
    digit (a / 4) ∷ digit (a % 4 * 16 + b / 16) ∷ digit (b % 16 * 4) ∷ b'=' ∷ []
std_encode (a ∷ b ∷ c ∷ bytes) =
    digit (a / 4)
    ∷ digit (a % 4 * 16 + b / 16)
    ∷ digit (b % 16 * 4 + c / 64)
    ∷ digit (c % 64)
    ∷ std_encode bytes

-- The decoder skips line breaks.
without_breaks : Str → Str
without_breaks [] = []
without_breaks (c ∷ s) =
    let rest = without_breaks s in if eqb c 10 || eqb c 13 then rest else c ∷ rest

bind : {A B : Type 0} → Option A → (A → Option B) → Option B
bind none f = none
bind (some a) f = f a

one_byte : ℕ → ℕ → Option Str
unfolding value bind
one_byte w x = bind (value w) (λ p. bind (value x) (λ q. some ((p * 4 + q / 16) ∷ [])))

two_bytes : ℕ → ℕ → ℕ → Option Str
unfolding value bind
two_bytes w x y = bind (value w) (λ p.
    bind (value x)
      (λ q. bind (value y) (λ r. some ((p * 4 + q / 16) ∷ (q % 16 * 16 + r / 4) ∷ []))))

three_bytes : ℕ → ℕ → ℕ → ℕ → Option Str → Option Str
unfolding value bind
three_bytes w x y z rest = bind (value w) (λ p. bind (value x) (λ q. bind (value y) (λ r.
    bind (value z) (λ t.
      bind rest
        (λ bytes. some ((p * 4 + q / 16) ∷ (q % 16 * 16 + r / 4) ∷ (r % 4 * 64 + t) ∷ bytes))))))

-- The last group of four may end in padding.
last_group : ℕ → ℕ → ℕ → ℕ → Option Str
unfolding one_byte two_bytes three_bytes
last_group w x y z =
    if eqb z b'='
    then (if eqb y b'=' then one_byte w x else two_bytes w x y)
    else three_bytes w x y z (some [])

decode_groups : Str → Option Str
unfolding last_group three_bytes
decode_groups [] = some []
decode_groups (w ∷ x ∷ y ∷ z ∷ []) = last_group w x y z
decode_groups (w ∷ x ∷ y ∷ z ∷ v ∷ s) = three_bytes w x y z (decode_groups (v ∷ s))
decode_groups _ = none

-- StdEncoding.DecodeString, `none` on an error.
unfoldable pub std_decode : Str → Option Str
unfolding without_breaks decode_groups
std_decode s = decode_groups (without_breaks s)

value-digit : (n : ℕ) → n < 64 → value (digit n) ≡ some n
unfolding value digit
value-digit n h = ground arith

digit_not_pad : (n : ℕ) → n < 64 → eqb (digit n) b'=' ≡ false
unfolding digit
digit_not_pad n h = ground arith

digit_not_break : (n : ℕ) → n < 64 → (eqb (digit n) 10 || eqb (digit n) 13) ≡ false
unfolding digit
digit_not_break n h = ground arith

-- A byte.
abbrev pub IsByte : ℕ → Type 0
IsByte n = n < 256

first_byte : (a b : ℕ) → IsByte a → b < 16 → a / 4 * 4 + (a % 4 * 16 + b) / 16 ≡ a
first_byte a b ha hb = omega arith

second_byte :
    (a b c : ℕ) → IsByte b → c < 4 → (a % 4 * 16 + b / 16) % 16 * 16 + (b % 16 * 4 + c) / 4 ≡ b
second_byte a b c hb hc = omega arith

third_byte : (b c : ℕ) → IsByte c → (b % 16 * 4 + c / 64) % 4 * 64 + c % 64 ≡ c
third_byte b c hc = omega arith

one_byte-values :
    (w x p q : ℕ)
    → value w ≡ some p
    → value x ≡ some q
    → one_byte w x ≡ some ((p * 4 + q / 16) ∷ [])
unfolding one_byte bind
one_byte-values w x p q hp hq = rw (hp, hq)

two_bytes-values :
    (w x y p q r : ℕ)
    → value w ≡ some p
    → value x ≡ some q
    → value y ≡ some r
    → two_bytes w x y ≡ some ((p * 4 + q / 16) ∷ (q % 16 * 16 + r / 4) ∷ [])
unfolding two_bytes bind
two_bytes-values w x y p q r hp hq hr = rw (hp, hq, hr)

three_bytes-values :
    (w x y z p q r t : ℕ) (bytes : Str)
    → value w ≡ some p
    → value x ≡ some q
    → value y ≡ some r
    → value z ≡ some t
    → three_bytes w x y z (some bytes)
      ≡ some ((p * 4 + q / 16) ∷ (q % 16 * 16 + r / 4) ∷ (r % 4 * 64 + t) ∷ bytes)
unfolding three_bytes bind
three_bytes-values w x y z p q r t bytes hp hq hr ht = rw (hp, hq, hr, ht)

three_bytes-digits :
    (a b c : ℕ) (bytes : Str)
    → IsByte a
    → IsByte b
    → IsByte c
    → three_bytes
        (digit (a / 4))
        (digit (a % 4 * 16 + b / 16))
        (digit (b % 16 * 4 + c / 64))
        (digit (c % 64))
        (some bytes)
      ≡ some (a ∷ b ∷ c ∷ bytes)
three_bytes-digits a b c bytes ha hb hc =
    three_bytes-values _ _ _ _ (a / 4) (a % 4 * 16 + b / 16) (b % 16 * 4 + c / 64) (c % 64) bytes
      (value-digit _ (omega arith)) (value-digit _ (omega arith)) (value-digit _ (omega arith))
      (value-digit _ (omega arith))
    ∙ rw
        (
          first_byte a (b / 16) ha (omega arith),
          second_byte a b (c / 64) hb (omega arith),
          third_byte b c hc,
        )
        refl

two_bytes-digits :
    (a b : ℕ)
    → IsByte a
    → IsByte b
    → two_bytes (digit (a / 4)) (digit (a % 4 * 16 + b / 16)) (digit (b % 16 * 4))
      ≡ some (a ∷ b ∷ [])
two_bytes-digits a b ha hb =
    let last : (a % 4 * 16 + b / 16) % 16 * 16 + b % 16 * 4 / 4 ≡ b = omega arith in
    two_bytes-values _ _ _ (a / 4) (a % 4 * 16 + b / 16) (b % 16 * 4) (value-digit _ (omega arith))
      (value-digit _ (omega arith)) (value-digit _ (omega arith))
    ∙ rw (first_byte a (b / 16) ha (omega arith), last) refl

decode_more :
    (w x y z v : ℕ) (s t : Str)
    → s ≡ v ∷ t
    → decode_groups (w ∷ x ∷ y ∷ z ∷ s) ≡ three_bytes w x y z (decode_groups s)
unfolding decode_groups
decode_more w x y z v s t e = rw e refl

encode_full : (a : ℕ) (bytes : Str) → (v : ℕ) × (t : Str) × (std_encode (a ∷ bytes) ≡ v ∷ t)
unfolding std_encode
encode_full a [] = (_, _, refl)
encode_full a (b ∷ []) = (_, _, refl)
encode_full a (b ∷ c ∷ bytes) = (_, _, refl)

decode_groups-std_encode :
    (bytes : Str) → All IsByte bytes → decode_groups (std_encode bytes) ≡ some bytes
unfolding std_encode decode_groups last_group
decode_groups-std_encode [] all = refl
decode_groups-std_encode (a ∷ []) (ha, _) =
    let whole : a / 4 * 4 + a % 4 * 16 / 16 ≡ a = omega arith in
    one_byte-values (digit (a / 4)) (digit (a % 4 * 16)) (a / 4) (a % 4 * 16)
      (value-digit _ (omega arith)) (value-digit _ (omega arith))
    ∙ ap (λ n. some (n ∷ [])) whole
decode_groups-std_encode (a ∷ b ∷ []) (ha, (hb, _)) =
    rw (digit_not_pad (b % 16 * 4) (omega arith)) (two_bytes-digits a b ha hb)
decode_groups-std_encode (a ∷ b ∷ c ∷ []) (ha, (hb, (hc, _))) =
    rw (digit_not_pad (c % 64) (omega arith)) (three_bytes-digits a b c [] ha hb hc)
decode_groups-std_encode (a ∷ b ∷ c ∷ d ∷ bytes) (ha, (hb, (hc, all))) =
    let (v, t, full) = encode_full d bytes in
    let d1 = digit (a / 4) in
    let d2 = digit (a % 4 * 16 + b / 16) in
    let d3 = digit (b % 16 * 4 + c / 64) in
    let d4 = digit (c % 64) in
    decode_more d1 d2 d3 d4 v (std_encode (d ∷ bytes)) t full
    ∙ ap (three_bytes d1 d2 d3 d4) (decode_groups-std_encode (d ∷ bytes) all)
    ∙ three_bytes-digits a b c (d ∷ bytes) ha hb hc

without_breaks-std_encode :
    (bytes : Str) → All IsByte bytes → without_breaks (std_encode bytes) ≡ std_encode bytes
unfolding std_encode without_breaks
without_breaks-std_encode [] all = refl
without_breaks-std_encode (a ∷ []) (ha, _) =
    rw (digit_not_break (a / 4) (omega arith), digit_not_break (a % 4 * 16) (omega arith)) refl
without_breaks-std_encode (a ∷ b ∷ []) (ha, (hb, _)) =
    rw
      (
        digit_not_break (a / 4) (omega arith),
        digit_not_break (a % 4 * 16 + b / 16) (omega arith),
        digit_not_break (b % 16 * 4) (omega arith),
      )
      refl
without_breaks-std_encode (a ∷ b ∷ c ∷ bytes) (ha, (hb, (hc, all))) =
    rw
      (
        digit_not_break (a / 4) (omega arith),
        digit_not_break (a % 4 * 16 + b / 16) (omega arith),
        digit_not_break (b % 16 * 4 + c / 64) (omega arith),
        digit_not_break (c % 64) (omega arith),
      )
      (ap
        (λ s.
          digit (a / 4)
          ∷ digit (a % 4 * 16 + b / 16)
          ∷ digit (b % 16 * 4 + c / 64)
          ∷ digit (c % 64)
          ∷ s)
        (without_breaks-std_encode bytes all))

-- Decoding gives back the bytes that were encoded.
pub std_decode-std_encode :
    (bytes : Str) → All IsByte bytes → std_decode (std_encode bytes) ≡ some bytes
unfolding std_decode
std_decode-std_encode bytes all =
    ap decode_groups (without_breaks-std_encode bytes all) ∙ decode_groups-std_encode bytes all
