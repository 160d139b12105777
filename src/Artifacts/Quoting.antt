-- ===== src/Artifacts/Quoting.antt =====
-- cmd/gen-artifacts/main.go: joinQuoted, with the %q of package fmt on ASCII texts, and a reader of
-- what it writes.
use secure_svc_gw.Prelude.{
  ℕ, zero, suc, ◌+◌, ◌/◌, ◌%◌, ◌≤◌, ◌≡◌, ◌≢◌, refl, sym, ap, ◌∙◌, false, ◌&&◌, ◌||◌, Option, none,
  some, List, [], ◌∷◌, ◌++◌, Str, codes, leb, eqb, if◌then◌else◌, All, arith,
}
use mathlib.Core.List.{append_assoc, append-nil}
use mathlib.Core.Option

abbrev hex_of : ℕ → ℕ
hex_of n = if leb n 9 then n + b'0' else n + 87

-- The letters of the escapes from \a to \r.
abbrev letter_of : ℕ → ℕ
letter_of c =
    if eqb c 7
    then b'a'
    else if eqb c 8
    then b'b'
    else if eqb c 9
    then b't'
    else if eqb c 10
    then b'n'
    else if eqb c 11
    then b'v'
    else if eqb c 12
    then b'f'
    else b'r'

-- One byte of a text under %q; bytes from 0x80 on stay, as those of printable characters do.
quote_byte : ℕ → Str
quote_byte c =
    if eqb c b'"' || eqb c b'\\'
    then b'\\' ∷ c ∷ []
    else if leb 32 c && (leb c 126 || leb 128 c)
    then c ∷ []
    else if leb 7 c && leb c 13
    then b'\\' ∷ letter_of c ∷ []
    else b'\\' ∷ b'x' ∷ hex_of (c / 16) ∷ hex_of (c % 16) ∷ []

quote_bytes : Str → Str
unfolding quote_byte
quote_bytes [] = []
quote_bytes (c ∷ s) = quote_byte c ++ quote_bytes s

-- %q
unfoldable pub quote : Str → Str
unfolding quote_bytes
quote s = b'"' ∷ quote_bytes s ++ b'"' ∷ []

-- if i > 0 { out += ", " }
abbrev separator : ℕ → Str
separator zero = []
separator (suc i) = codes ", "

-- The loop of joinQuoted from the index `i` on.
unfoldable pub join_from : ℕ → List Str → Str
unfolding quote
join_from i [] = []
join_from i (s ∷ scopes) = separator i ++ quote s ++ join_from (suc i) scopes

unfoldable pub join_quoted : List Str → Str
unfolding join_from
join_quoted scopes = join_from 0 scopes

-- Where a reader of a list of quoted texts is: before the first one, in one, after one, and after the
-- comma.
data Place : Type 0 where
  start after comma gap : Place
  inside : Str → Place

-- Reads a list of texts without escapes.
read : Place → Str → Option (List Str)
read start [] = some []
read after [] = some []
read _ [] = none
read start (c ∷ s) = let rest = read (inside []) s in if eqb c b'"' then rest else none
read (inside cur) (c ∷ s) =
    let ended = read after s in
    let longer = read (inside (cur ++ c ∷ [])) s in
    if eqb c b'"' then Option.map (λ texts. cur ∷ texts) ended else longer
read after (c ∷ s) = let rest = read comma s in if eqb c b',' then rest else none
read comma (c ∷ s) = let rest = read gap s in if eqb c b' ' then rest else none
read gap (c ∷ s) = let rest = read (inside []) s in if eqb c b'"' then rest else none

pub read_quoted : Str → Option (List Str)
unfolding read
read_quoted s = read start s

-- A printable ASCII character that is neither a quote nor a backslash.
abbrev pub IsPlain : ℕ → Type 0
IsPlain c = (32 ≤ c) × (c ≤ 126) × (c ≢ b'"') × (c ≢ b'\\')

quote_byte_plain : (c : ℕ) → IsPlain c → quote_byte c ≡ c ∷ []
unfolding quote_byte
quote_byte_plain c plain = ground arith

quote_bytes_plain : (s : Str) → All IsPlain s → quote_bytes s ≡ s
unfolding quote_bytes
quote_bytes_plain [] all = refl
quote_bytes_plain (c ∷ s) (plain, all) =
    ap (λ q. q ++ quote_bytes s) (quote_byte_plain c plain)
    ∙ ap (λ rest. c ∷ rest) (quote_bytes_plain s all)

-- A plain text up to its closing quote.
read-inside :
    (cur s rest : Str)
    → All IsPlain s
    → read (inside cur) (s ++ b'"' ∷ rest)
      ≡ Option.map (λ texts. (cur ++ s) ∷ texts) (read after rest)
unfolding read
read-inside cur [] rest all =
    ap (λ c. Option.map (λ texts. c ∷ texts) (read after rest)) (sym (append-nil cur))
read-inside cur (c ∷ s) rest (plain, all) =
    let other : eqb c b'"' ≡ false = ground (arith, plain) in
    rw other (
      read-inside (cur ++ c ∷ []) s rest all
      ∙ ap (λ t. Option.map (λ texts. t ∷ texts) (read after rest)) (append_assoc cur (c ∷ []) s))

read-quote :
    (s rest : Str)
    → All IsPlain s
    → read (inside []) (quote_bytes s ++ b'"' ∷ rest)
      ≡ Option.map (λ texts. s ∷ texts) (read after rest)
read-quote s rest all =
    ap (λ q. read (inside []) (q ++ b'"' ∷ rest)) (quote_bytes_plain s all)
    ∙ read-inside [] s rest all

quote-append : (s rest : Str) → quote s ++ rest ≡ b'"' ∷ quote_bytes s ++ b'"' ∷ rest
unfolding quote
quote-append s rest = ap (λ t. b'"' ∷ t) (append_assoc (quote_bytes s) (b'"' ∷ []) rest)

read-join_from :
    (i : ℕ) (scopes : List Str)
    → All (λ s. All IsPlain s) scopes
    → read after (join_from (suc i) scopes) ≡ some scopes
unfolding read join_from
read-join_from i [] all = refl
read-join_from i (s ∷ scopes) (plain, all) =
    ap (λ t. read after (b',' ∷ b' ' ∷ t)) (quote-append s (join_from (suc (suc i)) scopes))
    ∙ read-quote s (join_from (suc (suc i)) scopes) plain
    ∙ ap (Option.map (λ texts. s ∷ texts)) (read-join_from (suc i) scopes all)

-- A list of plain texts is read back from what joinQuoted makes of it.
pub read_quoted-join_quoted :
    (scopes : List Str)
    → All (λ s. All IsPlain s) scopes
    → read_quoted (join_quoted scopes) ≡ some scopes
unfolding read_quoted join_quoted read join_from
read_quoted-join_quoted [] all = refl
read_quoted-join_quoted (s ∷ scopes) (plain, all) =
    ap (read start) (quote-append s (join_from 1 scopes))
    ∙ read-quote s (join_from 1 scopes) plain
    ∙ ap (Option.map (λ texts. s ∷ texts)) (read-join_from 0 scopes all)
