-- ===== src/Prelude/Splitting.antt =====
-- strings.Split: the parts hold no separator and join to the text, and no other parts do.
use Prim.Native.Nat.{ℕ}
use mathlib.Core.Path.{◌≡◌, refl, ◌∙◌}
use mathlib.Core.Logic.{◌≢◌}
use mathlib.Core.List.{List, [], ◌∷◌, ◌++◌, append-nil, append_assoc}
use native.Mathlib.Omega.{arith}
use secure_svc_gw.Prelude.Lists.{All}
use secure_svc_gw.Prelude.Strings.{Str, split_from, split}

abbrev pub Lacks : ℕ → Str → Type 0
Lacks sep [] = Unit
Lacks sep (c ∷ s) = (c ≢ sep) × Lacks sep s

abbrev join_rest : ℕ → List Str → Str
join_rest sep [] = []
join_rest sep (part ∷ parts) = sep ∷ part ++ join_rest sep parts

abbrev pub join : ℕ → List Str → Str
join sep [] = []
join sep (part ∷ parts) = part ++ join_rest sep parts

Lacks-append_one : (sep c : ℕ) (s : Str) → Lacks sep s → c ≢ sep → Lacks sep (s ++ c ∷ [])
Lacks-append_one sep c [] h p = (p, tt)
Lacks-append_one sep c (d ∷ s) (q, h) p = (q, Lacks-append_one sep c s h p)

join_rest-split_from :
    (sep : ℕ) (cur s : Str) → join_rest sep (split_from sep cur s) ≡ sep ∷ cur ++ s
unfolding split_from
join_rest-split_from sep cur [] = refl
join_rest-split_from sep cur (c ∷ s) = ground (
  arith,
  join_rest-split_from sep [] s,
  join_rest-split_from sep (cur ++ c ∷ []) s,
  append_assoc cur (c ∷ []) s,
)

join-split_from : (sep : ℕ) (cur s : Str) → join sep (split_from sep cur s) ≡ cur ++ s
unfolding split_from
join-split_from sep cur [] = refl
join-split_from sep cur (c ∷ s) = ground (
  arith,
  join_rest-split_from sep [] s,
  join-split_from sep (cur ++ c ∷ []) s,
  append_assoc cur (c ∷ []) s,
)

pub join-split : (sep : ℕ) (s : Str) → join sep (split sep s) ≡ s
unfolding split
join-split sep s = join-split_from sep [] s

split_from-Lacks : (sep : ℕ) (cur s : Str) → Lacks sep cur → All (Lacks sep) (split_from sep cur s)
unfolding split_from
split_from-Lacks sep cur [] h = (h, tt)
split_from-Lacks sep cur (c ∷ s) h = ground (
  arith,
  split_from-Lacks sep [] s tt,
  split_from-Lacks sep (cur ++ c ∷ []) s,
  Lacks-append_one sep c cur h,
)

pub split-Lacks : (sep : ℕ) (s : Str) → All (Lacks sep) (split sep s)
unfolding split
split-Lacks sep s = split_from-Lacks sep [] s tt

split_from-append :
    (sep : ℕ) (cur part rest : Str)
    → Lacks sep part
    → split_from sep cur (part ++ rest) ≡ split_from sep (cur ++ part) rest
unfolding split_from
split_from-append sep cur [] rest h = rw append-nil
split_from-append sep cur (c ∷ part) rest (p, h) =
    ground
      (arith, split_from-append sep (cur ++ c ∷ []) part rest h, append_assoc cur (c ∷ []) part)

split_from-join_rest :
    (sep : ℕ) (cur : Str) (parts : List Str)
    → All (Lacks sep) parts
    → split_from sep cur (join_rest sep parts) ≡ cur ∷ parts
unfolding split_from
split_from-join_rest sep cur [] h = refl
split_from-join_rest sep cur (part ∷ parts) (p, h) = ground (
  arith,
  split_from-append sep [] part (join_rest sep parts) p,
  split_from-join_rest sep part parts h,
)

pub split-join :
    (sep : ℕ) (part : Str) (parts : List Str)
    → All (Lacks sep) (part ∷ parts)
    → split sep (join sep (part ∷ parts)) ≡ part ∷ parts
unfolding split
split-join sep part parts (p, h) =
    split_from-append sep [] part (join_rest sep parts) p ∙ split_from-join_rest sep part parts h
