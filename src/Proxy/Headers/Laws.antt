-- ===== src/Proxy/Headers/Laws.antt =====
-- What copyHeaders and the setters leave in a header.
use secure_svc_gw.Prelude.{
  ℕ, ◌+◌, ◌-◌, ◌≡◌, ◌≢◌, refl, ap, ◌∙◌, Bool, true, false, ◌&&◌, none, some, List, [], ◌∷◌, ◌++◌,
  arith, Str, ◌==◌, to_lower, lower_byte, lookup, lookup-insert, lookup-erase, leb, eqb,
  if◌then◌else◌, Bool-cases, inl, inr,
}
use secure_svc_gw.Proxy.Headers.{
  Header, is_token, canonical_from, canonical, values, add, set, del, is_hop_by_hop, add_all,
  copy_headers,
}

lower_byte-case :
    (upper : Bool) (c : ℕ)
    → lower_byte (
        if upper && (leb b'a' c && leb c b'z')
        then c - 32
        else if (if upper then false else leb b'A' c && leb c b'Z')
        then c + 32
        else c)
      ≡ lower_byte c
lower_byte-case true c = ground arith
lower_byte-case false c = ground arith

to_lower-canonical_from : (upper : Bool) (s : Str) → to_lower (canonical_from upper s) ≡ to_lower s
unfolding to_lower canonical_from
to_lower-canonical_from upper [] = refl
to_lower-canonical_from upper (c ∷ s) =
    cc (lower_byte-case upper c, to_lower-canonical_from (eqb c b'-') s)

-- The canonical form of a key differs from it in case only.
pub to_lower-canonical : (k : Str) → to_lower (canonical k) ≡ to_lower k
unfolding canonical
to_lower-canonical k = elim (Bool-cases (is_token k)) [
  | inl token ↦ rw token (to_lower-canonical_from true k)
  | inr other ↦ rw other
]

lookup-add_all :
    (j k : Str) (vs : List Str) (h : Header)
    → j ≢ canonical k
    → lookup j (add_all k vs h) ≡ lookup j h
unfolding add_all add
lookup-add_all j k [] h ne = refl
lookup-add_all j k (v ∷ vs) h ne =
    lookup-add_all j k vs (add k v h) ne
    ∙ ground (arith, lookup-insert j (canonical k) (values (canonical k) h ++ v ∷ []) h)

-- No hop-by-hop key is copied, however the caller spells it.
pub lookup-copy_headers_hop :
    (j : Str) (src dst : Header)
    → is_hop_by_hop (to_lower j) ≡ true
    → lookup j (copy_headers src dst) ≡ lookup j dst
unfolding copy_headers
lookup-copy_headers_hop j [] dst hop = refl
lookup-copy_headers_hop j ((k, vs) ∷ src) dst hop = elim (Bool-cases (is_hop_by_hop (to_lower k))) [
  | inl skipped ↦ rw skipped (lookup-copy_headers_hop j src dst hop)
  | inr kept ↦ rw kept (
      lookup-copy_headers_hop j src (add_all k vs dst) hop
      ∙ lookup-add_all j k vs dst (λ e.
        cc (ap (λ x. is_hop_by_hop (to_lower x)) e, ap is_hop_by_hop (to_lower-canonical k))))
]

pub lookup-set :
    (j k v : Str) (h : Header)
    → lookup j (set k v h) ≡ (if j == canonical k then some (v ∷ []) else lookup j h)
unfolding set
lookup-set j k v h = lookup-insert j (canonical k) (v ∷ []) h

pub lookup-del :
    (j k : Str) (h : Header) → lookup j (del k h) ≡ (if j == canonical k then none else lookup j h)
unfolding del
lookup-del j k h = lookup-erase j (canonical k) h
