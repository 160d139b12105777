-- ===== src/Proxy/Headers.antt =====
-- http.Header, and internal/proxy/handler.go's copyHeaders.
pub mod Laws
use secure_svc_gw.Prelude.{
  ℕ, ◌≡◌, refl, ◌+◌, ◌-◌, Bool, true, false, ◌&&◌, ◌||◌, Option, none, some, List, [], ◌∷◌, ◌++◌,
  Str, codes, ◌==◌, to_lower, Map, lookup, insert, erase, lookup_or, leb, eqb, if◌then◌else◌,
}

abbrev pub Header : Type 0
Header = Map (List Str)

-- The bytes of a token of RFC 7230.
is_token_byte : ℕ → Bool
is_token_byte c =
    leb b'a' c && leb c b'z'
    || leb b'A' c && leb c b'Z'
    || leb b'0' c && leb c b'9'
    || eqb c b'!'
    || leb b'#' c && leb c b'\''
    || eqb c b'*'
    || eqb c b'+'
    || eqb c b'-'
    || eqb c b'.'
    || leb b'^' c && leb c b'`'
    || eqb c b'|'
    || eqb c b'~'

is_token : Str → Bool
unfolding is_token_byte
is_token [] = true
is_token (c ∷ s) = is_token_byte c && is_token s

-- Upper case at the start and after a dash, lower case elsewhere.
canonical_from : Bool → Str → Str
canonical_from upper [] = []
canonical_from upper (c ∷ s) =
    (if upper && (leb b'a' c && leb c b'z')
      then c - 32
      else if (if upper then false else leb b'A' c && leb c b'Z')
      then c + 32
      else c)
    ∷ canonical_from (eqb c b'-') s

-- textproto.CanonicalMIMEHeaderKey
unfoldable pub canonical : Str → Str
unfolding is_token canonical_from
canonical k = if is_token k then canonical_from true k else k

abbrev pub values : Str → Header → List Str
values k h = lookup_or k [] h

-- Header.Get: the first value, "" if there is none.
abbrev pub first_value : List Str → Str
first_value [] = []
first_value (v ∷ _) = v

unfoldable pub get : Str → Header → Str
get k h = first_value (values (canonical k) h)

unfoldable pub add : Str → Str → Header → Header
add k v h = let key = canonical k in insert key (values key h ++ v ∷ []) h

unfoldable pub set : Str → Str → Header → Header
set k v h = insert (canonical k) (v ∷ []) h

unfoldable pub del : Str → Header → Header
del k h = erase (canonical k) h

-- The cases of the switch of copyHeaders, on the lower case of the key.
unfoldable pub is_hop_by_hop : Str → Bool
is_hop_by_hop k =
    k == codes "connection"
    || k == codes "keep-alive"
    || k == codes "proxy-authenticate"
    || k == codes "proxy-authorization"
    || k == codes "te"
    || k == codes "trailer"
    || k == codes "transfer-encoding"
    || k == codes "upgrade"

unfoldable pub add_all : Str → List Str → Header → Header
unfolding add
add_all k [] dst = dst
add_all k (v ∷ vs) dst = add_all k vs (add k v dst)

-- copyHeaders. Go visits the keys of `src` in any order: here, in that of the list.
unfoldable pub copy_headers : Header → Header → Header
unfolding is_hop_by_hop add_all
copy_headers [] dst = dst
copy_headers ((k, vs) ∷ src) dst =
    copy_headers src (if is_hop_by_hop (to_lower k) then dst else add_all k vs dst)

canonical_test : canonical (codes "x-forwarded-sub") ≡ codes "X-Forwarded-Sub"
unfolding canonical
canonical_test = refl
