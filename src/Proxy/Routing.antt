-- ===== src/Proxy/Routing.antt =====
-- internal/proxy/handler.go: match, extractBearer and the target of forward, for every input.
use secure_svc_gw.Prelude.{
  ℕ, ◌+◌, ◌≡◌, refl, sym, ap, ◌∙◌, ◌⊎◌, inl, inr, true, false, not, ◌||◌, none, some, List, [], ◌∷◌,
  ◌++◌, Str, codes, is_empty, has_prefix, trim_prefix, to_lower, trim_space, take, drop, str_len,
  leb, All, Bool-cases, arith, if◌then◌else◌,
}
use secure_svc_gw.Proxy.{RouteEntry, Request, match_route, bearer, equal_fold, bearer_token, target}

-- The first route whose prefix starts the path, with the routes before it.
pub record IsFirstMatch (path : Str) (routes : List RouteEntry) (r : RouteEntry) : Type 0 where
  pub before : List RouteEntry
  pub after : List RouteEntry
  pub split : routes ≡ before ++ r ∷ after
  pub matches : has_prefix path r.prefix ≡ true
  pub earlier : All (λ e. has_prefix path e.prefix ≡ false) before

-- match gives the first route in the order of the file whose prefix starts the path, and none
-- exactly when no prefix does.
pub match_route-IsFirstMatch :
    (path : Str) (routes : List RouteEntry)
    → ((match_route path routes ≡ none) × All (λ e. has_prefix path e.prefix ≡ false) routes)
      ⊎ ((r : RouteEntry) × (match_route path routes ≡ some r) × IsFirstMatch path routes r)
unfolding match_route
match_route-IsFirstMatch path [] = inl (refl, tt)
match_route-IsFirstMatch path (e ∷ routes) = elim (Bool-cases (has_prefix path e.prefix)) [
  | inl starts ↦ rw starts (
      inr (
        e,
        refl,
        record { before = []; after = routes; split = refl; matches = starts; earlier = tt },
      ))
  | inr differs ↦ rw differs (elim (match_route-IsFirstMatch path routes) [
    | inl (nothing, others) ↦ inl (nothing, (refl, others))
    | inr (r, found, first) ↦ inr (
      r,
      found,
      record {
        before = e ∷ first.before;
        after = first.after;
        split = ap (λ rest. e ∷ rest) first.split;
        matches = first.matches;
        earlier = (differs, first.earlier);
      },
    )
  ])
]

has_prefix-append : (prefix rest : Str) → has_prefix (prefix ++ rest) prefix ≡ true
unfolding has_prefix
has_prefix-append [] rest = refl
has_prefix-append (c ∷ prefix) rest = ground (arith, has_prefix-append prefix rest)

drop-append : (s rest : Str) → drop (str_len s) (s ++ rest) ≡ rest
drop-append [] rest = refl
drop-append (c ∷ s) rest = drop-append s rest

take-append : (s rest : Str) → take (str_len s) (s ++ rest) ≡ s
take-append [] rest = refl
take-append (c ∷ s) rest = ap (λ t. c ∷ t) (take-append s rest)

str_len-append : (s rest : Str) → str_len (s ++ rest) ≡ str_len s + str_len rest
str_len-append [] rest = omega arith
str_len-append (c ∷ s) rest = omega (arith, str_len-append s rest)

trim_prefix-append : (prefix rest : Str) → trim_prefix (prefix ++ rest) prefix ≡ rest
unfolding trim_prefix
trim_prefix-append prefix rest = rw (has_prefix-append prefix rest) (drop-append prefix rest)

-- A path that starts with the prefix of a route matches it, whatever comes after the prefix, and the
-- target is the address of the backend followed at once by that rest and the query.
pub target-matched :
    (addr prefix rest : Str) (r : Request)
    → r.path ≡ prefix ++ rest
    → (has_prefix r.path prefix ≡ true)
      × (target addr prefix r ≡ (
          if is_empty r.raw_query
          then addr ++ rest
          else (addr ++ rest) ++ (codes "?" ++ r.raw_query)))
unfolding target
target-matched addr prefix rest r path = (
  ap (λ p. has_prefix p prefix) path ∙ has_prefix-append prefix rest,
  ap
      (λ tail.
        let base = addr ++ tail in
        if is_empty r.raw_query then base else base ++ (codes "?" ++ r.raw_query))
      (ap (λ p. trim_prefix p prefix) path ∙ trim_prefix-append prefix rest),
)

same_fold : (s t : Str) → to_lower s ≡ to_lower t → equal_fold s t ≡ true
same_fold s t h = ground arith

long_header :
    (scheme : Str) (c : ℕ) (rest : Str)
    → str_len scheme ≡ 7
    → leb (str_len (scheme ++ c ∷ rest)) (str_len bearer) ≡ false
long_header scheme c rest size = ground (arith, str_len-append scheme (c ∷ rest))

-- Whatever the case of its letters, a scheme "Bearer " with some text after it gives that text without
-- the spaces around it.
pub bearer_token-any_case :
    (scheme : Str) (c : ℕ) (rest : Str)
    → str_len scheme ≡ 7
    → to_lower scheme ≡ to_lower bearer
    → bearer_token (scheme ++ c ∷ rest) ≡ trim_space (c ∷ rest)
unfolding bearer_token
bearer_token-any_case scheme c rest size same =
    let text : Str = scheme ++ c ∷ rest in
    let taken : take 7 text ≡ scheme =
      ap (λ n. take n text) (sym size) ∙ take-append scheme (c ∷ rest) in
    let dropped : drop 7 text ≡ c ∷ rest =
      ap (λ n. drop n text) (sym size) ∙ drop-append scheme (c ∷ rest) in
    ap
      (λ short.
        if short || not (equal_fold (take 7 text) bearer) then [] else trim_space (drop 7 text))
      (long_header scheme c rest size)
    ∙ ap (λ t. if not (equal_fold t bearer) then [] else trim_space (drop 7 text)) taken
    ∙ ap (λ folded. if not folded then [] else trim_space (drop 7 text))
        (same_fold scheme bearer same)
    ∙ ap trim_space dropped
