-- ===== src/Proxy.antt =====
-- internal/proxy/handler.go: requests, headers, routes, and the parts that need no state.
pub mod Headers
pub mod Routing
pub mod Tls
pub mod Gateway
pub mod Traffic
use secure_svc_gw.Prelude.{
  ℕ, ◌+◌, Bool, true, false, not, ◌&&◌, ◌||◌, Option, none, some, List, [], ◌∷◌, ◌++◌, Str, codes,
  is_empty, ◌==◌, has_prefix, trim_prefix, to_lower, trim_space, take, drop, str_len, leb,
  if◌then◌else◌,
}
use secure_svc_gw.Config
use secure_svc_gw.Config.{Config}
use Headers.{Header, get}

-- routeEntry
pub record RouteEntry : Type 0 where
  pub prefix : Str
  pub service : Str
  pub required_scope : Str

unfoldable pub new_routes : List Config.Route → List RouteEntry
new_routes [] = []
new_routes (r ∷ routes) =
    record { prefix = r.prefix; service = r.service; required_scope = r.required_scope }
    ∷ new_routes routes

-- The request of the caller, without its body.
pub record Request : Type 0 where
  pub method : Str
  pub path : Str
  pub raw_query : Str
  pub header : Header

-- match: the first route whose prefix starts the path.
unfoldable pub match_route : Str → List RouteEntry → Option RouteEntry
match_route path [] = none
match_route path (r ∷ routes) = if has_prefix path r.prefix then some r else match_route path routes

abbrev pub bearer : Str
bearer = codes "Bearer "

-- strings.EqualFold against "Bearer ": its letters fold to no character outside ASCII.
abbrev pub equal_fold : Str → Str → Bool
equal_fold s t = to_lower s == to_lower t

-- extractBearer, of the Authorization header.
unfoldable pub bearer_token : Str → Str
bearer_token h =
    if leb (str_len h) (str_len bearer) || not (equal_fold (take (str_len bearer) h) bearer)
    then []
    else trim_space (drop (str_len bearer) h)

unfoldable pub extract_bearer : Request → Str
unfolding bearer_token
extract_bearer r = bearer_token (get (codes "Authorization") r.header)

-- The target of forward: the address of the backend, the path without the prefix, the query.
unfoldable pub target : Str → Str → Request → Str
target addr prefix r =
    let base = addr ++ trim_prefix r.path prefix in
    if is_empty r.raw_query then base else base ++ (codes "?" ++ r.raw_query)

-- An error of http.Client.Do or of http.NewRequestWithContext.
pub data UpstreamError : Type 0 where
  canceled deadline_exceeded : UpstreamError
  transport : Str → UpstreamError

unfoldable pub is_retryable : Option UpstreamError → Bool
is_retryable none = false
is_retryable (some canceled) = false
is_retryable (some deadline_exceeded) = false
is_retryable (some (transport message)) = true
