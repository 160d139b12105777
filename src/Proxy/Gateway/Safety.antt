-- ===== src/Proxy/Gateway/Safety.antt =====
-- internal/proxy/handler.go: what a forwarded request carries, and what a trace says.
use secure_svc_gw.Prelude.{
  ◌≡◌, ◌≢◌, refl, ap, ◌∙◌, true, false, none, some, List, [], ◌∷◌, Str, codes, ◌==◌, lookup,
  to_lower, Str-discrete, arith, if◌then◌else◌,
}
use secure_svc_gw.Proxy.Headers.{Header, canonical, is_hop_by_hop, set, del, copy_headers}
use secure_svc_gw.Proxy.Headers.Laws.{lookup-copy_headers_hop, lookup-set, lookup-del}
use secure_svc_gw.Proxy.Gateway.{
  Outgoing, Event, requests_total, auth_failure, observed, logged, do_called,
}
use secure_svc_gw.Proxy.Gateway.Replies.{outgoing_header}

-- The requests do_called, and the decisions counted, the latest first.
unfoldable pub sends : List Event → List (Str × Outgoing)
sends [] = []
sends (do_called service out ∷ trace) = (service, out) ∷ sends trace
sends (requests_total route decision reason ∷ trace) = sends trace
sends (auth_failure reason ∷ trace) = sends trace
sends (observed service upstream status ∷ trace) = sends trace
sends (logged level message fields ∷ trace) = sends trace

unfoldable pub decisions : List Event → List (Str × Str × Str)
decisions [] = []
decisions (requests_total route decision reason ∷ trace) =
    (route, decision, reason) ∷ decisions trace
decisions (do_called service out ∷ trace) = decisions trace
decisions (auth_failure reason ∷ trace) = decisions trace
decisions (observed service upstream status ∷ trace) = decisions trace
decisions (logged level message fields ∷ trace) = decisions trace

-- What a backend may rely on: who calls, and that the caller's credentials do not reach it.
pub record IsSafe (rid sub : Str) (h : Header) : Type 0 where
  pub identity : lookup (codes "X-Forwarded-Sub") h ≡ some (sub ∷ [])
  pub request_id : lookup (codes "X-Request-Id") h ≡ some (rid ∷ [])
  pub no_credentials : lookup (codes "Authorization") h ≡ none
  pub no_hop_by_hop : (k : Str) → is_hop_by_hop (to_lower k) ≡ true → lookup k h ≡ none

pub lookup-outgoing_header :
    (rid sub : Str) (h : Header) (k : Str)
    → lookup k (outgoing_header rid sub h) ≡ (
        if k == codes "X-Request-Id"
        then some (rid ∷ [])
        else if k == codes "X-Forwarded-Sub"
        then some (sub ∷ [])
        else if k == codes "Authorization"
        then none
        else lookup k (copy_headers h []))
unfolding outgoing_header canonical
lookup-outgoing_header rid sub h k =
    let copied = copy_headers h [] in
    let bare = del (codes "Authorization") copied in
    lookup-set k (codes "X-Request-Id") rid (set (codes "X-Forwarded-Sub") sub bare)
    ∙ ap (λ rest. if k == codes "X-Request-Id" then some (rid ∷ []) else rest)
        (lookup-set k (codes "X-Forwarded-Sub") sub bare
          ∙ ap (λ rest. if k == codes "X-Forwarded-Sub" then some (sub ∷ []) else rest)
              (lookup-del k (codes "Authorization") copied))

-- A hop-by-hop name is none of the names that forward sets.
pub hop_ne :
    (k name : Str)
    → is_hop_by_hop (to_lower name) ≡ false
    → is_hop_by_hop (to_lower k) ≡ true
    → k ≢ name
hop_ne k name kept hop e = cc (ap (λ x. is_hop_by_hop (to_lower x)) e)

pub names-kept :
    (is_hop_by_hop (to_lower (codes "X-Request-Id")) ≡ false)
    × (is_hop_by_hop (to_lower (codes "X-Forwarded-Sub")) ≡ false)
unfolding is_hop_by_hop to_lower Str-discrete
names-kept = (refl, refl)

pub outgoing_header-set :
    (rid sub : Str) (h : Header)
    → (lookup (codes "X-Forwarded-Sub") (outgoing_header rid sub h) ≡ some (sub ∷ []))
      × (lookup (codes "X-Request-Id") (outgoing_header rid sub h) ≡ some (rid ∷ []))
      × (lookup (codes "Authorization") (outgoing_header rid sub h) ≡ none)
unfolding Str-discrete
outgoing_header-set rid sub h = (
  lookup-outgoing_header rid sub h (codes "X-Forwarded-Sub"),
  lookup-outgoing_header rid sub h (codes "X-Request-Id"),
  lookup-outgoing_header rid sub h (codes "Authorization"),
)

pub outgoing_header-no_hop_by_hop :
    (rid sub : Str) (h : Header) (k : Str)
    → is_hop_by_hop (to_lower k) ≡ true
    → lookup k (outgoing_header rid sub h) ≡ none
unfolding lookup
outgoing_header-no_hop_by_hop rid sub h k hop =
    lookup-outgoing_header rid sub h k
    ∙ ground (
      arith,
      lookup-copy_headers_hop k h [] hop,
      hop_ne k (codes "X-Request-Id") (names-kept.0) hop,
      hop_ne k (codes "X-Forwarded-Sub") (names-kept.1) hop,
    )

pub outgoing_header-IsSafe :
    (rid sub : Str) (h : Header) → IsSafe rid sub (outgoing_header rid sub h)
outgoing_header-IsSafe rid sub h = record {
  identity = (outgoing_header-set rid sub h).0;
  request_id = (outgoing_header-set rid sub h).1;
  no_credentials = (outgoing_header-set rid sub h).2;
  no_hop_by_hop = outgoing_header-no_hop_by_hop rid sub h;
}
