-- ===== src/Startup/Deployed.antt =====
-- cmd/controller/main.go with internal/config and cmd/gateway/main.go: what becomes of the text that
-- renderConfig makes when main of the gateway loads it.
use mathlib.Core.Option
use secure_svc_gw.Prelude.{
  ◌≡◌, refl, ap, subst, ◌∙◌, Bool, true, false, not, ◌||◌, inl, inr, ◌++◌, Option, some, List, [],
  ◌∷◌, map, ℤ, pos, eqb_ℤ, Str, codes, ◌==◌, is_empty, second, ◌*◌, if◌then◌else◌, Result, ok,
  ◌>>=◌, ◌>>◌, guard, or_else, on_some, on_true, All, Option-cases,
}
use secure_svc_gw.Config.{
  Config, Route, ClientKey, LoadError, parse_config, no_routes, no_services, default_str,
  with_defaults, is_nil, load,
}
use secure_svc_gw.Controller.{
  GatewayConfig, Spec, ServiceSpec, RouteSpec, render_route, render_config,
}
use secure_svc_gw.Controller.Rendering.{described_all, last_positive, render_services-described}
use secure_svc_gw.Startup.Served.{is_configured}
use secure_svc_gw.Startup.Guarded.{RoutesAreServed}

-- The Config with the fields that gatewayConfig has under the same keys of YAML, and the duration.
unfoldable pub config_of : GatewayConfig → ℤ → Config
config_of g nonce_ttl = record {
  listen_addr = g.listen_addr;
  metrics_addr = g.metrics_addr;
  issuer = g.issuer;
  audience = g.audience;
  nonce_ttl = nonce_ttl;
  redis_url = g.redis_url;
  listen_cert_path = g.listen_cert;
  listen_key_path = g.listen_key;
  ca_cert_path = g.ca_cert;
  gateway_cert_path = g.gateway_cert;
  gateway_key_path = g.gateway_key;
  client_keys = g.client_keys;
  services = g.services;
  routes = g.routes;
}

abbrev pub described_route : RouteSpec → Route
described_route r = record {
  prefix = r.prefix;
  service = r.service;
  required_scope = r.required_scope;
}

-- What a gateway runs with, by the resource, its keys, the Redis URL, the name of its TLS Secret and the
-- nonce lifetime that its text stands for; a service that sets no port has that of the last one before
-- it that does.
abbrev pub deployed_config : Spec → List ClientKey → Str → Str → ℤ → Config
deployed_config s keys redis_url tls ttl = record {
  listen_addr = codes ":8080";
  metrics_addr = codes ":9090";
  issuer = s.auth.issuer;
  audience = default_str (codes "gateway") s.auth.audience;
  nonce_ttl = if eqb_ℤ ttl (pos 0) then pos (300 * second) else ttl;
  redis_url = redis_url;
  listen_cert_path = if is_empty tls then [] else codes "/etc/gateway/listener-tls/tls.crt";
  listen_key_path = if is_empty tls then [] else codes "/etc/gateway/listener-tls/tls.key";
  ca_cert_path = codes "/etc/gateway/certs/ca.crt";
  gateway_cert_path = codes "/etc/gateway/certs/gateway.crt";
  gateway_key_path = codes "/etc/gateway/certs/gateway.key";
  client_keys = keys;
  services = described_all s.backends.namespace [] s.services;
  routes =
      map
        (λ r. record { prefix = r.prefix; service = r.service; required_scope = r.required_scope })
        s.routes;
}

-- The resource makes a gateway that can run, or the reason why it does not.
unfoldable pub deployed :
    (Str → Option ℤ) → Spec → List ClientKey → Str → Str → Result LoadError Config
deployed parse_duration s keys redis_url tls = do
  ttl ← or_else (parse_duration s.auth.nonce_ttl) parse_config
  guard (not (is_nil s.routes)) no_routes
  guard (not (is_nil s.services)) no_services
  ok (deployed_config s keys redis_url tls ttl)

is_nil-map : {A B : Type 0} (f : A → B) (xs : List A) → is_nil (map f xs) ≡ is_nil xs
is_nil-map f [] = refl
is_nil-map f (x ∷ xs) = refl

is_nil-described_all :
    (ns : Str) (ports : List ℤ) (services : List ServiceSpec)
    → is_nil (described_all ns ports services) ≡ is_nil services
unfolding described_all
is_nil-described_all ns ports [] = refl
is_nil-described_all ns ports (svc ∷ services) = refl

-- A service of the resource has the name.
abbrev pub is_offered : Str → List ServiceSpec → Bool
is_offered name [] = false
is_offered name (svc ∷ services) = name == svc.name || is_offered name services

is_configured-described_all :
    (name ns : Str) (ports : List ℤ) (services : List ServiceSpec)
    → is_configured name (described_all ns ports services) ≡ is_offered name services
unfolding described_all
is_configured-described_all name ns ports [] = refl
is_configured-described_all name ns ports (svc ∷ services) =
    ap (λ b. name == svc.name || b)
      (is_configured-described_all name ns (ports ++ svc.port ∷ []) services)

-- Every route of the resource leads to one of its services.
abbrev pub RoutesAreOffered : Spec → Type 0
RoutesAreOffered s = All (λ r. is_offered r.service s.services ≡ true) s.routes

routes_served :
    (ns : Str) (services : List ServiceSpec) (routes : List RouteSpec)
    → All (λ r. is_offered r.service services ≡ true) routes
    → All
        (λ (r : Route). is_configured r.service (described_all ns [] services) ≡ true)
        (map
          (λ r. record {
            prefix = r.prefix;
            service = r.service;
            required_scope = r.required_scope;
          })
          routes)
unfolding render_route
routes_served ns services [] all = tt
routes_served ns services (r ∷ routes) (offered, all) = (
  is_configured-described_all r.service ns [] services ∙ offered,
  routes_served ns services routes all,
)

-- If every route of the resource leads to one of its services, so does every route of the gateway.
pub deployed-RoutesAreServed :
    (parse_duration : Str → Option ℤ) (s : Spec) (keys : List ClientKey) (redis_url tls : Str)
    (cfg : Config)
    → RoutesAreOffered s
    → deployed parse_duration s keys redis_url tls ≡ ok cfg
    → RoutesAreServed cfg
unfolding deployed
deployed-RoutesAreServed parse_duration s keys redis_url tls cfg offered h =
    on_some (parse_duration s.auth.nonce_ttl) parse_config _ h (λ ttl parsed h1.
      on_true (not (is_nil s.routes)) no_routes _ h1 (λ routes h2.
        on_true (not (is_nil s.services)) no_services _ h2 (λ services h3.
          let same : deployed_config s keys redis_url tls ttl ≡ cfg = cc h3 in
          subst RoutesAreServed same
            (routes_served s.backends.namespace s.services s.routes offered))))

-- Load gives, of the text that renderConfig made of a resource, the configuration with the issuer, the
-- audience or its default, the keys, the Redis URL, the routes with their scopes and the services of
-- the resource, the services at the port that was set last, and the paths of the mounted files, those
-- of the listener if there is a TLS Secret; or an error of parsing if its nonce lifetime is no
-- duration, and else an error if it has no routes or no services. The YAML library reads what it wrote, field by field, and a duration by its own parser.
pub load-render_config :
    (marshal : GatewayConfig → Option Str) (unmarshal : Str → Option Config)
    (parse_duration : Str → Option ℤ) (s : Spec) (keys : List ClientKey) (redis_url tls text : Str)
    → ((g : GatewayConfig) (t : Str)
        → marshal g ≡ some t
        → unmarshal t ≡ Option.map (config_of g) (parse_duration g.nonce_ttl))
    → marshal (render_config s keys redis_url tls) ≡ some text
    → load unmarshal (some text) ≡ deployed parse_duration s keys redis_url tls
unfolding load deployed config_of with_defaults render_config render_route last_positive
load-render_config marshal unmarshal parse_duration s keys redis_url tls text yaml rendering =
    let read = yaml (render_config s keys redis_url tls) text rendering in
    let routes = is_nil-map render_route s.routes in
    let same = render_services-described s.backends.namespace (pos 8443) [] s.services refl in
    let services = is_nil-described_all s.backends.namespace [] s.services in
    elim (Option-cases (parse_duration s.auth.nonce_ttl)) [
      | inl bad ↦ rw (read, bad) refl
      | inr (ttl, parsed) ↦ rw (read, parsed, same, routes, services) refl
    ]
