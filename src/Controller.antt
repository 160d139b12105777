-- ===== src/Controller.antt =====
-- cmd/controller/main.go: the spec of the custom resource (api/v1alpha1/types.go) and renderConfig up
-- to yaml.Marshal. An int is an integer.
pub mod Rendering
pub mod Digits
pub mod Cluster
pub mod Reconcile
pub mod Watch
use secure_svc_gw.Prelude.{
  ℕ, zero, suc, ◌+◌, ◌≡◌, refl, ◌/◌, ◌%◌, Bool, true, false, not, Option, none, some, List, [], ◌∷◌,
  ◌++◌, map, ℤ, pos, negsuc, ltb_ℤ, leb, Str, codes, is_empty, if◌then◌else◌,
}
use secure_svc_gw.Config
use secure_svc_gw.Config.{ClientKey, default_str}

pub record AuthSpec : Type 0 where
  pub issuer : Str
  pub audience : Str
  pub nonce_ttl : Str
  pub client_keys_secret_ref : Str

pub record IssuerRef : Type 0 where
  pub name : Str
  pub kind : Str

pub record TlsSpec : Type 0 where
  pub secret_ref : Str
  pub issuer_ref : Option IssuerRef

pub record NetworkPolicySpec : Type 0 where
  pub enabled : Bool
  pub backends_port : ℤ

pub record BackendsSpec : Type 0 where
  pub namespace : Str
  pub ca_secret_ref : Str
  pub client_cert_secret_ref : Str
  pub fail_threshold : ℤ
  pub pass_threshold : ℤ
  pub health_interval : Str

pub record ServiceSpec : Type 0 where
  pub name : Str
  pub health_path : Str
  pub port : ℤ
  pub backends : List Str

pub record RouteSpec : Type 0 where
  pub prefix : Str
  pub service : Str
  pub required_scope : Str

-- SecureServiceGatewaySpec. A nil pointer is `none`.
pub record Spec : Type 0 where
  pub auth : AuthSpec
  pub tls : Option TlsSpec
  pub backends : BackendsSpec
  pub services : List ServiceSpec
  pub routes : List RouteSpec
  pub network_policy : Option NetworkPolicySpec

-- gatewayConfig. Its local types backend, service and route, and ClientKeyEntry, have the fields of
-- those of package config, under the same keys of YAML.
pub record GatewayConfig : Type 0 where
  pub listen_addr : Str
  pub metrics_addr : Str
  pub issuer : Str
  pub audience : Str
  pub nonce_ttl : Str
  pub redis_url : Str
  pub listen_cert : Str
  pub listen_key : Str
  pub ca_cert : Str
  pub gateway_cert : Str
  pub gateway_key : Str
  pub client_keys : List ClientKey
  pub services : List Config.Service
  pub routes : List Config.Route

-- The digits of a number before those of `rest`; the fuel is more than the number has digits.
digits_from : ℕ → ℕ → Str → Str
digits_from zero n rest = rest
digits_from (suc fuel) n rest =
    let digit = n % 10 + b'0' in
    let more = digits_from fuel (n / 10) (digit ∷ rest) in if leb n 9 then digit ∷ rest else more

-- %d of fmt
unfoldable pub decimal : ℤ → Str
unfolding digits_from
decimal (pos n) = digits_from (suc n) n []
decimal (negsuc n) = b'-' ∷ digits_from (suc (suc n)) (suc n) []

-- The address of a backend.
unfoldable pub address : Str → ℤ → Str → Str
unfolding decimal
address namespace port id =
    codes "https://" ++ id ++ codes "." ++ namespace ++ codes ".svc.cluster.local:" ++ decimal port

-- if svc.Port > 0 { port = svc.Port }
unfoldable pub next_port : ℤ → ServiceSpec → ℤ
next_port port svc = if ltb_ℤ (pos 0) svc.port then svc.port else port

unfoldable pub render_service : Str → ℤ → ServiceSpec → Config.Service
unfolding address
render_service namespace port svc = record {
  name = svc.name;
  health_path = default_str (codes "/healthz") svc.health_path;
  backends = map (λ id. record { id = id; addr = address namespace port id }) svc.backends;
}

-- The loop over the services. `port` is the variable of that name, which outlives a round.
unfoldable pub render_services : Str → ℤ → List ServiceSpec → List Config.Service
unfolding next_port render_service
render_services namespace port [] = []
render_services namespace port (svc ∷ services) =
    let port' = next_port port svc in
    render_service namespace port' svc ∷ render_services namespace port' services

unfoldable pub render_route : RouteSpec → Config.Route
render_route r = record {
  prefix = r.prefix;
  service = r.service;
  required_scope = r.required_scope;
}

-- renderConfig, of the spec, the client keys, the Redis URL and the name of the TLS Secret.
unfoldable pub render_config : Spec → List ClientKey → Str → Str → GatewayConfig
unfolding render_services render_route
render_config s client_keys redis_url tls_secret_name = record {
  listen_addr = codes ":8080";
  metrics_addr = codes ":9090";
  issuer = s.auth.issuer;
  audience = s.auth.audience;
  nonce_ttl = s.auth.nonce_ttl;
  redis_url = redis_url;
  listen_cert = if is_empty tls_secret_name then [] else codes "/etc/gateway/listener-tls/tls.crt";
  listen_key = if is_empty tls_secret_name then [] else codes "/etc/gateway/listener-tls/tls.key";
  ca_cert = codes "/etc/gateway/certs/ca.crt";
  gateway_cert = codes "/etc/gateway/certs/gateway.crt";
  gateway_key = codes "/etc/gateway/certs/gateway.key";
  client_keys = client_keys;
  services = render_services s.backends.namespace (pos 8443) s.services;
  routes = map render_route s.routes;
}

address_test :
    address (codes "backends") (pos 8443) (codes "a1")
    ≡ codes "https://a1.backends.svc.cluster.local:8443"
unfolding address
address_test = refl
