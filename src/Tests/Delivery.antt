-- ===== src/Tests/Delivery.antt =====
-- A run from the custom resource to a request that the gateway serves.
use secure_svc_gw.Prelude.{
  lookup, ◌≡◌, refl, false, Option, none, some, [], ◌∷◌, ℕ, ℤ, pos, Str, codes, ◌==◌, Str-discrete,
  if◌then◌else◌,
}
use secure_svc_gw.Config.{Config, ClientKey, load}
use secure_svc_gw.Auth.Nonce.Memory.{new_in_memory_nonce_store}
use secure_svc_gw.Proxy.{new_routes}
use secure_svc_gw.Proxy.Gateway.{World}
use secure_svc_gw.Proxy.Tls.{Pki, TlsConfig, version_tls12}
use secure_svc_gw.Controller.{Spec, render_config}
use secure_svc_gw.Controller.Cluster.{Client, Cluster}
use secure_svc_gw.Controller.Cluster.Operations.{
  fetch_cr, fetch_client_keys, fetch_secret_key, patch_config_map, patch_deployment_annotation,
}
use secure_svc_gw.Controller.Reconcile.{ensure_policy}
use secure_svc_gw.Controller.Reconcile.Rollout.{IsRolledOut}
use secure_svc_gw.Startup.Boot.{StoreState, in_memory, Gateway, server_at, add_service, no_fleet}
use secure_svc_gw.Startup.Deployed.{deployed, load-render_config}
use secure_svc_gw.Tests.{tenths, request, world}
use secure_svc_gw.Tests.Booting.{pki}
use secure_svc_gw.Tests.Encoding.{marshal, unmarshal, unmarshal-marshal}

abbrev resource : Spec
resource = record {
  auth = record {
    issuer = codes "idp";
    audience = [];
    nonce_ttl = codes "5m";
    client_keys_secret_ref = codes "keys";
  };
  tls = none;
  backends = record {
    namespace = codes "be";
    ca_secret_ref = [];
    client_cert_secret_ref = [];
    fail_threshold = pos 0;
    pass_threshold = pos 0;
    health_interval = [];
  };
  services =
      record {
        name = codes "s";
        health_path = codes "/up";
        port = pos 7;
        backends = codes "a" ∷ [];
      }
      ∷ [];
  routes =
      record { prefix = codes "/api"; service = codes "s"; required_scope = codes "read" } ∷ [];
  network_policy = none;
}

abbrev client_key : ClientKey
client_key = record {
  kid = codes "k";
  pub_base64 = codes "0123456789abcdef0123456789abcdef";
  subject = codes "alice";
  scopes = [];
}

-- A cluster that answers everything with 200.
abbrev cluster : Cluster (Unit {0})
cluster = record {
  new_request_fails = λ method url. false;
  respond = λ request s. (some (codes "{}", pos 200), s);
  unmarshal_cr = λ raw. some resource;
  unmarshal_secret = λ raw. some ((codes "alice", codes "{}") ∷ []);
  unmarshal_key = λ raw. some client_key;
}

abbrev client : Client
client = record { base = codes "https://k"; token = codes "t" }

abbrev duration : Str → Option ℤ
duration text = if text == codes "5m" then some (pos 300000000000) else none

abbrev text_or : Str → Option Str → Str
text_or other none = other
text_or other (some text) = text

abbrev rendered : Str
rendered = text_or [] (marshal (render_config resource (client_key ∷ []) [] []))

abbrev hash : Str → Str
hash text = codes "h"

abbrev rolled_out : IsRolledOut cluster client marshal hash (codes "gw") (codes "main") tt
unfolding fetch_cr fetch_client_keys fetch_secret_key patch_config_map patch_deployment_annotation
    ensure_policy lookup Str-discrete
rolled_out = record {
  spec = resource;
  fetched = refl;
  keys = client_key ∷ [];
  keys_fetched = refl;
  redis_url = [];
  url_fetched = refl;
  tls = [];
  tls_secret = refl;
  certified = λ issuer is. absurd (cc);
  rendered = rendered;
  rendering = refl;
  before_map = tt;
  follows = refl;
  written = refl;
  policy = refl;
  annotated = refl;
}

-- The rendered configuration is mounted, and every other file is its path.
abbrev mounted : Pki
mounted = record pki {
  read_file = λ path. if path == codes "/etc/gateway/config.yaml" then some rendered else some path;
}

abbrev tls : TlsConfig mounted
tls = record {
  min_version = version_tls12;
  root_cas = codes "/etc/gateway/certs/ca.crt";
  certificates = codes "/etc/gateway/certs/gateway.crt" ∷ [];
  server_name = codes "s";
}

abbrev gateway : Gateway mounted ℕ (StoreState (Unit {0}))
gateway = record {
  routes =
      new_routes
        (record { prefix = codes "/api"; service = codes "s"; required_scope = codes "read" } ∷ []);
  fleet =
      add_service mounted
        (record {
          name = codes "s";
          health_path = codes "/up";
          backends =
              record { id = codes "a"; addr = codes "https://a.be.svc.cluster.local:7" } ∷ [];
        })
        tls (no_fleet mounted);
  verifier = record {
    keys =
        (
          codes "k",
          record {
            public_key = codes "0123456789abcdef0123456789abcdef";
            sub = codes "alice";
            scopes = [];
          },
        )
        ∷ [];
    issuer = codes "idp";
    audience = codes "gateway";
    nonces = in_memory (new_in_memory_nonce_store (pos 300000000000));
  };
  server = server_at (codes ":8080");
  metrics_server = server_at (codes ":9090");
}

load-render_config_example :
    load (unmarshal duration) (some rendered) ≡ deployed duration resource (client_key ∷ []) [] []
load-render_config_example =
    load-render_config marshal (unmarshal duration) duration resource (client_key ∷ []) [] []
      rendered (unmarshal-marshal duration) refl

abbrev booted : World ℕ (StoreState (Unit {0}))
booted = record {
  writer = world.writer;
  body = world.body;
  pools = gateway.fleet.pools;
  verifier = gateway.verifier;
  trace = [];
}
