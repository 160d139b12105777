-- ===== src/Tests/Booting.antt =====
-- Runs of main of the gateway.
use secure_svc_gw.Prelude.{
  ℕ, ◌≡◌, subst, inl, refl, true, Option, some, [], ◌∷◌, Str, codes, pos, ok, insert, Str-discrete,
}
use secure_svc_gw.Config.{Config, load, with_defaults}
use secure_svc_gw.Auth.Nonce.Memory.{new_in_memory_nonce_store}
use secure_svc_gw.Auth.Nonce.Redis.{RedisServer, RedisNet}
use secure_svc_gw.Auth.Verifier.{new_verifier_with_store, register_all, register}
use secure_svc_gw.Proxy.{new_routes}
use secure_svc_gw.Proxy.Gateway.{World, HttpResponse, responded}
use secure_svc_gw.Proxy.Gateway.Replies.{served, is_writable}
use secure_svc_gw.Proxy.Gateway.Safety.{sends}
use secure_svc_gw.Proxy.Gateway.Sending.{SendsAtMost}
use secure_svc_gw.Proxy.Gateway.Serve.{serve_http}
use secure_svc_gw.Proxy.Tls.{Pki, TlsConfig, version_tls12, backend_tls}
use secure_svc_gw.Startup.{registrations}
use secure_svc_gw.Startup.Boot.{
  StoreState, in_memory, gateway_store, Gateway, server_at, add_service, no_fleet, start,
}
use secure_svc_gw.Startup.Started.{config_path, IsReady, start-IsReady}
use secure_svc_gw.Startup.Served.{RespondsWell}
use secure_svc_gw.Proxy.Traffic.{none_yet}
use secure_svc_gw.Startup.Succeeds.{start-succeeds}
use secure_svc_gw.Startup.Guarded.{IsAuthentic, start-guards}
use secure_svc_gw.Tests.{tenths, library, request, env, world}
use secure_svc_gw.Tests.Starts.{services}

-- Every file is there, and a certificate is the name of its file.
abbrev pub pki : Pki
pki = record {
  CertPool = Str;
  Certificate = Str;
  read_file = λ path. some path;
  append_certs = λ bytes. some bytes;
  load_key_pair = λ cert key. some cert;
}

abbrev pub redis : RedisServer
redis = record { State = Unit {0}; set_nx = λ now key ttl s. (some true, s); expire = λ now s. s }

abbrev pub net : ℕ → RedisNet redis
net attempt = record {
  Options = Str;
  parse_url = λ url. some url;
  state = λ opt. tt;
  ping = λ opt. true;
}

abbrev config : Config
config = record {
  listen_addr = codes ":1";
  metrics_addr = codes ":2";
  issuer = codes "idp";
  audience = codes "gateway";
  nonce_ttl = pos 1;
  redis_url = [];
  listen_cert_path = [];
  listen_key_path = [];
  ca_cert_path = codes "ca";
  gateway_cert_path = codes "crt";
  gateway_key_path = codes "key";
  client_keys =
      record {
        kid = codes "k";
        pub_base64 = codes "0123456789abcdef0123456789abcdef";
        subject = codes "alice";
        scopes = [];
      }
      ∷ [];
  services = services;
  routes =
      record { prefix = codes "/api"; service = codes "s"; required_scope = codes "read" } ∷ [];
}

abbrev unmarshal : Str → Option Config
unmarshal bytes = some config

abbrev pub getenv : Str → Str
getenv name = []

abbrev tls : TlsConfig pki
tls = record {
  min_version = version_tls12;
  root_cas = codes "ca";
  certificates = codes "crt" ∷ [];
  server_name = codes "s";
}

abbrev gateway : Gateway pki ℕ (StoreState (Unit {0}))
gateway = record {
  routes = new_routes config.routes;
  fleet =
      add_service pki
        (record {
          name = codes "s";
          health_path = [];
          backends = record { id = codes "a"; addr = codes "https://a" } ∷ [];
        })
        tls (no_fleet pki);
  verifier = record {
    keys =
        (
          codes "k",
          record {
            public_key = codes "0123456789abcdef0123456789abcdef";
            sub = codes "alice";
            scopes = [];
          },
        )
        ∷ [];
    issuer = codes "idp";
    audience = codes "gateway";
    nonces = in_memory (new_in_memory_nonce_store (pos 1));
  };
  server = server_at (codes ":1");
  metrics_server = server_at (codes ":2");
}

loaded : load unmarshal (pki.read_file (config_path getenv)) ≡ ok config
unfolding load with_defaults
loaded = refl

boots : start pki net library unmarshal getenv ≡ ok gateway
unfolding start load new_verifier_with_store registrations register_all register backend_tls insert
boots = refl

start-IsReady_example :
    (cfg : Config) × (load unmarshal (pki.read_file (config_path getenv)) ≡ ok cfg)
    × IsReady pki net library cfg gateway
start-IsReady_example = start-IsReady pki net library unmarshal getenv gateway boots

abbrev booted : World ℕ (StoreState (Unit {0}))
booted = record {
  writer = world.writer;
  body = world.body;
  pools = gateway.fleet.pools;
  verifier = gateway.verifier;
  trace = [];
}

-- What the client of the runs answers.
abbrev answered : HttpResponse
answered = record { status_code = pos 200; header = []; body = codes "ok" }

pub well : RespondsWell env
unfolding is_writable
well [] service out resp h = absurd (cc)
well (e ∷ before) service out resp h =
    let h' : responded answered ≡ responded resp = h in
    let same : answered ≡ resp = cc h' in subst (λ x. is_writable x.status_code ≡ true) same refl

start-guards_example :
    ((serve_http library (gateway_store redis) env gateway.routes request booted).0 ≡ served)
    × SendsAtMost
        (IsAuthentic pki net library config gateway env request booted.pools)
        2
        (sends booted.trace)
        (sends (serve_http library (gateway_store redis) env gateway.routes request booted).1.trace)
unfolding Str-discrete
start-guards_example =
    start-guards pki net library unmarshal getenv gateway config env request
      (in_memory (new_in_memory_nonce_store (pos 1))) booted [] boots loaded (refl, tt)
      (λ s c found. refl) well refl none_yet

start-succeeds_example :
    (g : Gateway pki ℕ (StoreState (Unit {0}))) × (start pki net library unmarshal getenv ≡ ok g)
start-succeeds_example =
    start-succeeds pki net library unmarshal getenv config (codes "ca") (codes "ca") (codes "crt")
      loaded (inl refl) (λ nothing. absurd (cc))
      ((codes "0123456789abcdef0123456789abcdef", refl, refl), tt) refl refl refl
