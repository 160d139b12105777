-- ===== src/Startup/Boot.antt =====
-- cmd/gateway/main.go: main from the configuration file to the handler and the servers.
use secure_svc_gw.Prelude.{
  ℕ, suc, ◌*◌, Bool, true, false, not, ◌&&◌, Option, none, some, List, [], ◌∷◌, ◌++◌, ℤ, pos, Str,
  codes, is_empty, second, Map, insert, Time, if◌then◌else◌, Result, ok, err, ◌>>=◌, or_else,
}
use secure_svc_gw.Config.{Config, Service, LoadError, load, default_str}
use secure_svc_gw.Auth.Nonce.{NonceStore}
use secure_svc_gw.Auth.Nonce.Memory
use secure_svc_gw.Auth.Nonce.Memory.{NonceCache, new_in_memory_nonce_store, sweep}
use secure_svc_gw.Auth.Nonce.Redis
use secure_svc_gw.Auth.Nonce.Redis.{RedisServer, RedisNet, new_redis_nonce_store}
use secure_svc_gw.Auth.Verifier.{Library, Verifier, VerifierError, new_verifier_with_store}
use secure_svc_gw.Lb.{Pool, new_pool}
use secure_svc_gw.Lb.Floats.{Float}
use secure_svc_gw.Health.Probes.{Prober, new_prober}
use secure_svc_gw.Proxy.{RouteEntry, new_routes}
use secure_svc_gw.Proxy.Tls.{Pki, HttpClient, TlsConfig, TlsError, backend_tls, new_backend_client}
use secure_svc_gw.Startup.{registrations, connect}

-- Where main exits with the status 1; a service goes with the error of its TLS configuration.
pub data Exit : Type 0 where
  config_failed : LoadError → Exit
  redis_failed : Exit
  auth_failed : VerifierError → Exit
  tls_failed : Str → TlsError → Exit

-- An error becomes an exit.
abbrev pub exit_with : {E A : Type 0} → (E → Exit) → Result E A → Result Exit A
exit_with why (ok a) = ok a
exit_with why (err e) = err (why e)

-- The value of type NonceStore: one of its two implementations.
pub data StoreState (S : Type 0) : Type 0 where
  in_memory : NonceCache → StoreState S
  on_redis : S → StoreState S

module _ (R : RedisServer) where
  -- The call through the interface.
  unfoldable pub check_and_store :
      Time → Str → Time → StoreState R.State → Bool × StoreState R.State
  check_and_store now jti exp (in_memory c) =
      let (fresh, c') = Memory.check_and_store now jti exp c in (fresh, in_memory c')
  check_and_store now jti exp (on_redis s) =
      let (fresh, s') = Redis.check_and_store R now jti exp s in (fresh, on_redis s')

  unfoldable pub pass : Time → StoreState R.State → StoreState R.State
  pass now (in_memory c) = in_memory (sweep now c)
  pass now (on_redis s) = on_redis (R.expire now s)

  abbrev pub gateway_store : NonceStore
  gateway_store = record {
    State = StoreState R.State;
    check_and_store = check_and_store;
    pass = pass;
  }

-- envOr, over os.Getenv.
unfoldable pub env_or : (Str → Str) → Str → Str → Str
env_or getenv k default = let v = getenv k in if is_empty v then default else v

-- What the loop over the services makes. A *lb.Pool is its number among those that main made:
-- `pool_ids` has the pointers in the map of the handler, and each checker comes with its own. What the
-- pointers point at is in `pools` and in the checkers, as main leaves it.
pub record Fleet (P : Pki) (F : Type 0) : Type 0 where
  pub made : ℕ
  pub pool_ids : Map ℕ
  pub pools : Map (Pool F)
  pub clients : Map (HttpClient P)
  pub probers : List (ℕ × Prober P F)

-- http.Server, as main fills it in.
pub record Server : Type 0 where
  pub addr : Str
  pub read_header_timeout : ℤ

-- The handler with its parts, and the two servers.
pub record Gateway (P : Pki) (F S : Type 0) : Type 0 where
  pub routes : List RouteEntry
  pub fleet : Fleet P F
  pub verifier : Verifier S
  pub server : Server
  pub metrics_server : Server

-- The path of the health check of a service.
abbrev pub health_path_of : Service → Str
health_path_of svc = default_str (codes "/healthz") svc.health_path

module _ {R : RedisServer} (net : ℕ → RedisNet R) where
  -- One attempt to reach Redis; the network is that of the attempt.
  unfoldable pub dial : Str → ℕ → Option R.State
  dial url attempt = elim (new_redis_nonce_store (net attempt) url) [ ok s ↦ some s | err _ ↦ none ]

  unfoldable pub open_store : Config → Result Exit (StoreState R.State)
  unfolding dial
  open_store cfg =
      if is_empty cfg.redis_url
      then ok (in_memory (new_in_memory_nonce_store cfg.nonce_ttl))
      else do s ← or_else (connect (dial cfg.redis_url)) redis_failed; ok (on_redis s)

unfoldable pub server_at : Str → Server
server_at addr = record { addr = addr; read_header_timeout = pos (5 * second) }

module _ {F : Type 0} ⦃float : Float F⦄ (P : Pki) where
  -- One round of the loop, with the TLS configuration made.
  unfoldable pub add_service : Service → TlsConfig P → Fleet P F → Fleet P F
  add_service svc tls fleet =
      let pool = new_pool svc.name svc.backends in
      let id = fleet.made in
      record {
        made = suc id;
        pool_ids = insert svc.name id fleet.pool_ids;
        pools = insert svc.name pool fleet.pools;
        clients = insert svc.name (new_backend_client tls) fleet.clients;
        probers =
            fleet.probers ++ (id, new_prober pool tls (health_path_of svc) (pos (2 * second))) ∷ [];
      }

  unfoldable pub add_services : Config → List Service → Fleet P F → Result Exit (Fleet P F)
  unfolding add_service
  add_services cfg [] fleet = ok fleet
  add_services cfg (svc ∷ services) fleet = do
    tls ←
        exit_with (tls_failed svc.name)
          (backend_tls P cfg.ca_cert_path cfg.gateway_cert_path cfg.gateway_key_path svc.name)
    add_services cfg services (add_service svc tls fleet)

  abbrev pub no_fleet : Fleet P F
  no_fleet = record { made = 0; pool_ids = []; pools = []; clients = []; probers = [] }

  module _ {R : RedisServer} (net : ℕ → RedisNet R) (L : Library) where
    -- main once the configuration is loaded.
    unfoldable pub build : Config → Result Exit (Gateway P F (StoreState R.State))
    unfolding open_store add_services server_at
    build cfg = do
      store ← open_store net cfg
      verifier ←
          exit_with auth_failed (
            new_verifier_with_store L (registrations cfg.client_keys) cfg.issuer cfg.audience store)
      fleet ← add_services cfg cfg.services no_fleet
      ok (record {
        routes = new_routes cfg.routes;
        fleet = fleet;
        verifier = verifier;
        server = server_at cfg.listen_addr;
        metrics_server = server_at cfg.metrics_addr;
      })

    -- main up to the start of the servers.
    unfoldable pub start :
        (Str → Option Config) → (Str → Str) → Result Exit (Gateway P F (StoreState R.State))
    unfolding build
    start unmarshal getenv = do
      cfg ← exit_with config_failed (
          load unmarshal (
            P.read_file
              (env_or getenv (codes "GATEWAY_CONFIG") (codes "/etc/gateway/config.yaml"))))
      build cfg

-- serve: over TLS, or not; what ListenAndServe returns ends the program unless it is the error of a
-- server that was shut down.
pub data Listening : Type 0 where
  listen_tls : Str → Str → Listening
  listen : Listening

pub data ServeError : Type 0 where
  server_closed : ServeError
  other_error : Str → ServeError

unfoldable pub listening : Str → Str → Listening
listening cert_file key_file =
    if not (is_empty cert_file) && not (is_empty key_file)
    then listen_tls cert_file key_file
    else listen

-- serve, where `listen_and_serve` is what the call of the server returned: whether the program exits.
unfoldable pub serve_exits : (Listening → Option ServeError) → Str → Str → Bool
unfolding listening
serve_exits listen_and_serve cert_file key_file =
    elim (listen_and_serve (listening cert_file key_file)) [
      | none ↦ false
      | some server_closed ↦ false
      | some (other_error message) ↦ true
    ]
