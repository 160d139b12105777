-- ===== src/Startup/Started.antt =====
-- cmd/gateway/main.go: the gateway that a start has built, and the requests that it serves.
use secure_svc_gw.Prelude.{
  Bool-cases, inr, false, ◌⊎◌, ℕ, ◌≡◌, ◌≢◌, refl, sym, ◌∙◌, subst, inl, inr, Option, none, some,
  Str, codes, lookup, ok, on_ok, Option-cases, Result,
}
use secure_svc_gw.Config.{Config, load}
use secure_svc_gw.Auth.Nonce.Redis.{RedisServer, RedisNet}
use secure_svc_gw.Auth.Verifier.{Library, Verifier, new_verifier_with_store}
use secure_svc_gw.Lb.Floats.{Float}
use secure_svc_gw.Proxy.{new_routes}
use secure_svc_gw.Proxy.Tls.{Pki, HttpClient}
use secure_svc_gw.Startup.{registrations, pools_of}
use secure_svc_gw.Startup.Served.{is_configured}
use secure_svc_gw.Startup.Boot.{
  auth_failed, config_failed, exit_with, StoreState, env_or, Exit, Fleet, server_at, Gateway,
  add_services, no_fleet, open_store, build, start,
}
use secure_svc_gw.Startup.Ready.{
  exit_with-ok, IsFor, last_index, or_before, AreClients, AreProbers, add_services-has,
  add_services-AreAdded,
}

-- The path that main reads.
abbrev pub config_path : (Str → Str) → Str
config_path getenv = env_or getenv (codes "GATEWAY_CONFIG") (codes "/etc/gateway/config.yaml")

or_before-none : (o : Option ℕ) → or_before o none ≡ o
or_before-none none = refl
or_before-none (some k) = refl

module _ {F : Type 0} ⦃float : Float F⦄ (P : Pki) {R : RedisServer} (net : ℕ → RedisNet R)
    (L : Library) where
  -- The gateway is what main makes of the configuration.
  pub record IsReady (cfg : Config) (g : Gateway P F (StoreState R.State)) : Type 0 where
    pub store : StoreState R.State
    pub opened : open_store net cfg ≡ ok store
    pub verified :
        new_verifier_with_store L (registrations cfg.client_keys) cfg.issuer cfg.audience store
        ≡ ok g.verifier
    pub routes : g.routes ≡ new_routes cfg.routes
    pub pools : g.fleet.pools ≡ pools_of cfg.services
    pub clients :
        (name : Str)
        → (is_configured name cfg.services ≡ false)
          ⊎ ((c : HttpClient P) × (lookup name g.fleet.clients ≡ some c) × IsFor P cfg name c.tls)
    pub probers : AreProbers P cfg 0 cfg.services g.fleet.probers
    pub same_pools : (name : Str) → lookup name g.fleet.pool_ids ≡ last_index name 0 cfg.services

  client_of :
      (cfg : Config) (fleet : Fleet P F) (name : Str)
      → AreClients P cfg fleet
      → lookup name fleet.clients ≢ none
      → (c : HttpClient P) × (lookup name fleet.clients ≡ some c) × IsFor P cfg name c.tls
  client_of cfg fleet name all there = elim (Option-cases (lookup name fleet.clients)) [
    | inl missing ↦ absurd (there missing)
    | inr (c, found) ↦ (c, found, all name c found)
  ]

  finished :
      (cfg : Config) (store : StoreState R.State) (v : Verifier (StoreState R.State))
      (fleet : Fleet P F) (g : Gateway P F (StoreState R.State))
      → open_store net cfg ≡ ok store
      → new_verifier_with_store L (registrations cfg.client_keys) cfg.issuer cfg.audience store
        ≡ ok v
      → add_services P cfg cfg.services (no_fleet P) ≡ ok fleet
      → ◌≡◌ {A = Result Exit (Gateway P F (StoreState R.State))}
          (ok (record {
            routes = new_routes cfg.routes;
            fleet = fleet;
            verifier = v;
            server = server_at cfg.listen_addr;
            metrics_server = server_at cfg.metrics_addr;
          }))
          (ok g)
      → IsReady cfg g
  unfolding pools_of lookup
  finished cfg store v fleet g opened verified added h =
      let made =
        add_services-AreAdded P cfg cfg.services (no_fleet P) fleet added
          (λ name c found. absurd (cc)) in
      let g' : Gateway P F (StoreState R.State) = record {
        routes = new_routes cfg.routes;
        fleet = fleet;
        verifier = v;
        server = server_at cfg.listen_addr;
        metrics_server = server_at cfg.metrics_addr;
      } in
      let same : g' ≡ g = cc h in
      subst (IsReady cfg) same (record {
        store = store;
        opened = opened;
        verified = verified;
        routes = refl;
        pools = made.pools;
        clients = λ name. elim (Bool-cases (is_configured name cfg.services)) [
          | inl known ↦ inr (
              client_of cfg fleet name made.clients
                (add_services-has P cfg cfg.services (no_fleet P) fleet name added (inl known)))
          | inr unknown ↦ inl unknown
        ];
        same_pools = λ name. made.ids name ∙ or_before-none (last_index name 0 cfg.services);
        probers = subst (AreProbers P cfg 0 cfg.services) (sym made.probers) made.probing;
      })

  build-IsReady :
      (cfg : Config) (g : Gateway P F (StoreState R.State))
      → build P net L cfg ≡ ok g
      → IsReady cfg g
  unfolding build pools_of
  build-IsReady cfg g h = on_ok (open_store net cfg) _ h λ store opened h1.
      on_ok
        (exit_with auth_failed
          (new_verifier_with_store L (registrations cfg.client_keys) cfg.issuer cfg.audience store))
        _ h1
        λ v verified h2. on_ok (add_services P cfg cfg.services (no_fleet P)) _ h2 λ fleet added h3.
          finished cfg store v fleet g opened (exit_with-ok auth_failed _ v verified) added h3

  -- A start that succeeds has loaded the configuration from the file that the environment names, and
  -- its gateway has the routes and the verifier of that configuration, the pools of its services, for
  -- each service a client that trusts only the CA of the configuration, shows the certificate of the
  -- gateway and asks for the name of the service, and a checker per service, in order: it has the
  -- backends of its service, the TLS configuration of that service, and a pool of its own number; and
  -- the handler's pool for a name is the very pool of the last service with that name, so it is the
  -- one that the checker of that service turns.
  pub start-IsReady :
      (unmarshal : Str → Option Config) (getenv : Str → Str) (g : Gateway P F (StoreState R.State))
      → start P net L unmarshal getenv ≡ ok g
      → (cfg : Config) × (load unmarshal (P.read_file (config_path getenv)) ≡ ok cfg)
        × IsReady cfg g
  unfolding start
  start-IsReady unmarshal getenv g h =
      on_ok (exit_with config_failed (load unmarshal (P.read_file (config_path getenv)))) _ h
        λ cfg loaded built.
          (cfg, exit_with-ok config_failed _ cfg loaded, build-IsReady cfg g built)
