-- ===== src/Startup/Guarded.antt =====
-- cmd/gateway/main.go with internal/proxy and internal/auth: the requests that a started gateway
-- serves and forwards.
use secure_svc_gw.Prelude.{
  inl, inr, ℕ, ◌≡◌, refl, sym, ap, subst, ◌∙◌, true, Option, none, some, List, [], ◌∷◌, Str, lookup,
  ok, All, Map,
}
use secure_svc_gw.Config.{Config, Route, load}
use secure_svc_gw.Auth.{Claims, RegisteredKey, KeyRegistration, has_scope}
use secure_svc_gw.Auth.Nonce.Redis.{RedisServer, RedisNet}
use secure_svc_gw.Auth.Verifier.{Library}
use secure_svc_gw.Auth.Verifier.Acceptance.{IsGenuine, AreValid, verify-accepted_iff}
use secure_svc_gw.Auth.Verifier.Registration.{
  last_for, Comes, Answers, new_verifier_with_store-keys,
}
use secure_svc_gw.Lb.{Pool}
use secure_svc_gw.Lb.Floats.{Float}
use secure_svc_gw.Proxy.{RouteEntry, Request, new_routes, match_route, extract_bearer}
use secure_svc_gw.Proxy.Gateway.{World, Env, Outgoing, new_request_id}
use secure_svc_gw.Proxy.Gateway.Replies.{served}
use secure_svc_gw.Proxy.Gateway.Serve.{serve_http}
use secure_svc_gw.Proxy.Gateway.Safety.{sends}
use secure_svc_gw.Proxy.Gateway.Sending.{SendsAtMost, SendsAtMost-map}
use secure_svc_gw.Proxy.Gateway.Gate.{IsRequestFor, IsPermitted, serve_http-sends}
use secure_svc_gw.Proxy.Gateway.Views.{views}
use secure_svc_gw.Proxy.Traffic.{Steps}
use secure_svc_gw.Proxy.Tls.{Pki, HttpClient}
use secure_svc_gw.Startup.{registrations}
use secure_svc_gw.Startup.Served.{RespondsWell, is_configured, serve_http-served, match_route-All}
use secure_svc_gw.Startup.Boot.{StoreState, gateway_store, Gateway, start}
use secure_svc_gw.Startup.Ready.{IsFor}
use secure_svc_gw.Startup.Started.{config_path, IsReady, start-IsReady}

-- Every route of the configuration leads to one of its services.
abbrev pub RoutesAreServed : Config → Type 0
RoutesAreServed cfg = All (λ r. is_configured r.service cfg.services ≡ true) cfg.routes

new_routes-All :
    (cfg : Config) (routes : List Route)
    → All (λ r. is_configured r.service cfg.services ≡ true) routes
    → All (λ e. is_configured e.service cfg.services ≡ true) (new_routes routes)
unfolding new_routes
new_routes-All cfg [] all = tt
new_routes-All cfg (r ∷ routes) (known, all) = (known, new_routes-All cfg routes all)

-- The handler has the clients that are in the map.
abbrev pub HasClients : {P : Pki} → Map (HttpClient P) → Env → Type 0
HasClients {P} clients env =
    (s : Str) (c : HttpClient P) → lookup s clients ≡ some c → env.has_client s ≡ true

All-clients :
    (cfg : Config) (env : Env) (routes : List RouteEntry)
    → ((name : Str) → is_configured name cfg.services ≡ true → env.has_client name ≡ true)
    → All (λ e. is_configured e.service cfg.services ≡ true) routes
    → All (λ e. env.has_client e.service ≡ true) routes
All-clients cfg env [] has all = tt
All-clients cfg env (e ∷ routes) has (known, all) =
    (has e.service known, All-clients cfg env routes has all)

-- The registration that an entry of the keys comes from.
registered-by :
    (L : Library) (last : Option KeyRegistration) (found : Option RegisteredKey)
    (key : RegisteredKey)
    → Answers L last found
    → found ≡ some key
    → (reg : KeyRegistration) × (last ≡ some reg) × Comes L reg key
registered-by L none found key missing is = absurd (cc (missing, is))
registered-by L (some reg) found key (key', at, comes) is =
    let same : key' ≡ key = cc (at, is) in (reg, refl, subst (Comes L reg) same comes)

module _ {F : Type 0} ⦃float : Float F⦄ (P : Pki) {R : RedisServer} (net : ℕ → RedisNet R)
    (L : Library) where
  -- The holder of a client key of the configuration asked for this request, with a token for this
  -- gateway that is current and has the scope of the route; the client that sends it speaks to the
  -- service of the route only.
  pub record IsAuthentic (cfg : Config) (g : Gateway P F (StoreState R.State)) (env : Env)
      (r : Request) (pools : Map (Pool F)) (out : Str × Outgoing) : Type 0 where
    pub route : RouteEntry
    pub claims : Claims
    pub key : RegisteredKey
    pub kid : Str
    pub registration : KeyRegistration
    pub matched : match_route r.path (new_routes cfg.routes) ≡ some route
    pub registered : last_for kid (registrations cfg.client_keys) ≡ some registration
    pub comes : Comes L registration key
    pub genuine : IsGenuine L g.verifier.keys (extract_bearer r) key claims
    pub names : genuine.hdr.kid ≡ kid
    pub valid : AreValid env.now cfg.issuer cfg.audience claims
    pub scoped : has_scope claims route.required_scope ≡ true
    pub request :
        IsRequestFor
          (views route.service pools)
          r
          route
          (new_request_id env)
          registration.subject
          out
    pub client : HttpClient P
    pub sender : lookup out.0 g.fleet.clients ≡ some client
    pub speaks : IsFor P cfg route.service client.tls

  client_for :
      (cfg : Config) (g : Gateway P F (StoreState R.State)) (name : Str)
      → IsReady P net L cfg g
      → is_configured name cfg.services ≡ true
      → (c : HttpClient P) × (lookup name g.fleet.clients ≡ some c) × IsFor P cfg name c.tls
  client_for cfg g name ready known = elim (ready.clients name) [
    | inl unknown ↦ absurd (cc (known, unknown))
    | inr client ↦ client
  ]

  permitted-IsAuthentic :
      (cfg : Config) (g : Gateway P F (StoreState R.State)) (env : Env) (r : Request)
      (nonces : StoreState R.State) (pools : Map (Pool F)) (out : Str × Outgoing)
      → IsReady P net L cfg g
      → RoutesAreServed cfg
      → IsPermitted L
          (gateway_store R)
          env
          (λ s. views s pools)
          g.routes
          r
          (record (g.verifier) { nonces = nonces })
          out
      → IsAuthentic cfg g env r pools out
  permitted-IsAuthentic cfg g env r nonces pools out ready linked p =
      let v = record (g.verifier) { nonces = nonces } in
      let (key, same, genuine, valid, fresh) =
        (verify-accepted_iff L (gateway_store R) env.now env.later v (extract_bearer r) p.claims
            p.sub).0
          p.verified in
      let (answers, issuer, audience, _) =
        new_verifier_with_store-keys L (registrations cfg.client_keys) cfg.issuer cfg.audience
          ready.store g.verifier genuine.hdr.kid ready.verified in
      let (reg, last, comes) = registered-by L _ _ key answers genuine.registered in
      let matched : match_route r.path (new_routes cfg.routes) ≡ some p.route =
        subst (λ rs. match_route r.path rs ≡ some p.route) ready.routes p.matched in
      let known =
        match_route-All (λ e. is_configured e.service cfg.services ≡ true) r.path
          (new_routes cfg.routes) p.route (new_routes-All cfg cfg.routes linked) matched in
      let (client, found, speaks) = client_for cfg g p.route.service ready known in
      record {
        route = p.route;
        claims = p.claims;
        key = key;
        kid = genuine.hdr.kid;
        registration = reg;
        matched = matched;
        registered = last;
        comes = comes;
        genuine = genuine;
        names = refl;
        valid =
            subst (λ i. AreValid env.now i cfg.audience p.claims) issuer
              (subst (λ a. AreValid env.now g.verifier.issuer a p.claims) audience valid);
        scoped = p.scoped;
        request =
            subst
              (λ s. IsRequestFor (views p.route.service pools) r p.route (new_request_id env) s out)
              (sym same ∙ comes.subject) p.request;
        client = client;
        sender = ap (λ s. lookup s g.fleet.clients) p.request.service ∙ found;
        speaks = speaks;
      }

  served-by :
      (cfg : Config) (g : Gateway P F (StoreState R.State)) (env : Env) (r : Request)
      (w : World F (StoreState R.State)) (active : List (Str × ℕ))
      → IsReady P net L cfg g
      → RoutesAreServed cfg
      → HasClients g.fleet.clients env
      → RespondsWell env
      → Steps
          (StoreState R.State)
          (record { pools = g.fleet.pools; active = [] })
          (record { pools = w.pools; active = active })
      → (serve_http L (gateway_store R) env g.routes r w).0 ≡ served
  served-by cfg g env r w active ready linked clients well steps =
      serve_http-served L (gateway_store R) env cfg.services g.routes r w active
        (subst (λ rs. All (λ e. is_configured e.service cfg.services ≡ true) rs) (sym ready.routes)
          (new_routes-All cfg cfg.routes linked))
        (subst (λ rs. All (λ e. env.has_client e.service ≡ true) rs) (sym ready.routes)
          (All-clients cfg env (new_routes cfg.routes)
            (λ name known.
              let (c, found, _) = client_for cfg g name ready known in clients name c found)
            (new_routes-All cfg cfg.routes linked)))
        well
        (subst
          (λ ps.
            Steps (StoreState R.State) (record { pools = ps; active = [] })
              (record { pools = w.pools; active = active }))
          ready.pools steps)

  sends-by :
      (cfg : Config) (g : Gateway P F (StoreState R.State)) (env : Env) (r : Request)
      (nonces : StoreState R.State) (w : World F (StoreState R.State))
      → IsReady P net L cfg g
      → RoutesAreServed cfg
      → w.verifier ≡ record (g.verifier) { nonces = nonces }
      → SendsAtMost
          (IsAuthentic cfg g env r w.pools)
          2
          (sends w.trace)
          (sends (serve_http L (gateway_store R) env g.routes r w).1.trace)
  sends-by cfg g env r nonces w ready linked same =
      SendsAtMost-map _ _ 2 _ _
        (λ out p. permitted-IsAuthentic cfg g env r nonces w.pools out ready linked (
          subst (λ v. IsPermitted L (gateway_store R) env (λ s. views s w.pools) g.routes r v out)
            same p))
        (serve_http-sends L (gateway_store R) env g.routes r w)

  -- A gateway that main has started from a configuration in which each route leads to a service:
  -- whatever its nonces are, and after whatever steps of other requests and of the checkers on its
  -- pools, it serves every request without a panic, provided that its clients give no response with a
  -- status below 100 or above 999. It hands two requests at most to the clients for it, each only for
  -- the holder of a client key of the configuration, whose token is genuine, current, meant for the
  -- configured issuer and audience and has the scope of the route. The URL of each begins with the
  -- address of a backend of the service of the route that was healthy when the request came, it has
  -- the subject of that key, and its client trusts only the CA of the configuration and asks for the
  -- name of that service. (The handler's clients are those that main made.)
  pub start-guards :
      (unmarshal : Str → Option Config) (getenv : Str → Str) (g : Gateway P F (StoreState R.State))
      (cfg : Config) (env : Env) (r : Request) (nonces : StoreState R.State)
      (w : World F (StoreState R.State)) (active : List (Str × ℕ))
      → start P net L unmarshal getenv ≡ ok g
      → load unmarshal (P.read_file (config_path getenv)) ≡ ok cfg
      → RoutesAreServed cfg
      → HasClients g.fleet.clients env
      → RespondsWell env
      → w.verifier ≡ record (g.verifier) { nonces = nonces }
      → Steps
          (StoreState R.State)
          (record { pools = g.fleet.pools; active = [] })
          (record { pools = w.pools; active = active })
      → ((serve_http L (gateway_store R) env g.routes r w).0 ≡ served)
        × SendsAtMost
            (IsAuthentic cfg g env r w.pools)
            2
            (sends w.trace)
            (sends (serve_http L (gateway_store R) env g.routes r w).1.trace)
  start-guards unmarshal getenv g cfg env r nonces w active started loaded linked clients well same
        steps =
      let (cfg', loaded', ready) = start-IsReady P net L unmarshal getenv g started in
      let this : cfg' ≡ cfg = cc (loaded, loaded') in
      let ready' : IsReady P net L cfg g = subst (λ c. IsReady P net L c g) this ready in
      (
        served-by cfg g env r w active ready' linked clients well steps,
        sends-by cfg g env r nonces w ready' linked same,
      )
