-- ===== src/Startup/Succeeds.antt =====
-- cmd/gateway/main.go: when main comes to start its servers.
use secure_svc_gw.Prelude.{
  ℕ, zero, suc, ◌+◌, ◌<◌, ◌≤◌, ◌≡◌, ◌≢◌, refl, ◌⊎◌, inl, inr, true, Option, none, some, List, [],
  ◌∷◌, Str, Map, eqb, length, is_empty, ok, All, Bool-cases, Result-cases, arith,
}
use secure_svc_gw.Config.{Config, ClientKey, Service, load}
use secure_svc_gw.Auth.{RegisteredKey, KeyRegistration}
use secure_svc_gw.Proxy.{new_routes}
use secure_svc_gw.Auth.Nonce.Memory.{new_in_memory_nonce_store}
use secure_svc_gw.Auth.Nonce.Redis.{RedisServer, RedisNet}
use secure_svc_gw.Auth.Verifier.{
  Library, Verifier, public_key_size, register, register_all, new_verifier_with_store,
}
use secure_svc_gw.Lb.Floats.{Float}
use secure_svc_gw.Proxy.Tls.{Pki, TlsConfig, backend_tls}
use secure_svc_gw.Startup.{registrations, connect}
use secure_svc_gw.Startup.Served.{count_up, connect-attempts}
use secure_svc_gw.Startup.Boot.{
  StoreState, Fleet, Gateway, dial, open_store, add_service, add_services, no_fleet, build, start,
  server_at, in_memory, on_redis,
}
use secure_svc_gw.Startup.Started.{config_path}

-- The public key of an entry is the encoding of 32 bytes.
abbrev pub IsDecodable : Library → ClientKey → Type 0
IsDecodable L k =
    (raw : Str) × (L.std_decode k.pub_base64 ≡ some raw) × (length raw ≡ public_key_size)

-- What holds of all numbers of a range holds of one in it.
All-count_up :
    (Q : ℕ → Type 0) (left first k : ℕ)
    → first ≤ k
    → k < first + left
    → All Q (count_up left first)
    → Q k
All-count_up Q zero first k low high all = absurd (omega (arith, low, high))
All-count_up Q (suc left) first k low high (q, all) = elim (Bool-cases (eqb first k)) [
  | inl here ↦ let same : first ≡ k = ground (arith, here) in rw same at q
  | inr later ↦
      All-count_up Q left (first + 1) k (ground (arith, later, low)) (omega (arith, high)) all
]

connect-found :
    {A : Type 0} (try : ℕ → Option A) (k : ℕ) (a : A)
    → 1 ≤ k
    → k ≤ 10
    → try k ≡ some a
    → (store : A) × (connect try ≡ some store)
connect-found try k a low high reached = elim (connect-attempts try) [
  | inl (gave_up, all) ↦
      let missed : try k ≡ none =
        All-count_up (λ n. try n ≡ none) 10 1 k low (omega (arith, high)) all in
      absurd (cc (missed, reached))
  | inr (store, n, connected, _, _, _) ↦ (store, connected)
]

abbrev registration : ClientKey → KeyRegistration
registration k = record {
  kid = k.kid;
  pub_base64 = k.pub_base64;
  subject = k.subject;
  scopes = k.scopes;
}

register-succeeds :
    (L : Library) (k : ClientKey) (so_far : Map RegisteredKey)
    → IsDecodable L k
    → (more : Map RegisteredKey) × (register L
          (record {
            kid = k.kid;
            pub_base64 = k.pub_base64;
            subject = k.subject;
            scopes = k.scopes;
          })
          so_far
        ≡ ok more)
unfolding register
register-succeeds L k so_far (raw, decodes, size) =
    elim (Result-cases (register L (registration k) so_far)) [
      | inr done ↦ done
      | inl (e, failed) ↦ absurd (cc (rw (decodes, size, register) at failed))
    ]

register_all-succeeds :
    (L : Library) (keys : List ClientKey) (so_far : Map RegisteredKey)
    → All (IsDecodable L) keys
    → (all : Map RegisteredKey) × (register_all L (registrations keys) so_far ≡ ok all)
unfolding registrations register_all
register_all-succeeds L [] so_far decodable = (so_far, refl)
register_all-succeeds L (k ∷ keys) so_far (one, decodable) =
    let (more, first) = register-succeeds L k so_far one in
    let (all, rest) = register_all-succeeds L keys more decodable in (all, rw first rest)

new_verifier_with_store-succeeds :
    {S : Type 0} (L : Library) (keys : List ClientKey) (issuer audience : Str) (store : S)
    → keys ≢ []
    → All (IsDecodable L) keys
    → (v : Verifier S) × (new_verifier_with_store L (registrations keys) issuer audience store
        ≡ ok v)
unfolding registrations new_verifier_with_store
new_verifier_with_store-succeeds L [] issuer audience store some_keys decodable =
    absurd (some_keys refl)
new_verifier_with_store-succeeds L (k ∷ keys) issuer audience store some_keys decodable =
    let (all, done) = register_all-succeeds L (k ∷ keys) [] decodable in
    (record { keys = all; issuer = issuer; audience = audience; nonces = store }, rw done refl)

module _ {R : RedisServer} (net : ℕ → RedisNet R) where
  -- A Redis server is reached in one of the ten attempts, unless none is configured.
  abbrev pub Reaches : Config → Type 0
  Reaches cfg =
      (is_empty cfg.redis_url ≡ true)
      ⊎ ((k : ℕ) × (s : R.State) × (1 ≤ k) × (k ≤ 10) × (dial net cfg.redis_url k ≡ some s))

  open_store-succeeds :
      (cfg : Config) → Reaches cfg → (store : StoreState R.State) × (open_store net cfg ≡ ok store)
  unfolding open_store
  open_store-succeeds cfg (inl unset) =
      (in_memory (new_in_memory_nonce_store cfg.nonce_ttl), rw unset refl)
  open_store-succeeds cfg (inr (k, s, low, high, reached)) =
      let (store, connected) = connect-found (dial net cfg.redis_url) k s low high reached in
      elim (Bool-cases (is_empty cfg.redis_url)) [
        | inl unset ↦ (in_memory (new_in_memory_nonce_store cfg.nonce_ttl), rw unset refl)
        | inr url ↦ (on_redis store, rw (url, connected) refl)
      ]

module _ (P : Pki) where
  backend_tls-succeeds :
      (ca_path cert_path key_path name bytes : Str) (pool : P.CertPool) (cert : P.Certificate)
      → P.read_file ca_path ≡ some bytes
      → P.append_certs bytes ≡ some pool
      → P.load_key_pair cert_path key_path ≡ some cert
      → (tls : TlsConfig P) × (backend_tls P ca_path cert_path key_path name ≡ ok tls)
  unfolding backend_tls
  backend_tls-succeeds ca_path cert_path key_path name bytes pool cert read trusts loads =
      elim (Result-cases (backend_tls P ca_path cert_path key_path name)) [
        | inr done ↦ done
        | inl (e, failed) ↦ absurd (cc (rw (read, trusts, loads, backend_tls) at failed))
      ]

module _ {F : Type 0} ⦃float : Float F⦄ (P : Pki) where
  add_services-succeeds :
      (cfg : Config) (services : List Service) (fleet : Fleet P F) (bytes : Str) (pool : P.CertPool)
      (cert : P.Certificate)
      → P.read_file cfg.ca_cert_path ≡ some bytes
      → P.append_certs bytes ≡ some pool
      → P.load_key_pair cfg.gateway_cert_path cfg.gateway_key_path ≡ some cert
      → (all : Fleet P F) × (add_services P cfg services fleet ≡ ok all)
  unfolding add_services
  add_services-succeeds cfg [] fleet bytes pool cert read trusts loads = (fleet, refl)
  add_services-succeeds cfg (svc ∷ services) fleet bytes pool cert read trusts loads =
      let (tls, made) =
        backend_tls-succeeds P cfg.ca_cert_path cfg.gateway_cert_path cfg.gateway_key_path svc.name
          bytes pool cert read trusts loads in
      let (all, rest) =
        add_services-succeeds cfg services (add_service P svc tls fleet) bytes pool cert read trusts
          loads in
      (all, rw made rest)

module _ {F : Type 0} ⦃float : Float F⦄ (P : Pki) {R : RedisServer} (net : ℕ → RedisNet R)
    (L : Library) where
  -- main comes to start its servers if the configuration loads, a nonce store is within reach (none on
  -- Redis is configured, or one of the attempts 1 to 10 reaches it), there are client keys, all of
  -- which decode to 32 bytes, and the CA file and the key pair of the gateway are good.
  pub start-succeeds :
      (unmarshal : Str → Option Config) (getenv : Str → Str) (cfg : Config) (bytes : Str)
      (pool : P.CertPool) (cert : P.Certificate)
      → load unmarshal (P.read_file (config_path getenv)) ≡ ok cfg
      → Reaches net cfg
      → cfg.client_keys ≢ []
      → All (IsDecodable L) cfg.client_keys
      → P.read_file cfg.ca_cert_path ≡ some bytes
      → P.append_certs bytes ≡ some pool
      → P.load_key_pair cfg.gateway_cert_path cfg.gateway_key_path ≡ some cert
      → (g : Gateway P F (StoreState R.State)) × (start P net L unmarshal getenv ≡ ok g)
  unfolding start build
  start-succeeds unmarshal getenv cfg bytes pool cert loaded reaches some_keys decodable read trusts
        loads =
      let (store, opened) = open_store-succeeds net cfg reaches in
      let (v, verified) =
        new_verifier_with_store-succeeds L cfg.client_keys cfg.issuer cfg.audience store some_keys
          decodable in
      let (fleet, added) =
        add_services-succeeds P cfg cfg.services (no_fleet P) bytes pool cert read trusts loads in
      let g : Gateway P F (StoreState R.State) = record {
        routes = new_routes cfg.routes;
        fleet = fleet;
        verifier = v;
        server = server_at cfg.listen_addr;
        metrics_server = server_at cfg.metrics_addr;
      } in
      (g, rw (loaded, opened, verified, added) refl)
