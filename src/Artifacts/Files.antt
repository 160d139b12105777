-- ===== src/Artifacts/Files.antt =====
-- cmd/gen-artifacts/main.go: main, as the files that it writes, in order. A file is named by its
-- directory below the root and its name; what encodings/json and encoding/pem write stays a value.
use secure_svc_gw.Prelude.{ℕ, suc, ◌+◌, Str, codes, List, [], ◌∷◌, ◌++◌, std_encode}
use secure_svc_gw.Artifacts.{
  ServiceSpec, ClientSpec, services, clients, Random, Certificate, client_auth, server_auth,
  must_ca, must_leaf, service_sans,
}
use secure_svc_gw.Artifacts.Quoting.{quote, join_quoted}

-- The JSON file of a caller.
pub record ClientFile : Type 0 where
  pub kid : Str
  pub sub : Str
  pub scopes : List Str
  pub priv : Str
  pub public : Str

pub data Content (Key : Type 0) : Type 0 where
  cert_pem : Certificate Key → Content Key
  ec_key_pem : Key → Content Key
  client_json : ClientFile → Content Key
  text : Str → Content Key

pub record File (Key : Type 0) : Type 0 where
  pub dir : Str
  pub name : Str
  pub mode : ℕ
  pub content : Content Key

-- 0o644 and 0o600
abbrev pub readable : ℕ
readable = 420

abbrev pub private_ : ℕ
private_ = 384

module _ {Key : Type 0} where
  -- writeCertPEM and writeECKeyPEM of one certificate with its key.
  abbrev pub pair_files : Str → Certificate Key → Key → List (File Key)
  pair_files name cert key =
      record {
        dir = codes "certs";
        name = name ++ codes ".crt";
        mode = readable;
        content = cert_pem cert;
      }
      ∷ record {
        dir = codes "certs";
        name = name ++ codes ".key";
        mode = private_;
        content = ec_key_pem key;
      }
      ∷ []

-- clientPub
pub record ClientPub : Type 0 where
  pub kid : Str
  pub sub : Str
  pub public : Str
  pub scopes : List Str

module _ {Key : Type 0} (random : Random Key) where
  -- The loop over the services; the next key is the n-th.
  unfoldable pub service_files : ℕ → Certificate Key → Key → List ServiceSpec → List (File Key)
  service_files n ca_cert ca_key [] = []
  service_files n ca_cert ca_key (s ∷ rest) =
      let (crt, key) =
        must_leaf random n ca_cert ca_key s.name (service_sans s)
          (server_auth ∷ client_auth ∷ []) in
      pair_files s.name crt key ++ service_files (suc n) ca_cert ca_key rest

  -- The public halves of the callers; the next Ed25519 key pair is the n-th.
  unfoldable pub client_pubs : ℕ → List ClientSpec → List ClientPub
  client_pubs n [] = []
  client_pubs n (c ∷ rest) =
      record {
        kid = c.kid;
        sub = c.sub;
        public = std_encode (random.ed25519 n).0;
        scopes = c.scopes;
      }
      ∷ client_pubs (suc n) rest

  -- The files of the callers.
  unfoldable pub client_files : ℕ → List ClientSpec → List (File Key)
  client_files n [] = []
  client_files n (c ∷ rest) =
      record {
        dir = codes "clients";
        name = c.sub ++ codes ".json";
        mode = private_;
        content = client_json (record {
          kid = c.kid;
          sub = c.sub;
          scopes = c.scopes;
          priv = std_encode (random.ed25519 n).1;
          public = std_encode (random.ed25519 n).0;
        });
      }
      ∷ client_files (suc n) rest

-- The entries of gateway.yaml.
key_entries : List ClientPub → Str
key_entries [] = []
key_entries (p ∷ pubs) =
    codes "  - kid: "
    ++ quote p.kid
    ++ codes "\n    pub: "
    ++ quote p.public
    ++ codes "\n    sub: "
    ++ quote p.sub
    ++ codes "\n    scopes: ["
    ++ join_quoted p.scopes
    ++ codes "]\n"
    ++ key_entries pubs

backend_entries : List Str → Str
backend_entries [] = []
backend_entries (h ∷ hosts) =
    codes "      - id: "
    ++ quote h
    ++ codes "\n        addr: \"https://"
    ++ h
    ++ codes ":8443\"\n"
    ++ backend_entries hosts

service_entries : List ServiceSpec → Str
service_entries [] = []
service_entries (s ∷ rest) =
    codes "  - name: "
    ++ quote s.name
    ++ codes "\n    health_path: /healthz\n    backends:\n"
    ++ backend_entries s.backends
    ++ service_entries rest

unfoldable pub gateway_yaml : List ClientPub → List ServiceSpec → Str
unfolding key_entries service_entries backend_entries
gateway_yaml pubs svcs =
    codes "listen_addr: \":8080\"\nmetrics_addr: \":9090\"\n"
    ++ codes "issuer: \"secure-svc-gw\"\naudience: \"secure-svc-gw\"\n"
    ++ codes "nonce_ttl: 5m\nredis_url: \"redis://redis:6379\"\n"
    ++ codes "listen_cert: /etc/gateway/listener-tls/tls.crt\n"
    ++ codes "listen_key: /etc/gateway/listener-tls/tls.key\n"
    ++ codes "ca_cert: /etc/gateway/certs/ca.crt\n"
    ++ codes "gateway_cert: /etc/gateway/certs/gateway.crt\n"
    ++ codes "gateway_key: /etc/gateway/certs/gateway.key\n"
    ++ codes "client_keys:\n"
    ++ key_entries pubs
    ++ codes "services:\n"
    ++ service_entries svcs
    ++ codes "routes:\n"
    ++ codes "  - prefix: /v1/llm\n    service: llm\n    required_scope: llm:invoke\n"
    ++ codes "  - prefix: /v1/embed\n    service: embed\n    required_scope: embed:query\n"

-- The two authorities: the first key, and the first one after those of the services.
abbrev pub rogue_draw : List ServiceSpec → ℕ
rogue_draw [] = 3
rogue_draw (s ∷ rest) = suc (rogue_draw rest)

module _ {Key : Type 0} (random : Random Key) where
  -- The trusted authority, and what main writes of it and of the gateway.
  abbrev pub root : Certificate Key × Key
  root = must_ca random 0 (codes "secure-svc-gw Root CA")

  unfoldable pub gateway_files : List (File Key)
  gateway_files =
      let (ca_cert, ca_key) = root in
      let (gw_cert, gw_key) =
        must_leaf random 1 ca_cert ca_key (codes "gateway") [] (client_auth ∷ []) in
      let (listener_cert, listener_key) =
        must_leaf random 2 ca_cert ca_key (codes "gateway")
          (codes "gateway" ∷ codes "localhost" ∷ codes "127.0.0.1" ∷ []) (server_auth ∷ []) in
      pair_files (codes "ca") ca_cert ca_key
      ++ pair_files (codes "gateway") gw_cert gw_key
      ++ pair_files (codes "gateway-listener") listener_cert listener_key

  -- The second authority, whose key is the n-th, and the certificate for llm-4.
  unfoldable pub rogue_files : ℕ → List (File Key)
  rogue_files n =
      let (rogue_ca, rogue_ca_key) = must_ca random n (codes "rogue-attacker CA") in
      let (rogue_cert, rogue_key) =
        must_leaf random (n + 1) rogue_ca rogue_ca_key (codes "llm")
          (codes "llm" ∷ codes "llm-4" ∷ codes "rogue-llm" ∷ codes "localhost" ∷ [])
          (server_auth ∷ client_auth ∷ []) in
      record {
        dir = codes "certs";
        name = codes "rogue-ca.crt";
        mode = readable;
        content = cert_pem rogue_ca;
      }
      ∷ pair_files (codes "rogue-llm") rogue_cert rogue_key

  unfoldable pub config_file : List ServiceSpec → List ClientSpec → File Key
  unfolding gateway_yaml client_pubs
  config_file svcs callers = record {
    dir = codes "config";
    name = codes "gateway.yaml";
    mode = readable;
    content = text (gateway_yaml (client_pubs random 0 callers) svcs);
  }

  -- What main writes below the root, given the two tables.
  unfoldable pub artifacts : List ServiceSpec → List ClientSpec → List (File Key)
  unfolding gateway_files rogue_files config_file client_files service_files
  artifacts svcs callers =
      gateway_files
      ++ service_files random 3 root.0 root.1 svcs
      ++ rogue_files (rogue_draw svcs)
      ++ client_files random 0 callers
      ++ config_file svcs callers ∷ []

  -- main
  abbrev pub generated : List (File Key)
  generated = artifacts services clients
