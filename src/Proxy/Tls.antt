-- ===== src/Proxy/Tls.antt =====
-- internal/proxy/tls.go and NewBackendClient of internal/proxy/handler.go: the mTLS configuration of
-- a backend and the client that uses it. Files and certificates are arguments.
use secure_svc_gw.Prelude.{
  ℕ, ◌≡◌, ◌*◌, Option, some, List, [], ◌∷◌, ℤ, pos, Str, second, Result, ok, ◌>>=◌, or_else,
  on_some,
}

-- os.ReadFile; the pool that AppendCertsFromPEM makes of a file, `none` when it returns false; and
-- tls.LoadX509KeyPair of the paths of a certificate and of its key.
pub record Pki : Type 1 where
  pub CertPool : Type 0
  pub Certificate : Type 0
  pub read_file : Str → Option Str
  pub append_certs : Str → Option CertPool
  pub load_key_pair : Str → Str → Option Certificate

-- The fields of tls.Config that the program sets.
pub record TlsConfig (P : Pki) : Type 0 where
  pub min_version : ℕ
  pub root_cas : P.CertPool
  pub certificates : List P.Certificate
  pub server_name : Str

-- tls.VersionTLS12
abbrev pub version_tls12 : ℕ
version_tls12 = 0x303

pub data TlsError : Type 0 where
  read_ca load_key_pair : TlsError
  no_valid_certs : Str → TlsError

-- The http.Client of a pool of backends; durations are nanoseconds.
pub record HttpClient (P : Pki) : Type 0 where
  pub timeout : ℤ
  pub tls : TlsConfig P
  pub max_idle_conns_per_host : ℕ
  pub idle_conn_timeout : ℤ
  pub response_header_timeout : ℤ
  pub expect_continue_timeout : ℤ

module _ (P : Pki) where
  unfoldable pub backend_tls : Str → Str → Str → Str → Result TlsError (TlsConfig P)
  backend_tls ca_path cert_path key_path server_name = do
    ca_bytes ← or_else (P.read_file ca_path) read_ca
    pool ← or_else (P.append_certs ca_bytes) (no_valid_certs ca_path)
    cert ← or_else (P.load_key_pair cert_path key_path) load_key_pair
    ok (record {
      min_version = version_tls12;
      root_cas = pool;
      certificates = cert ∷ [];
      server_name = server_name;
    })

unfoldable pub new_backend_client : {P : Pki} → TlsConfig P → HttpClient P
new_backend_client tls = record {
  timeout = pos (10 * second);
  tls = tls;
  max_idle_conns_per_host = 16;
  idle_conn_timeout = pos (60 * second);
  response_header_timeout = pos (8 * second);
  expect_continue_timeout = pos second;
}

-- The configuration for a server name: the CA file's pool is all it trusts, and it presents the
-- key pair of the two files.
pub record IsBackendTls (P : Pki) (ca_path cert_path key_path name : Str) (t : TlsConfig P)
    : Type 0 where
  pub ca_bytes : Str
  pub cert : P.Certificate
  pub read : P.read_file ca_path ≡ some ca_bytes
  pub trusts : P.append_certs ca_bytes ≡ some t.root_cas
  pub loads : P.load_key_pair cert_path key_path ≡ some cert
  pub presents : t.certificates ≡ cert ∷ []
  pub asks : t.server_name ≡ name
  pub version : t.min_version ≡ version_tls12

pub backend_tls_sound :
    (P : Pki) (ca_path cert_path key_path name : Str) (t : TlsConfig P)
    → backend_tls P ca_path cert_path key_path name ≡ ok t
    → IsBackendTls P ca_path cert_path key_path name t
unfolding backend_tls
backend_tls_sound P ca_path cert_path key_path name t h =
    on_some (P.read_file ca_path) read_ca _ h (λ bytes read h1.
      on_some (P.append_certs bytes) (no_valid_certs ca_path) _ h1 (λ pool trusts h2.
        on_some (P.load_key_pair cert_path key_path) load_key_pair _ h2 (λ cert loads h3. record {
          ca_bytes = bytes;
          cert = cert;
          read = read;
          trusts = cc;
          loads = loads;
          presents = cc;
          asks = cc;
          version = cc;
        })))
