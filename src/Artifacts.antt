-- ===== src/Artifacts.antt =====
-- cmd/gen-artifacts/main.go: the services and callers of the demo, and the certificates that it makes.
-- The n-th key and the n-th serial number are arguments; a certificate is a value with what
-- x509.CreateCertificate puts into it.
pub mod Quoting
pub mod Files
pub mod Names
use secure_svc_gw.Prelude.{
  ℕ, ◌*◌, Bool, true, false, List, [], ◌∷◌, ◌++◌, ℤ, pos, negsuc, Str, codes, ◌==◌, second,
  if◌then◌else◌,
}

-- serviceSpec
pub record ServiceSpec : Type 0 where
  pub name : Str
  pub backends : List Str

abbrev pub services : List ServiceSpec
services =
    record {
      name = codes "llm";
      backends = codes "llm-1" ∷ codes "llm-2" ∷ codes "llm-3" ∷ codes "llm-4" ∷ [];
    }
    ∷ record { name = codes "embed"; backends = codes "embed-1" ∷ codes "embed-2" ∷ [] }
    ∷ []

pub record ClientSpec : Type 0 where
  pub kid : Str
  pub sub : Str
  pub scopes : List Str

abbrev pub clients : List ClientSpec
clients =
    record { kid = codes "k-chatbot"; sub = codes "chatbot"; scopes = codes "llm:invoke" ∷ [] }
    ∷ record {
      kid = codes "k-search-svc";
      sub = codes "search-svc";
      scopes = codes "embed:query" ∷ [];
    }
    ∷ record {
      kid = codes "k-analyst";
      sub = codes "analyst";
      scopes = codes "llm:invoke" ∷ codes "embed:query" ∷ [];
    }
    ∷ record { kid = codes "k-intern"; sub = codes "intern"; scopes = [] }
    ∷ []

pub data KeyUsage : Type 0 where
  cert_sign crl_sign digital_signature key_encipherment : KeyUsage

pub data ExtKeyUsage : Type 0 where
  client_auth server_auth : ExtKeyUsage

-- The fields of x509.Certificate that a template sets; the validity is in nanoseconds from now.
pub record Template : Type 0 where
  pub serial_number : ℕ
  pub common_name : Str
  pub not_before : ℤ
  pub not_after : ℤ
  pub key_usage : List KeyUsage
  pub ext_key_usage : List ExtKeyUsage
  pub dns_names : List Str
  pub basic_constraints_valid : Bool
  pub is_ca : Bool

-- The random source: the n-th ECDSA key, serial number and Ed25519 key pair (public, private).
pub record Random (Key : Type 0) : Type 0 where
  pub ec_key : ℕ → Key
  pub serial : ℕ → ℕ
  pub ed25519 : ℕ → Str × Str

-- A certificate: its template, the subject of its issuer, its key and the key that signed it.
pub record Certificate (Key : Type 0) : Type 0 where
  pub template : Template
  pub issuer : Str
  pub key : Key
  pub signed_by : Key

-- -1 * time.Minute, and 365 * 24 * time.Hour
abbrev pub minute_ago : ℤ
minute_ago = negsuc 59999999999

abbrev pub year : ℕ
year = 365 * 86400 * second

abbrev pub ca_template : ℕ → Str → Template
ca_template serial cn = record {
  serial_number = serial;
  common_name = cn;
  not_before = minute_ago;
  not_after = pos (10 * year);
  key_usage = cert_sign ∷ crl_sign ∷ [];
  ext_key_usage = [];
  dns_names = [];
  basic_constraints_valid = true;
  is_ca = true;
}

abbrev pub leaf_template : ℕ → Str → List Str → List ExtKeyUsage → Template
leaf_template serial cn sans uses = record {
  serial_number = serial;
  common_name = cn;
  not_before = minute_ago;
  not_after = pos year;
  key_usage = digital_signature ∷ key_encipherment ∷ [];
  ext_key_usage = uses;
  dns_names = sans;
  basic_constraints_valid = false;
  is_ca = false;
}

module _ {Key : Type 0} (random : Random Key) where
  -- mustCA, with the n-th key and serial number.
  unfoldable pub must_ca : ℕ → Str → Certificate Key × Key
  must_ca n cn =
      let key = random.ec_key n in
      (
        record {
          template = ca_template (random.serial n) cn;
          issuer = cn;
          key = key;
          signed_by = key;
        },
        key,
      )

  -- mustLeaf
  unfoldable pub must_leaf :
      ℕ → Certificate Key → Key → Str → List Str → List ExtKeyUsage → Certificate Key × Key
  must_leaf n ca_cert ca_key cn sans uses =
      let key = random.ec_key n in
      (
        record {
          template = leaf_template (random.serial n) cn sans uses;
          issuer = ca_cert.template.common_name;
          key = key;
          signed_by = ca_key;
        },
        key,
      )

-- The hosts of a service that get a name in its certificate: all but llm-4.
unfoldable pub legit_hosts : List Str → List Str
legit_hosts [] = []
legit_hosts (h ∷ hosts) =
    let rest = legit_hosts hosts in if h == codes "llm-4" then rest else h ∷ rest

-- The names of the certificate of a service.
unfoldable pub service_sans : ServiceSpec → List Str
unfolding legit_hosts
service_sans s = s.name ∷ codes "localhost" ∷ legit_hosts s.backends
