-- ===== src/Config.antt =====
-- internal/config/config.go. Reading the file and parsing its YAML are outside: `load` starts from
-- what they give. A time.Duration is an integer of nanoseconds.
pub mod Laws
use secure_svc_gw.Prelude.{
  ◌≡◌, Bool, true, false, Option, none, some, List, [], ◌∷◌, ℤ, pos, eqb_ℤ, Str, codes, is_empty,
  second, ◌*◌, if◌then◌else◌, Result, ok, err, ◌>>=◌, ◌>>◌, guard, or_else, not,
}

pub record ClientKey : Type 0 where
  pub kid : Str
  pub pub_base64 : Str
  pub subject : Str
  pub scopes : List Str

pub record Backend : Type 0 where
  pub id : Str
  pub addr : Str

pub record Service : Type 0 where
  pub name : Str
  pub health_path : Str
  pub backends : List Backend

pub record Route : Type 0 where
  pub prefix : Str
  pub service : Str
  pub required_scope : Str

pub record Config : Type 0 where
  pub listen_addr : Str
  pub metrics_addr : Str
  pub issuer : Str
  pub audience : Str
  pub nonce_ttl : ℤ
  pub redis_url : Str
  pub listen_cert_path : Str
  pub listen_key_path : Str
  pub ca_cert_path : Str
  pub gateway_cert_path : Str
  pub gateway_key_path : Str
  pub client_keys : List ClientKey
  pub services : List Service
  pub routes : List Route

pub data LoadError : Type 0 where
  read_config parse_config no_routes no_services : LoadError

abbrev pub default_str : Str → Str → Str
default_str value s = if is_empty s then value else s

-- The defaults of Load, in its order.
unfoldable pub with_defaults : Config → Config
with_defaults c = record c {
  listen_addr = default_str (codes ":8080") c.listen_addr;
  metrics_addr = default_str (codes ":9090") c.metrics_addr;
  nonce_ttl = if eqb_ℤ c.nonce_ttl (pos 0) then pos (300 * second) else c.nonce_ttl;
  audience = default_str (codes "gateway") c.audience;
}

abbrev pub is_nil {ℓ} : {A : Type ℓ} → List A → Bool
is_nil [] = true
is_nil (_ ∷ _) = false

-- `raw` is what os.ReadFile gives, and `unmarshal` is yaml.Unmarshal into a Config.
unfoldable pub load : (Str → Option Config) → Option Str → Result LoadError Config
unfolding with_defaults
load unmarshal raw = do
  bytes ← or_else raw read_config
  parsed ← or_else (unmarshal bytes) parse_config
  let c = with_defaults parsed
  guard (not (is_nil c.routes)) no_routes
  guard (not (is_nil c.services)) no_services
  ok c
