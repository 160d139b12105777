-- ===== src/Tests.antt =====
-- Concrete floats, cryptography, keys, pools and requests, for the runs and examples of the modules
-- below.
mod Tokens
mod Balancing
mod Forwards
mod Rollouts
mod Starts
mod Watches
mod Demo
mod Encoding
mod Probing
mod Shared
mod Booting
mod Delivery
use secure_svc_gw.Prelude.{
  ℕ, ◌+◌, ◌*◌, ◌/◌, Bool, true, false, ◌&&◌, Option, none, some, List, [], ◌∷◌, ℤ, pos, negsuc, leb,
  eqb, leb_ℤ, Str, codes, ◌==◌, Time, unix, if◌then◌else◌, Map,
}
use secure_svc_gw.Config
use secure_svc_gw.Config.{Config}
use secure_svc_gw.Auth.{JwtHeader, Claims, RegisteredKey}
use secure_svc_gw.Auth.Nonce.Memory.{NonceCache, five_minutes}
use secure_svc_gw.Auth.Verifier.{Library, Verifier}
use secure_svc_gw.Lb
use secure_svc_gw.Lb.{Pool}
use secure_svc_gw.Lb.Floats.{Float}
use secure_svc_gw.Proxy.{RouteEntry, Request, transport}
use secure_svc_gw.Proxy.Gateway.{World, unread, Env, Event, Outgoing, Reply, failed, responded}

abbrev whole : ℤ → ℕ
whole (pos n) = 10 * n
whole (negsuc n) = 0

-- Numbers of tenths.
instance pub tenths : Float ℕ
tenths = record {
  zero = 0;
  one = 10;
  of_int = whole;
  plus = λ x y. x + y;
  times = λ x y. x * y / 10;
  at_most = leb;
  equal = eqb;
  alpha = 3;
  rest = 7;
}

abbrev pub claims : Claims
claims = record {
  iss = codes "idp";
  sub = codes "alice";
  aud = codes "gateway";
  iat = pos 0;
  exp = pos 1000;
  jti = codes "j1";
  scope = codes "read" ∷ [];
}

-- A signature is "S" on "H.P", and texts encode themselves.
abbrev pub library : Library
library = record {
  std_decode = λ s. some s;
  raw_url_decode = λ s. some s;
  unmarshal_header = λ s.
      if s == codes "H"
      then some (record { alg = codes "EdDSA"; typ = codes "JWT"; kid = codes "k" })
      else none;
  unmarshal_claims = λ s. if s == codes "P" then some claims else none;
  ed25519_verify = λ key message signature. message == codes "H.P" && signature == codes "S";
}

abbrev pub key : RegisteredKey
key = record { public_key = codes "pk"; sub = codes "alice"; scopes = [] }

abbrev pub verifier : Verifier NonceCache
verifier = record {
  keys = (codes "k", key) ∷ [];
  issuer = codes "idp";
  audience = codes "gateway";
  nonces = record { items = []; ttl = five_minutes };
}

abbrev pub now : Time
now = record { sec = pos 62135597696; nsec = 0 }

abbrev pub near : Lb.Backend ℕ
near = record {
  id = codes "a";
  addr = codes "https://a";
  healthy = true;
  inflight = pos 0;
  ewma_ms = 20;
  has_stats = true;
}

abbrev pub far : Lb.Backend ℕ
far = record {
  id = codes "b";
  addr = codes "https://b";
  healthy = true;
  inflight = pos 3;
  ewma_ms = 50;
  has_stats = true;
}

abbrev pub pool : Pool ℕ
pool = record { service = codes "s"; backends = near ∷ far ∷ [] }

abbrev pub route : RouteEntry
route = record { prefix = codes "/api"; service = codes "s"; required_scope = codes "read" }

abbrev pub request : Request
request = record {
  method = codes "POST";
  path = codes "/api/x";
  raw_query = [];
  header =
      (codes "Authorization", codes "bearer H.P.S" ∷ []) ∷ (codes "Te", codes "gzip" ∷ []) ∷ [];
}

-- The first send fails in the transport, every other one is answered.
abbrev answer : List Event → Str → Outgoing → Reply
answer [] service out = record { elapsed_ms = pos 900; answer = failed (transport (codes "EOF")) }
answer (_ ∷ _) service out = record {
  elapsed_ms = pos 7;
  answer = responded (record { status_code = pos 200; header = []; body = codes "ok" });
}

abbrev pub env : Env
env = record {
  random = 1 ∷ 255 ∷ [];
  now = now;
  later = now;
  first = (0, 0);
  second = (1, 0);
  new_request_error = λ method url. none;
  has_client = λ service. true;
  exchange = answer;
}

abbrev pub world : World ℕ NonceCache
world = record {
  writer = record { header = []; status = none; body = [] };
  body = unread (codes "data");
  pools = (codes "s", pool) ∷ [];
  verifier = verifier;
  trace = [];
}
