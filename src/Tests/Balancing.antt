-- ===== src/Tests/Balancing.antt =====
-- Runs of the load balancer, of the health checker and of the loader of configurations.
use secure_svc_gw.Prelude.{
  ℕ, ◌≤◌, ◌≡◌, ◌≢◌, refl, ◌⊎◌, none, some, List, [], ◌∷◌, pos, arith, codes, length,
}
use secure_svc_gw.Config
use secure_svc_gw.Config.{Config}
use secure_svc_gw.Lb.{healthy, pick}
use secure_svc_gw.Lb.Floats.{IsTotal}
use secure_svc_gw.Lb.Pick.{InRange, IsUp}
use secure_svc_gw.Lb.Choice.{IsCheaper, pick-IsCheaper, pick-IsUp}
use secure_svc_gw.Tests.{tenths, pool}

some_injective {ℓ} : {A : Type ℓ} {a b : A} → some a ≡ some b → a ≡ b
some_injective h = cc

tenths-IsTotal : IsTotal tenths
unfolding tenths
tenths-IsTotal x y h = ground arith

two_healthy : length (healthy pool) ≡ 2
unfolding healthy
two_healthy = refl

two : 2 ≤ length (healthy pool)
two = omega (arith, two_healthy)

draws : InRange (length (healthy pool)) 0 0
draws = (omega (arith, two_healthy), omega (arith, two_healthy))

pick-IsUp_example :
    ((pick 0 0 pool ≡ none) × ((m : ℕ) → ¬ IsUp pool m))
    ⊎ ((k : ℕ) × (pick 0 0 pool ≡ some k) × IsUp pool k)
pick-IsUp_example = pick-IsUp 0 0 pool (λ h. draws)

pick-IsCheaper_example :
    (a b k : ℕ) × (a ≢ b)
    × IsUp pool a
    × IsUp pool b
    × (pick 0 0 pool ≡ some k)
    × IsCheaper pool a b k
pick-IsCheaper_example = pick-IsCheaper 0 0 pool two draws tenths-IsTotal

abbrev backends : List Config.Backend
backends =
    record { id = codes "a"; addr = codes "https://a" }
    ∷ record { id = codes "bb"; addr = codes "https://b" }
    ∷ []

abbrev parsed : Config
parsed = record {
  listen_addr = [];
  metrics_addr = [];
  issuer = [];
  audience = [];
  nonce_ttl = pos 0;
  redis_url = [];
  listen_cert_path = [];
  listen_key_path = [];
  ca_cert_path = [];
  gateway_cert_path = [];
  gateway_key_path = [];
  client_keys = [];
  services = record { name = codes "s"; health_path = codes "/healthz"; backends = backends } ∷ [];
  routes = record { prefix = codes "/api"; service = codes "s"; required_scope = [] } ∷ [];
}
