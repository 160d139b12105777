-- ===== src/Tests/Starts.antt =====
-- Runs of the start of the gateway.
use secure_svc_gw.Prelude.{ℕ, List, [], ◌∷◌, codes}
use secure_svc_gw.Config.{Service}
use secure_svc_gw.Auth.Nonce.Memory.{NonceCache}
use secure_svc_gw.Proxy.Gateway.{World}
use secure_svc_gw.Startup.{pools_of}
use secure_svc_gw.Tests.{tenths, world}

abbrev pub services : List Service
services =
    record {
      name = codes "s";
      health_path = [];
      backends = record { id = codes "a"; addr = codes "https://a" } ∷ [];
    }
    ∷ []

abbrev pub started : World ℕ NonceCache
started = record world { pools = pools_of services }
