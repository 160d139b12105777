-- ===== src/Tests/Shared.antt =====
-- Runs of requests that share the pools, and of the start of the gateway.
use secure_svc_gw.Proxy.Gateway.{Event, observed, requests_total}
use secure_svc_gw.Metrics.{
  value, times, request_labels, failure_labels, upstream_labels, latency_labels, meter, value-meter,
}
use secure_svc_gw.Prelude.{pos, List, Str, ◌≡◌, ℕ, [], ◌∷◌, codes, arith}
use secure_svc_gw.Auth.Nonce.Memory.Guard.{memory_store}
use secure_svc_gw.Auth.Nonce.Memory.{NonceCache}
use secure_svc_gw.Lb.{acquire}
use secure_svc_gw.Proxy.Gateway.{on_backend}
use secure_svc_gw.Proxy.Gateway.Serve.{serve_http}
use secure_svc_gw.Proxy.Traffic.{Traffic, Steps, none_yet, then_, acquired}
use secure_svc_gw.Proxy.Traffic.Counters.{IsCounted}
use secure_svc_gw.Proxy.Traffic.Requests.{Moves, serve_http-Moves}
use secure_svc_gw.Startup.{pools_of}
use secure_svc_gw.Startup.Counted.{pools_of-IsCounted}
use secure_svc_gw.Tests.{tenths, library, route, request, env, world}
use secure_svc_gw.Tests.Starts.{services, started}

serve_http-Moves_example :
    Moves NonceCache
      ((codes "s", 1) ∷ [])
      world.pools
      (serve_http library memory_store env (route ∷ []) request world).1.pools
serve_http-Moves_example =
    serve_http-Moves library memory_store env ((codes "s", 1) ∷ []) request (route ∷ []) world
      (omega arith)

abbrev one_held : Traffic ℕ
one_held = record {
  pools = (on_backend (codes "s") 0 acquire started).pools;
  active = (codes "s", 0) ∷ [];
}

one_acquired : Steps NonceCache (record { pools = pools_of services; active = [] }) one_held
one_acquired = then_ none_yet (acquired started [] (codes "s") 0 (omega arith))

pools_of-IsCounted_example : IsCounted one_held
pools_of-IsCounted_example = pools_of-IsCounted NonceCache services one_held one_acquired

abbrev labels : List Str
labels = codes "/api" ∷ codes "allow" ∷ codes "ok" ∷ []

abbrev events : List Event
events =
    observed (codes "s") (codes "a") (pos 200)
    ∷ requests_total (codes "/api") (codes "allow") (codes "ok")
    ∷ []

value-meter_example :
    (value labels (meter events).requests ≡ times request_labels labels events)
    × (value labels (meter events).auth_failures ≡ times failure_labels labels events)
    × (value labels (meter events).upstream_requests ≡ times upstream_labels labels events)
    × (value labels (meter events).upstream_latency ≡ times latency_labels labels events)
value-meter_example = value-meter labels events
