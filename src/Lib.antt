-- ===== src/Lib.antt =====
-- The gateway of secure-svc-gw: an HTTP reverse proxy that authenticates callers by EdDSA tokens,
-- authorizes them by scope, picks a healthy backend by two random choices and forwards over mTLS;
-- the controller that rolls its configuration out; and the generator of the demo's artifacts.
-- How the parts interact: main (cmd/gateway) reads the configuration (internal/config) and builds the
-- rest. The handler (internal/proxy) matches a route, asks the Verifier (internal/auth), which asks its
-- nonce store last; it asks the pool of the service (internal/lb) for a backend, sends, and updates the
-- statistics of the backend. The checker (internal/health) probes the backends and turns their liveness
-- bits, which the pool reads. The controller (cmd/controller) writes the configuration that main reads.
--
-- Prelude and its children have what the parts share: byte strings with Go's string functions, maps
-- as association lists, int64 with its wrap-around, instants and durations, results with errors, and
-- base64.StdEncoding.
--
-- Auth: the reasons, claims and keys of internal/auth/jwt.go. Auth.Verifier: Verify, as read_token,
-- check_claims, admit (up to the nonce store) and spend (the nonce store), NewVerifierWithStore and
-- NewVerifier. The decoding of tokens and keys, encoding/json and Ed25519 are the arguments in Library.
-- Auth.Nonce: the interface NonceStore and the contract IsReplayGuard; Auth.Nonce.Memory is nonce.go,
-- Auth.Nonce.Redis is redis_nonce.go over a Redis server that is an argument. Verify reads the clock
-- twice, so it has two instants; each call of CheckAndStore and each sweep is one step, as the mutex
-- makes them. A call of Verify changes nothing before its CheckAndStore, and stands at that instant.
-- Config: Load of internal/config/config.go, with yaml.Unmarshal as an argument.
-- Lb: internal/lb/pool.go. A *Backend is an index into the pool. Floats are the interface Lb.Floats,
-- and rand.Intn gives two draws, of which theorems ask that they are in range.
-- Health: internal/health/checker.go; `record` is record_probe, and `run` is any sequence of its calls.
-- Health.Probes has the client, the request of a probe and the schedule of Run as a step relation: a
-- tick starts a goroutine per backend, and the goroutines end in any order, or end the process. Health.Reach and
-- Health.Fate are about what this relation reaches.
-- Proxy: internal/proxy/handler.go. Proxy.Headers is http.Header and copyHeaders. Proxy.Gateway has the
-- state of a request (World: the response, the body, the pools, the verifier, and a trace of what is
-- counted, logged and sent) and what the request meets (Env: random bytes, the clock, the draws, the
-- errors of http.NewRequestWithContext, the clients that there are, and what Do gives, which may depend
-- on all that happened before). An event of the trace is a call of Do: what the client sends for it,
-- redirects included, is its own. A panic, of a nil pool, a nil client or WriteHeader, is an outcome.
-- Proxy.Gateway.Replies has the endings of ServeHTTP, Proxy.Gateway.Serve forward and
-- ServeHTTP; denyAuth is deny_auth, and ServeHTTP is serve_http, cut where it may return:
-- authenticate, authorize, dispatch, proxy, retry, finish. Proxy.Tls is the TLS configuration and the
-- client for the backends (internal/proxy/tls.go). Proxy.Traffic and its children are
-- the steps that requests and checkers take on the shared pools, interleaved in any order.
-- Metrics: internal/metrics/metrics.go, the series and what the events of a trace do to them.
--
-- Controller: cmd/controller/main.go and the spec of api/v1alpha1/types.go. Controller is renderConfig,
-- with yaml.Marshal as an argument; Controller.Cluster is `do` on an API server that is an argument, with
-- JSON bodies as values; Controller.Cluster.Operations is each read and write, by its name in the source;
-- Controller.Cluster.Traces says what they may send. Controller.Reconcile is reconcile, cut after each
-- step that may fail; its children Stages, Sends and Order are about the order of the requests.
-- Controller.Watch is newK8sClient, watchAndReconcile and the loop of main.
-- Startup: what cmd/gateway/main.go builds: the key registrations, the ten attempts to reach Redis, the
-- pools per service. Startup.Boot is its main, with the exits, up to the two servers, and serve;
-- Startup.Succeeds is about when main comes that far, Startup.Ready, Started, Guarded and Counted are
-- about the gateway that it built (a *lb.Pool is its number there, with what it points at beside
-- it), and Startup.Deployed and Startup.Delivered about one that starts from the text that the
-- controller wrote.
-- Artifacts and its children: cmd/gen-artifacts/main.go. The keys and serial numbers drawn are an
-- argument, and a certificate is a value with the fields of its template.
-- Tests and its children have concrete instances of every argument, and runs.
--
-- Loops are recursions on lists, and on the attempts left; the endless loops (Run, the watch of the
-- controller) are relations or recursions over what arrived so far, of any length. The digits of a
-- number have fuel, the number plus one, which is enough (Controller.Digits). Not modelled:
-- interleavings within ServeHTTP other than on the pools, where the verifier and the response of one
-- request are its own; the response body when the connection to the caller breaks; the set-up of
-- logging and the lines that main and the controller log, except for failed reconciles; signals and
-- the shutdown of the servers; the length of sleeps; the PEM and JSON encodings of what the
-- generator writes; the parsing of the generated configuration. The map iterations of copyHeaders and
-- fetchClientKeys visit keys in the order of the list.
pub mod Prelude
pub mod Auth
pub mod Config
pub mod Lb
pub mod Health
pub mod Proxy
pub mod Artifacts
pub mod Metrics
pub mod Controller
pub mod Startup
mod Tests
