-- ===== src/Controller/Watch.antt =====
-- cmd/controller/main.go: main, the client of the API, and the watch. What the API server sends on
-- the watch is an argument.
use secure_svc_gw.Prelude.{
  Bool, ◌||◌, Option, none, some, List, [], ◌∷◌, ◌++◌, Str, codes, is_empty, ◌==◌, eqb, Result, ok,
  err, if◌then◌else◌, ℕ,
}
pub mod Events
use mathlib.Core.List.{reverse}
use mathlib.Core.Option
use secure_svc_gw.Startup.Boot.{env_or}
use secure_svc_gw.Controller.{GatewayConfig}
use secure_svc_gw.Controller.Cluster.{Client, Cluster, ApiRequest}
use secure_svc_gw.Controller.Reconcile.{ReconcileError, reconcile}

-- Drops the bytes `c` at the front.
drop_front : ℕ → Str → Str
drop_front c [] = []
drop_front c (d ∷ s) = let rest = drop_front c s in if eqb c d then rest else d ∷ s

-- strings.TrimRight(s, "/")
unfoldable pub trim_right_slash : Str → Str
unfolding drop_front
trim_right_slash s = reverse (drop_front b'/' (reverse s))

-- The address of the API server, by the environment.
unfoldable pub api_server : (Str → Str) → Str
api_server getenv =
    let host = env_or getenv (codes "KUBERNETES_SERVICE_HOST") [] in
    if is_empty host
    then codes "https://kubernetes.default.svc"
    else codes "https://"
      ++ host
      ++ codes ":"
      ++ env_or getenv (codes "KUBERNETES_SERVICE_PORT") (codes "443")

-- The files and the certificates that newK8sClient reads: os.ReadFile, x509.SystemCertPool, an empty
-- pool, and AppendCertsFromPEM, which leaves a pool as it is if the file has no certificate.
pub record Host : Type 1 where
  pub CertPool : Type 0
  pub read_file : Str → Option Str
  pub system_pool : Option CertPool
  pub empty_pool : CertPool
  pub append_certs : CertPool → Str → CertPool

-- The value, or another one if there is none.
abbrev value_or : {A : Type 0} → A → Option A → A
value_or other none = other
value_or other (some a) = a

-- newK8sClient: the client, and the CAs that it trusts. The error of reading the token is dropped.
unfoldable pub new_k8s_client : (H : Host) → Str → Client × H.CertPool
unfolding trim_right_slash
new_k8s_client H server =
    let token =
      value_or [] (H.read_file (codes "/var/run/secrets/kubernetes.io/serviceaccount/token")) in
    let pool = value_or H.empty_pool H.system_pool in
    let trusted = value_or pool (
      Option.map (H.append_certs pool)
        (H.read_file (codes "/var/run/secrets/kubernetes.io/serviceaccount/ca.crt"))) in
    (record { base = trim_right_slash server; token = token }, trusted)

-- Why watchAndReconcile returns; it has no other way to return.
pub data WatchError : Type 0 where
  bad_request connection_failed decode_failed : WatchError

-- What the controller logs of a reconcile that failed: of the first one, or of an event.
pub data Warning : Type 0 where
  initial_failed : ReconcileError → Warning
  event_failed : Str → ReconcileError → Warning

-- An event as the decoder gives it, after what the cluster did by itself since the last one.
pub record Arrival (S : Type 0) : Type 0 where
  pub kind : Str
  pub since : S → S

-- The answer to the request of a watch: no connection, or the events until decoding fails.
pub data Stream (S : Type 0) : Type 0 where
  refused : Stream S
  events : List (Arrival S) → Stream S

-- event.Type == "ADDED" || event.Type == "MODIFIED"
unfoldable pub is_relevant : Str → Bool
is_relevant kind = kind == codes "ADDED" || kind == codes "MODIFIED"

-- if err := reconcile(...); err != nil { log }
abbrev pub warn :
    {S : Type 0}
    → (ReconcileError → Warning)
    → Result ReconcileError (Unit {0}) × S
    → List Warning
    → List Warning × S
warn name (ok _, s) log = (log, s)
warn name (err e, s) log = (log ++ name e ∷ [], s)

unfoldable pub watch_path : Str → Str → Str
watch_path ns cr_name =
    codes "/apis/gateway.secure-svc.io/v1alpha1/namespaces/"
    ++ ns
    ++ codes "/secureservicegateways?watch=true&fieldSelector=metadata.name="
    ++ cr_name

-- The request of the watch.
unfoldable pub watch_request : Client → Str → Str → ApiRequest
unfolding watch_path
watch_request c ns cr_name = record {
  method = codes "GET";
  url = c.base ++ watch_path ns cr_name;
  header =
      if is_empty c.token then [] else (codes "Authorization", codes "Bearer " ++ c.token) ∷ [];
  body = none;
}

module _ {S : Type 0} (K : Cluster S) (c : Client) (marshal : GatewayConfig → Option Str)
    (sha256 : Str → Str) (ns cr_name : Str) where
  -- One round of the loop over the events.
  unfoldable pub on_event : Arrival S → List Warning × S → List Warning × S
  on_event a (log, s) =
      let before = a.since s in
      if is_relevant a.kind
      then warn (event_failed a.kind) (reconcile K c marshal sha256 ns cr_name before) log
      else (log, before)

  unfoldable pub handle_events : List (Arrival S) → List Warning × S → List Warning × S
  unfolding on_event
  handle_events [] state = state
  handle_events (a ∷ rest) state = handle_events rest (on_event a state)

  -- watchAndReconcile, on the stream that the server opens for the request.
  unfoldable pub watch_and_reconcile :
      (ApiRequest → Stream S) → List Warning × S → WatchError × (List Warning × S)
  unfolding handle_events watch_request
  watch_and_reconcile connect state =
      let request = watch_request c ns cr_name in
      if K.new_request_fails request.method request.url
      then (bad_request, state)
      else elim (connect request) [
        | refused ↦ (connection_failed, state)
        | events arrivals ↦ (decode_failed, handle_events arrivals state)
      ]

  -- The endless loop of main, over the watches that it has opened so far: with the errors that it
  -- logs, each followed by ten seconds of sleep.
  unfoldable pub watch_rounds :
      List (ApiRequest → Stream S)
      → List WatchError × (List Warning × S)
      → List WatchError × (List Warning × S)
  unfolding watch_and_reconcile
  watch_rounds [] so_far = so_far
  watch_rounds (connect ∷ rest) (errors, state) =
      let (e, state') = watch_and_reconcile connect state in
      watch_rounds rest (errors ++ e ∷ [], state')

  -- main once the client is there.
  unfoldable pub control : List (ApiRequest → Stream S) → S → List WatchError × (List Warning × S)
  unfolding watch_rounds
  control watches s =
      watch_rounds watches ([], warn initial_failed (reconcile K c marshal sha256 ns cr_name s) [])
