-- ===== src/Controller/Reconcile/Stages.antt =====
-- cmd/controller/main.go: the steps of reconcile, and the requests that belong to them.
use secure_svc_gw.Prelude.{ℕ, ◌≤◌, ◌≡◌, sym, subst, ◌++◌, Str, codes, ok, err, Result, arith}
use secure_svc_gw.Controller.Cluster.{Client, ApiRequest, OperationError}
use secure_svc_gw.Controller.Cluster.Traces.{Traced, Adds, Adds-trans, Asks, Writes}
use secure_svc_gw.Controller.Reconcile.{
  ReconcileError, next, fetch_cr_failed, fetch_keys_failed, certificate_failed, config_map_failed,
  network_policy_failed, deployment_failed, render_failed,
}

-- How far reconcile came: 0 while it reads, 1 at the certificate and the rendering, 2 at the
-- ConfigMap, 3 at the network policy, 4 at the Deployment.
unfoldable pub stage : Result ReconcileError (Unit {0}) → ℕ
stage (ok _) = 4
stage (err (fetch_cr_failed e)) = 0
stage (err (fetch_keys_failed e)) = 0
stage (err (certificate_failed e)) = 1
stage (err render_failed) = 1
stage (err (config_map_failed e)) = 2
stage (err (network_policy_failed e)) = 3
stage (err (deployment_failed e)) = 4

abbrev pub certificates_of : Str → Str
certificates_of ns = codes "/apis/cert-manager.io/v1/namespaces/" ++ ns ++ codes "/certificates"

abbrev pub maps_of : Str → Str
maps_of ns = codes "/api/v1/namespaces/" ++ ns ++ codes "/configmaps"

abbrev pub policies_of : Str → Str
policies_of ns = codes "/apis/networking.k8s.io/v1/namespaces/" ++ ns ++ codes "/networkpolicies"

abbrev pub policy_of : Str → Str
policy_of ns =
    codes "/apis/networking.k8s.io/v1/namespaces/"
    ++ ns
    ++ codes "/networkpolicies/backends-only-from-gateway"

abbrev pub deployment_of : Str → Str
deployment_of ns =
    codes "/apis/apps/v1/namespaces/" ++ ns ++ codes "/deployments/" ++ codes "gateway"

-- The requests that belong to the stages up to `n`.
pub data Belongs (c : Client) (ns : Str) (n : ℕ) (q : ApiRequest) : Type 0 where
  reads : q.method ≡ codes "GET" → Belongs c ns n q
  certifies :
      1 ≤ n
      → Writes c (certificates_of ns ++ codes "/gateway-listener-tls") (certificates_of ns) q
      → Belongs c ns n q
  configures :
      2 ≤ n
      → Writes c (maps_of ns ++ codes "/" ++ codes "gateway-config") (maps_of ns) q
      → Belongs c ns n q
  isolates :
      (backends : Str)
      → 3 ≤ n
      → Writes c
          (policies_of backends ++ codes "/backends-only-from-gateway")
          (policies_of backends)
          q
      → Belongs c ns n q
  exposes :
      (backends : Str) → 3 ≤ n → Asks c (codes "DELETE") (policy_of backends) q → Belongs c ns n q
  restarts : 4 ≤ n → Asks c (codes "PATCH") (deployment_of ns) q → Belongs c ns n q

pub Belongs-later :
    (c : Client) (ns : Str) (m n : ℕ) (q : ApiRequest) → m ≤ n → Belongs c ns m q → Belongs c ns n q
Belongs-later c ns m n q le (reads get) = reads get
Belongs-later c ns m n q le (certifies at w) = certifies (omega arith) w
Belongs-later c ns m n q le (configures at w) = configures (omega arith) w
Belongs-later c ns m n q le (isolates be at w) = isolates be (omega arith) w
Belongs-later c ns m n q le (exposes be at w) = exposes be (omega arith) w
Belongs-later c ns m n q le (restarts at w) = restarts (omega arith) w

module _ {S : Type 0} (c : Client) (ns : Str) where
  -- The end of a part of reconcile that began at stage `m`: it has sent what belongs to the stages
  -- up to the one where it ended.
  pub record IsStaged (m : ℕ) (s : Traced S) (r : Result ReconcileError (Unit {0}) × Traced S)
      : Type 0 where
    pub low : m ≤ stage r.0
    pub sent : Adds (Belongs c ns (stage r.0)) s r.1

  pub IsStaged-after :
      (m n : ℕ) (s s' : Traced S) (r : Result ReconcileError (Unit {0}) × Traced S)
      → m ≤ n
      → Adds (Belongs c ns n) s s'
      → IsStaged n s' r
      → IsStaged m s r
  IsStaged-after m n s s' r le before staged = record {
    low = omega (arith, le, staged.low);
    sent =
        Adds-trans (Belongs c ns n) (Belongs c ns (stage r.0)) s s' r.1
          (λ q. Belongs-later c ns n (stage r.0) q staged.low) before staged.sent;
  }

  pub next-IsStaged :
      {A : Type 0} (m n : ℕ) (s : Traced S) (step : Result OperationError A × Traced S)
      (failed : OperationError → ReconcileError)
      (rest : A → Traced S → Result ReconcileError (Unit {0}) × Traced S)
      → m ≤ n
      → Adds (Belongs c ns n) s step.1
      → ((e : OperationError) → stage (err (failed e)) ≡ n)
      → ((a : A) → IsStaged n step.1 (rest a step.1))
      → IsStaged m s (next step failed rest)
  next-IsStaged m n s (ok a, s') failed rest le before at more =
      IsStaged-after m n s s' (rest a s') le before (more a)
  next-IsStaged m n s (err e, s') failed rest le before at more =
      let here : n ≡ stage (err (failed e)) = sym (at e) in
      record {
        low = subst (λ k. m ≤ k) here le;
        sent = subst (λ k. Adds (Belongs c ns k) s s') here before;
      }
