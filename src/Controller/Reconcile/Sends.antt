-- ===== src/Controller/Reconcile/Sends.antt =====
-- cmd/controller/main.go: what each step of reconcile sends.
use secure_svc_gw.Prelude.{
  ℕ, inl, inr, Option, none, some, ◌++◌, Str, codes, Bool-cases, Option-cases, Result-cases, arith,
}
use secure_svc_gw.Controller.{Spec, TlsSpec, GatewayConfig}
use secure_svc_gw.Controller.Cluster.{Client, Cluster, get_ok, call}
use secure_svc_gw.Controller.Cluster.Operations.{
  fetch_cr, fetch_client_keys, fetch_secret_key, reconcile_network_policy, delete_network_policy,
  reconcile_certificate, patch_config_map, patch_deployment_annotation, deployment_patch,
}
use secure_svc_gw.Controller.Cluster.Traces.{
  Traced, traced, Adds, Adds-map, Adds-refl, Asks, call-Adds, patch_or_create-Adds,
}
use secure_svc_gw.Controller.Reconcile.{ensure_tls, ensure_policy}
use secure_svc_gw.Controller.Reconcile.Stages.{
  certificates_of, maps_of, policies_of, policy_of, deployment_of, Belongs, reads, certifies,
  configures, isolates, exposes, restarts,
}

module _ {S : Type 0} (K : Cluster S) (c : Client) (marshal : GatewayConfig → Option Str)
    (sha256 : Str → Str) (ns : Str) where
  pub get_ok-Adds :
      (n : ℕ) (path : Str) (s : Traced S) → Adds (Belongs c ns n) s (get_ok (traced K) c path s).1
  unfolding get_ok
  get_ok-Adds n path s =
      let asked =
        Adds-map (Asks c (codes "GET") path) (Belongs c ns n) s _ (λ q asked. reads asked.0)
          (call-Adds K c (codes "GET") path none s) in
      elim (Option-cases (call (traced K) c (codes "GET") path none s).0) [
        | inl lost ↦ rw (lost, get_ok) asked
        | inr (_, answered) ↦ rw (answered, get_ok) asked
      ]

  pub fetch_cr-Adds :
      (cr_name : Str) (s : Traced S)
      → Adds (Belongs c ns 0) s (fetch_cr (traced K) c ns cr_name s).1
  unfolding fetch_cr
  fetch_cr-Adds cr_name s = get_ok-Adds 0 _ s

  pub fetch_client_keys-Adds :
      (secret : Str) (s : Traced S)
      → Adds (Belongs c ns 0) s (fetch_client_keys (traced K) c ns secret s).1
  unfolding fetch_client_keys
  fetch_client_keys-Adds secret s = get_ok-Adds 0 _ s

  pub fetch_secret_key-Adds :
      (secret key : Str) (s : Traced S)
      → Adds (Belongs c ns 0) s (fetch_secret_key (traced K) c ns secret key s).1
  unfolding fetch_secret_key
  fetch_secret_key-Adds secret key s = get_ok-Adds 0 _ s

  pub ensure_tls-Adds :
      (tls : Option TlsSpec) (s : Traced S)
      → Adds (Belongs c ns 1) s (ensure_tls (traced K) c marshal sha256 ns tls s).1
  unfolding ensure_tls reconcile_certificate
  ensure_tls-Adds none s = Adds-refl (Belongs c ns 1) s
  ensure_tls-Adds (some t) s = elim (Option-cases t.issuer_ref) [
    | inl given ↦ rw (given, ensure_tls) (Adds-refl (Belongs c ns 1) s)
    | inr (issuer, named) ↦
        let written =
          Adds-map _ (Belongs c ns 1) s _ (λ q w. certifies (omega arith) w)
            (patch_or_create-Adds K c _ (certificates_of ns ++ codes "/gateway-listener-tls")
              (certificates_of ns) _ s) in
        elim (Result-cases (reconcile_certificate (traced K) c ns issuer s).0) [
          | inl (e, failed) ↦ rw (named, failed, ensure_tls) written
          | inr (_, done) ↦ rw (named, done, ensure_tls) written
        ]
  ]

  pub patch_config_map-Adds :
      (rendered hash : Str) (s : Traced S)
      → Adds
          (Belongs c ns 2)
          s
          (patch_config_map (traced K) c ns (codes "gateway-config") rendered hash s).1
  unfolding patch_config_map
  patch_config_map-Adds rendered hash s =
      Adds-map _ (Belongs c ns 2) s _ (λ q w. configures (omega arith) w)
        (patch_or_create-Adds K c _ (maps_of ns ++ codes "/" ++ codes "gateway-config") (maps_of ns)
          _ s)

  pub delete_network_policy-Adds :
      (be : Str) (s : Traced S)
      → Adds (Belongs c ns 3) s (delete_network_policy (traced K) c be s).1
  unfolding delete_network_policy
  delete_network_policy-Adds be s =
      let path = policy_of be in
      let asked =
        Adds-map (Asks c (codes "DELETE") path) (Belongs c ns 3) s _
          (λ q asked. exposes be (omega arith) asked)
          (call-Adds K c (codes "DELETE") path none s) in
      elim (Option-cases (call (traced K) c (codes "DELETE") path none s).0) [
        | inl lost ↦ rw (lost, delete_network_policy) asked
        | inr (_, answered) ↦ rw (answered, delete_network_policy) asked
      ]

  pub ensure_policy-Adds :
      (spec : Spec) (s : Traced S)
      → Adds (Belongs c ns 3) s (ensure_policy (traced K) c marshal sha256 ns spec s).1
  unfolding ensure_policy reconcile_network_policy
  ensure_policy-Adds spec s = elim (Option-cases spec.network_policy) [
    | inl unset ↦ rw (unset, ensure_policy) (Adds-refl (Belongs c ns 3) s)
    | inr (np, set) ↦
        let be = spec.backends.namespace in
        elim (Bool-cases np.enabled) [
          | inl on ↦
              rw (set, on, ensure_policy)
                (Adds-map _ (Belongs c ns 3) s _ (λ q w. isolates be (omega arith) w)
                  (patch_or_create-Adds K c _
                    (policies_of be ++ codes "/backends-only-from-gateway") (policies_of be) _ s))
          | inr off ↦ rw (set, off, ensure_policy) (delete_network_policy-Adds be s)
        ]
  ]

  pub patch_deployment_annotation-Adds :
      (hash : Str) (s : Traced S)
      → Adds
          (Belongs c ns 4)
          s
          (patch_deployment_annotation (traced K) c ns (codes "gateway") hash s).1
  unfolding patch_deployment_annotation
  patch_deployment_annotation-Adds hash s =
      let asked =
        Adds-map (Asks c (codes "PATCH") (deployment_of ns)) (Belongs c ns 4) s _
          (λ q asked. restarts (omega arith) asked)
          (call-Adds K c (codes "PATCH") (deployment_of ns) (some (deployment_patch hash)) s) in
      elim (Option-cases
        (call (traced K) c (codes "PATCH") (deployment_of ns) (some (deployment_patch hash)) s).0) [
          | inl lost ↦ rw (lost, patch_deployment_annotation) asked
          | inr (_, answered) ↦ rw (answered, patch_deployment_annotation) asked
        ]
