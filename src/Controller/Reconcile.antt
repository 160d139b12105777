-- ===== src/Controller/Reconcile.antt =====
-- cmd/controller/main.go: reconcile. yaml.Marshal and the hexadecimal SHA-256 are arguments.
pub mod Rollout
pub mod Stages
pub mod Sends
pub mod Order
use secure_svc_gw.Prelude.{
  Bool, true, false, Option, none, some, List, [], ℤ, pos, eqb_ℤ, Str, codes, is_empty, Result, ok,
  err, if◌then◌else◌,
}
use secure_svc_gw.Config.{ClientKey}
use secure_svc_gw.Controller.{
  Spec, TlsSpec, IssuerRef, GatewayConfig, NetworkPolicySpec, render_config,
}
use secure_svc_gw.Controller.Cluster.{Client, Cluster, OperationError}
use secure_svc_gw.Controller.Cluster.Operations.{
  fetch_cr, fetch_client_keys, fetch_secret_key, reconcile_network_policy, delete_network_policy,
  reconcile_certificate, patch_config_map, patch_deployment_annotation,
}

-- The step of reconcile that failed, and how.
pub data ReconcileError : Type 0 where
  fetch_cr_failed fetch_keys_failed certificate_failed : OperationError → ReconcileError
  config_map_failed network_policy_failed deployment_failed : OperationError → ReconcileError
  render_failed : ReconcileError

-- A step, and the rest of reconcile if it succeeds: if err != nil { return }.
abbrev pub next :
    {S A B : Type 0}
    → Result OperationError A × S
    → (OperationError → ReconcileError)
    → (A → S → Result ReconcileError B × S)
    → Result ReconcileError B × S
next (ok a, s) failed rest = rest a s
next (err e, s) failed rest = (err (failed e), s)

-- redisURL: empty if the Secret or its key is not there.
abbrev pub url_or_empty : Result OperationError Str → Str
url_or_empty (ok url) = url
url_or_empty (err e) = []

module _ {S : Type 0} (K : Cluster S) (c : Client) (marshal : GatewayConfig → Option Str)
    (sha256 : Str → Str) where
  -- The switch on spec.tls: the name of the TLS Secret, after the certificate is there.
  unfoldable pub ensure_tls : Str → Option TlsSpec → S → Result OperationError Str × S
  ensure_tls ns none s = (ok [], s)
  ensure_tls ns (some t) s = elim (t.issuer_ref) [
    | none ↦ (ok t.secret_ref, s)
    | some issuer ↦
        let (done, s') = reconcile_certificate K c ns issuer s in
        elim done [ ok _ ↦ (ok (codes "gateway-listener-tls"), s') | err e ↦ (err e, s') ]
  ]

  -- Step 8. The error of a deletion is dropped.
  unfoldable pub ensure_policy : Str → Spec → S → Result OperationError (Unit {0}) × S
  ensure_policy ns spec s = elim (spec.network_policy) [
    | none ↦ (ok tt, s)
    | some np ↦
        let port = if eqb_ℤ np.backends_port (pos 0) then pos 8443 else np.backends_port in
        if np.enabled
        then reconcile_network_policy K c spec.backends.namespace ns port s
        else (ok tt, (delete_network_policy K c spec.backends.namespace s).1)
  ]

  -- Step 9, with the hash of the rendered configuration.
  unfoldable pub annotate : Str → Str → Unit {0} → S → Result ReconcileError (Unit {0}) × S
  annotate ns hash done s =
      next (patch_deployment_annotation K c ns (codes "gateway") hash s) deployment_failed
        (λ _ s'. (ok tt, s'))

  -- From step 8 on.
  unfoldable pub after_map : Str → Spec → Str → Unit {0} → S → Result ReconcileError (Unit {0}) × S
  unfolding ensure_policy annotate
  after_map ns spec hash done s =
      next (ensure_policy ns spec s) network_policy_failed (annotate ns hash)

  -- From step 5 on.
  unfoldable pub roll_out :
      Str → Spec → List ClientKey → Str → Str → S → Result ReconcileError (Unit {0}) × S
  unfolding after_map
  roll_out ns spec keys redis_url tls s = elim (marshal (render_config spec keys redis_url tls)) [
    | none ↦ (err render_failed, s)
    | some rendered ↦
        let hash = sha256 rendered in
        next (patch_config_map K c ns (codes "gateway-config") rendered hash s) config_map_failed
          (after_map ns spec hash)
  ]

  -- From step 3 on.
  unfoldable pub after_keys : Str → Spec → List ClientKey → S → Result ReconcileError (Unit {0}) × S
  unfolding ensure_tls roll_out
  after_keys ns spec keys s =
      let (url, s') = fetch_secret_key K c ns (codes "redis-credentials") (codes "redis_url") s in
      next (ensure_tls ns spec.tls s') certificate_failed (roll_out ns spec keys (url_or_empty url))

  -- From step 2 on.
  unfoldable pub after_spec : Str → Spec → S → Result ReconcileError (Unit {0}) × S
  unfolding after_keys
  after_spec ns spec s =
      next (fetch_client_keys K c ns spec.auth.client_keys_secret_ref s) fetch_keys_failed
        (after_keys ns spec)

  unfoldable pub reconcile : Str → Str → S → Result ReconcileError (Unit {0}) × S
  unfolding after_spec
  reconcile ns cr_name s = next (fetch_cr K c ns cr_name s) fetch_cr_failed (after_spec ns)
