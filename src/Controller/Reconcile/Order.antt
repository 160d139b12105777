-- ===== src/Controller/Reconcile/Order.antt =====
-- cmd/controller/main.go: what reconcile has sent when it ends, on every way out.
use secure_svc_gw.Prelude.{refl, inl, inr, Option, List, Str, codes, ok, Option-cases, arith}
use secure_svc_gw.Config.{ClientKey}
use secure_svc_gw.Controller.{Spec, GatewayConfig, render_config}
use secure_svc_gw.Controller.Cluster.{Client, Cluster}
use secure_svc_gw.Controller.Cluster.Operations.{
  fetch_cr, fetch_client_keys, fetch_secret_key, patch_config_map, patch_deployment_annotation,
}
use secure_svc_gw.Controller.Cluster.Traces.{Traced, traced, Adds-refl}
use secure_svc_gw.Controller.Reconcile.{
  fetch_cr_failed, fetch_keys_failed, certificate_failed, config_map_failed, network_policy_failed,
  deployment_failed, url_or_empty, ensure_tls, ensure_policy, annotate, after_map, roll_out,
  after_keys, after_spec, reconcile,
}
use secure_svc_gw.Controller.Reconcile.Stages.{
  stage, Belongs, IsStaged, IsStaged-after, next-IsStaged,
}
use secure_svc_gw.Controller.Reconcile.Sends.{
  fetch_cr-Adds, fetch_client_keys-Adds, fetch_secret_key-Adds, ensure_tls-Adds,
  patch_config_map-Adds, ensure_policy-Adds, patch_deployment_annotation-Adds,
}

module _ {S : Type 0} (K : Cluster S) (c : Client) (marshal : GatewayConfig → Option Str)
    (sha256 : Str → Str) (ns : Str) where
  annotate-IsStaged :
      (hash : Str) (done : Unit) (s : Traced S)
      → IsStaged c ns 3 s (annotate (traced K) c marshal sha256 ns hash done s)
  unfolding annotate stage
  annotate-IsStaged hash done s =
      next-IsStaged c ns 3 4 s
        (patch_deployment_annotation (traced K) c ns (codes "gateway") hash s) deployment_failed
        (λ _ s'. (ok tt, s')) (omega arith)
        (patch_deployment_annotation-Adds K c marshal sha256 ns hash s) (λ e. refl)
        (λ _. record { low = omega arith; sent = Adds-refl (Belongs c ns 4) _ })

  after_map-IsStaged :
      (spec : Spec) (hash : Str) (done : Unit) (s : Traced S)
      → IsStaged c ns 2 s (after_map (traced K) c marshal sha256 ns spec hash done s)
  unfolding after_map stage
  after_map-IsStaged spec hash done s =
      next-IsStaged c ns 2 3 s (ensure_policy (traced K) c marshal sha256 ns spec s)
        network_policy_failed (annotate (traced K) c marshal sha256 ns hash) (omega arith)
        (ensure_policy-Adds K c marshal sha256 ns spec s) (λ e. refl)
        (λ u. annotate-IsStaged hash u _)

  roll_out-IsStaged :
      (spec : Spec) (keys : List ClientKey) (redis_url tls : Str) (s : Traced S)
      → IsStaged c ns 1 s (roll_out (traced K) c marshal sha256 ns spec keys redis_url tls s)
  unfolding roll_out stage
  roll_out-IsStaged spec keys redis_url tls s =
      elim (Option-cases (marshal (render_config spec keys redis_url tls))) [
        | inl failed ↦
            rw (failed, roll_out)
              (record { low = omega arith; sent = Adds-refl (Belongs c ns 1) s })
        | inr (rendered, rendering) ↦
            rw (rendering, roll_out)
              (next-IsStaged c ns 1 2 s
                (patch_config_map (traced K) c ns (codes "gateway-config") rendered
                  (sha256 rendered) s)
                config_map_failed (after_map (traced K) c marshal sha256 ns spec (sha256 rendered))
                (omega arith)
                (patch_config_map-Adds K c marshal sha256 ns rendered (sha256 rendered) s)
                (λ e. refl) (λ u. after_map-IsStaged spec (sha256 rendered) u _))
      ]

  after_keys-IsStaged :
      (spec : Spec) (keys : List ClientKey) (s : Traced S)
      → IsStaged c ns 0 s (after_keys (traced K) c marshal sha256 ns spec keys s)
  unfolding after_keys stage
  after_keys-IsStaged spec keys s =
      let (url, s') =
        fetch_secret_key (traced K) c ns (codes "redis-credentials") (codes "redis_url") s in
      IsStaged-after c ns 0 0 s s' _ (omega arith)
        (fetch_secret_key-Adds K c marshal sha256 ns _ _ s)
        (next-IsStaged c ns 0 1 s' (ensure_tls (traced K) c marshal sha256 ns spec.tls s')
          certificate_failed (roll_out (traced K) c marshal sha256 ns spec keys (url_or_empty url))
          (omega arith) (ensure_tls-Adds K c marshal sha256 ns spec.tls s') (λ e. refl)
          (λ tls. roll_out-IsStaged spec keys _ tls _))

  -- A reconcile has sent, when it ends at a step, only requests that belong to that step or to earlier
  -- ones: only reads if it ends while it reads, nothing but the certificate besides if it ends there or
  -- at the rendering, then also the ConfigMap, then also the network policy, and something to the
  -- Deployment only if it ends well or because of just that.
  pub reconcile-IsStaged :
      (cr_name : Str) (s : Traced S)
      → IsStaged c ns 0 s (reconcile (traced K) c marshal sha256 ns cr_name s)
  unfolding reconcile after_spec stage
  reconcile-IsStaged cr_name s =
      next-IsStaged c ns 0 0 s (fetch_cr (traced K) c ns cr_name s) fetch_cr_failed
        (after_spec (traced K) c marshal sha256 ns) (omega arith)
        (fetch_cr-Adds K c marshal sha256 ns cr_name s) (λ e. refl)
        (λ spec.
          next-IsStaged c ns 0 0 (fetch_cr (traced K) c ns cr_name s).1
            (fetch_client_keys (traced K) c ns spec.auth.client_keys_secret_ref
              (fetch_cr (traced K) c ns cr_name s).1)
            fetch_keys_failed (after_keys (traced K) c marshal sha256 ns spec) (omega arith)
            (fetch_client_keys-Adds K c marshal sha256 ns spec.auth.client_keys_secret_ref
              (fetch_cr (traced K) c ns cr_name s).1)
            (λ e. refl) (λ keys. after_keys-IsStaged spec keys _))
