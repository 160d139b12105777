-- ===== src/Controller/Reconcile/Rollout.antt =====
-- cmd/controller/main.go: what a reconcile that succeeds has written.
use secure_svc_gw.Prelude.{
  eqb_ℤ, pos, if◌then◌else◌, sym, ap, ◌∙◌, ◌≡◌, refl, inl, inr, [], subst, Option, none, some, List,
  Str, codes, Result, ok, err, Option-cases, Result-cases,
}
use secure_svc_gw.Config.{ClientKey}
use secure_svc_gw.Controller.{
  Spec, TlsSpec, IssuerRef, NetworkPolicySpec, GatewayConfig, render_config,
}
use secure_svc_gw.Controller.Cluster.{Client, Cluster, OperationError}
use secure_svc_gw.Controller.Cluster.Operations.{
  fetch_cr, fetch_client_keys, fetch_secret_key, reconcile_certificate, reconcile_network_policy,
  delete_network_policy, patch_config_map, patch_deployment_annotation,
}
use secure_svc_gw.Controller.Reconcile.{
  ReconcileError, next, fetch_cr_failed, fetch_keys_failed, certificate_failed, config_map_failed,
  network_policy_failed, deployment_failed, url_or_empty, ensure_tls, ensure_policy, annotate,
  after_map, roll_out, after_keys, after_spec, reconcile,
}

-- A chain that succeeds went through its first step.
next-ok :
    {S A B G : Type 0} (step : Result OperationError A × S)
    (failed : OperationError → ReconcileError) (rest : A → S → Result ReconcileError B × S) {b : B}
    → (next step failed rest).0 ≡ ok b
    → ((a : A) → step.0 ≡ ok a → (rest a step.1).0 ≡ ok b → G)
    → G
next-ok (ok a, s) failed rest h k = k a refl h
next-ok (err e, s) failed rest h k = absurd (cc)

-- The URL that was read, or none.
abbrev pub the_url : Result OperationError Str → Str
the_url (ok url) = url
the_url (err e) = []

-- The name of the TLS Secret by the spec: none, that of the spec, or that of the managed certificate.
abbrev pub the_secret : Option TlsSpec → Str
the_secret none = []
the_secret (some t) = elim (t.issuer_ref) [
  | none ↦ t.secret_ref
  | some issuer ↦ codes "gateway-listener-tls"
]

abbrev pub the_issuer : Option TlsSpec → Option IssuerRef
the_issuer none = none
the_issuer (some t) = t.issuer_ref

the_url-same : (r : Result OperationError Str) → url_or_empty r ≡ the_url r
the_url-same (ok url) = refl
the_url-same (err e) = refl

module _ {S : Type 0} (K : Cluster S) (c : Client) (marshal : GatewayConfig → Option Str)
    (sha256 : Str → Str) where
  -- The third read of reconcile, after the resource and its keys: the key redis_url of the Secret.
  abbrev pub read_url : Str → Str → S → Spec → Result OperationError Str × S
  read_url ns cr_name s spec =
      fetch_secret_key K c ns (codes "redis-credentials") (codes "redis_url")
        (fetch_client_keys K c ns spec.auth.client_keys_secret_ref (fetch_cr K c ns cr_name s).1).1

  -- The cluster once the certificate of the issuer, if there is one, is seen to.
  abbrev pub after_certificate : Str → Option IssuerRef → S → S
  after_certificate ns none s = s
  after_certificate ns (some issuer) s = (reconcile_certificate K c ns issuer s).1

  -- The network policy of the backends by the resource: none, or applied for the port of the resource
  -- or 8443, or its removal is asked for, whatever comes of that.
  abbrev pub policed :
      Str → Str → Option NetworkPolicySpec → S → Result OperationError (Unit {0}) × S
  policed ns backends none s = (ok tt, s)
  policed ns backends (some np) s =
      if np.enabled
      then reconcile_network_policy K c backends ns
          (if eqb_ℤ np.backends_port (pos 0) then pos 8443 else np.backends_port) s
      else (ok tt, (delete_network_policy K c backends s).1)

  -- The ConfigMap has the rendered configuration of the resource, of its keys, of the URL in the Redis
  -- Secret or none, and of the name of the TLS Secret, and the Deployment is annotated with the hash of
  -- that same text.
  pub record IsRolledOut (ns cr_name : Str) (s : S) : Type 0 where
    pub spec : Spec
    pub fetched : (fetch_cr K c ns cr_name s).0 ≡ ok spec
    pub keys : List ClientKey
    pub keys_fetched :
        (fetch_client_keys K c ns spec.auth.client_keys_secret_ref (fetch_cr K c ns cr_name s).1).0
        ≡ ok keys
    pub redis_url : Str
    pub url_fetched : redis_url ≡ the_url (read_url ns cr_name s spec).0
    pub tls : Str
    pub tls_secret : tls ≡ the_secret spec.tls
    pub certified :
        (issuer : IssuerRef)
        → the_issuer spec.tls ≡ some issuer
        → (reconcile_certificate K c ns issuer (read_url ns cr_name s spec).1).0 ≡ ok tt
    pub rendered : Str
    pub rendering : marshal (render_config spec keys redis_url tls) ≡ some rendered
    pub before_map : S
    pub follows :
        before_map ≡ after_certificate ns (the_issuer spec.tls) (read_url ns cr_name s spec).1
    pub written :
        (patch_config_map K c ns (codes "gateway-config") rendered (sha256 rendered) before_map).0
        ≡ ok tt
    pub policy :
        (policed ns spec.backends.namespace spec.network_policy
          (patch_config_map K c ns
            (codes "gateway-config")
            rendered
            (sha256 rendered)
            before_map).1).0
        ≡ ok tt
    pub annotated :
        (patch_deployment_annotation K c ns
          (codes "gateway")
          (sha256 rendered)
          (policed ns spec.backends.namespace spec.network_policy
            (patch_config_map K c ns
              (codes "gateway-config")
              rendered
              (sha256 rendered)
              before_map).1).1).0
        ≡ ok tt

  ensure_tls-ok :
      (ns : Str) (t : Option TlsSpec) (s : S) (tls : Str)
      → (ensure_tls K c marshal sha256 ns t s).0 ≡ ok tls
      → (tls ≡ the_secret t)
        × ((issuer : IssuerRef)
            → the_issuer t ≡ some issuer
            → (reconcile_certificate K c ns issuer s).0 ≡ ok tt)
        × ((ensure_tls K c marshal sha256 ns t s).1 ≡ after_certificate ns (the_issuer t) s)
  unfolding ensure_tls
  ensure_tls-ok ns none s tls h = (cc, λ issuer is. absurd (cc), refl)
  ensure_tls-ok ns (some t) s tls h = elim (Option-cases t.issuer_ref) [
    | inl given ↦
        let h' : ok t.secret_ref ≡ ok tls = rw (given, ensure_tls) at h in
        (rw given (cc h'), λ issuer is. absurd (cc (given, is)), rw (given, ensure_tls) refl)
    | inr (issuer, managed) ↦ elim (Result-cases (reconcile_certificate K c ns issuer s).0) [
      | inl (e, failed) ↦ absurd (cc (rw (managed, failed, ensure_tls) at h))
      | inr (u, done) ↦
          let h' : ok (codes "gateway-listener-tls") ≡ ok tls =
            rw (managed, done, ensure_tls) at h in
          (
            rw managed (cc h'),
            λ other is.
                let same : issuer ≡ other = cc (managed, is) in
                subst (λ i. (reconcile_certificate K c ns i s).0 ≡ ok tt) same done,
            rw (managed, done, ensure_tls) refl,
          )
    ]
  ]

  ensure_policy-policed :
      (ns : Str) (spec : Spec) (s : S)
      → ensure_policy K c marshal sha256 ns spec s
        ≡ policed ns spec.backends.namespace spec.network_policy s
  unfolding ensure_policy
  ensure_policy-policed ns spec s = elim (Option-cases spec.network_policy) [
    | inl unset ↦ rw (unset, ensure_policy) refl
    | inr (np, set) ↦ rw (set, ensure_policy) refl
  ]

  roll_out-ok :
      (ns : Str) (spec : Spec) (keys : List ClientKey) (redis_url tls : Str) (s : S)
      → (roll_out K c marshal sha256 ns spec keys redis_url tls s).0 ≡ ok tt
      → (rendered : Str) × (marshal (render_config spec keys redis_url tls) ≡ some rendered)
        × (let map =
              patch_config_map K c ns (codes "gateway-config") rendered (sha256 rendered) s in
            let policy = policed ns spec.backends.namespace spec.network_policy map.1 in
            (map.0 ≡ ok tt)
            × (policy.0 ≡ ok tt)
            × ((patch_deployment_annotation K c ns (codes "gateway") (sha256 rendered) policy.1).0
                ≡ ok tt))
  unfolding roll_out after_map annotate
  roll_out-ok ns spec keys redis_url tls s h =
      elim (Option-cases (marshal (render_config spec keys redis_url tls))) [
        | inl failed ↦ absurd (cc (rw (failed, roll_out) at h))
        | inr (rendered, rendering) ↦
            let hash = sha256 rendered in
            let map = patch_config_map K c ns (codes "gateway-config") rendered hash s in
            let policy = ensure_policy K c marshal sha256 ns spec map.1 in
            let same = ensure_policy-policed ns spec map.1 in
            next-ok map config_map_failed (after_map K c marshal sha256 ns spec hash)
              (rw (rendering, roll_out) at h)
              (λ _ written h1.
                next-ok policy network_policy_failed (annotate K c marshal sha256 ns hash) h1
                  (λ _ checked h2.
                    next-ok (patch_deployment_annotation K c ns (codes "gateway") hash policy.1)
                      deployment_failed (λ _ s'. (ok tt, s')) h2
                      (λ _ annotated h3. (
                        rendered,
                        rendering,
                        (
                          written,
                          ap (λ r. r.0) (sym same) ∙ checked,
                          ap
                                (λ (r : Result OperationError (Unit {0}) × S).
                                  (patch_deployment_annotation K c ns (codes "gateway") hash r.1).0)
                                (sym same)
                              ∙ annotated,
                        ),
                      ))))
      ]

  -- A reconcile that succeeds has read the resource, its keys and the Redis URL, for which it takes none
  -- if there is no such key; has seen to the certificate of the issuer, if the resource names one; then
  -- has written into the ConfigMap the configuration rendered from the resource, these keys, this URL
  -- and the name of the TLS Secret that the resource calls for; has applied the network policy or asked
  -- for its removal, as the resource calls for; and then has annotated the Deployment with the hash of
  -- the text that it wrote.
  pub reconcile-IsRolledOut :
      (ns cr_name : Str) (s : S)
      → (reconcile K c marshal sha256 ns cr_name s).0 ≡ ok tt
      → IsRolledOut ns cr_name s
  unfolding reconcile after_spec after_keys
  reconcile-IsRolledOut ns cr_name s h =
      next-ok (fetch_cr K c ns cr_name s) fetch_cr_failed (after_spec K c marshal sha256 ns) h
        (λ spec fetched h1.
          let s1 = (fetch_cr K c ns cr_name s).1 in
          next-ok (fetch_client_keys K c ns spec.auth.client_keys_secret_ref s1) fetch_keys_failed
            (after_keys K c marshal sha256 ns spec) h1
            (λ keys keys_fetched h2.
              let s2 = (fetch_client_keys K c ns spec.auth.client_keys_secret_ref s1).1 in
              let (url, s3) =
                fetch_secret_key K c ns (codes "redis-credentials") (codes "redis_url") s2 in
              next-ok (ensure_tls K c marshal sha256 ns spec.tls s3) certificate_failed
                (roll_out K c marshal sha256 ns spec keys (url_or_empty url)) h2
                (λ tls secured h3.
                  let s4 = (ensure_tls K c marshal sha256 ns spec.tls s3).1 in
                  let (secret, certified, after) = ensure_tls-ok ns spec.tls s3 tls secured in
                  let (rendered, rendering, (written, policy, annotated)) =
                    roll_out-ok ns spec keys (url_or_empty url) tls s4 h3 in
                  record {
                    spec = spec;
                    fetched = fetched;
                    keys = keys;
                    keys_fetched = keys_fetched;
                    redis_url = url_or_empty url;
                    url_fetched = the_url-same url;
                    tls = tls;
                    tls_secret = secret;
                    certified = certified;
                    rendered = rendered;
                    rendering = rendering;
                    before_map = s4;
                    follows = after;
                    written = written;
                    policy = policy;
                    annotated = annotated;
                  })))
