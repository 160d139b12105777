-- ===== src/Controller/Cluster/Operations.antt =====
-- cmd/controller/main.go: what reconcile reads and writes in the cluster.
use secure_svc_gw.Prelude.{
  Bool, not, ◌||◌, Option, none, some, List, [], ◌∷◌, ◌++◌, ℤ, pos, eqb_ℤ, Str, codes, Map, lookup,
  Result, ok, err, or_else, ◌>>=◌, if◌then◌else◌,
}
use secure_svc_gw.Config.{ClientKey}
use secure_svc_gw.Controller.{Spec, IssuerRef}
use secure_svc_gw.Controller.Cluster.{
  Json, text, object_of, Client, Cluster, OperationError, request_failed, bad_json, missing_key,
  bad_status, not_created, is_ok, call, get_ok,
}
use secure_svc_gw.Controller.Cluster.Bodies.{network_policy, certificate, config_map}

abbrev secret_path : Str → Str → Str
secret_path ns name = codes "/api/v1/namespaces/" ++ ns ++ codes "/secrets/" ++ name

abbrev pub is_created : ℤ → Bool
is_created status = is_ok status || eqb_ℤ status (pos 201)

-- The loop of fetchClientKeys, which skips what is no client key. Go visits the keys of the Secret in
-- any order: here, in that of the list.
parse_keys : (Str → Option ClientKey) → Map Str → List ClientKey
parse_keys unmarshal [] = []
parse_keys unmarshal ((name, value) ∷ entries) =
    let rest = parse_keys unmarshal entries in
    elim (unmarshal value) [ none ↦ rest | some key ↦ key ∷ rest ]

-- The patch of patchDeploymentAnnotation.
abbrev pub deployment_patch : Str → Json
deployment_patch hash =
    let annotations = object_of ((codes "gateway.secure-svc.io/config-hash", text hash) ∷ []) in
    let metadata = object_of ((codes "annotations", annotations) ∷ []) in
    let template = object_of ((codes "metadata", metadata) ∷ []) in
    let spec = object_of ((codes "template", template) ∷ []) in
    object_of ((codes "spec", spec) ∷ [])

module _ {S : Type 0} (K : Cluster S) (c : Client) where
  unfoldable pub fetch_cr : Str → Str → S → Result OperationError Spec × S
  unfolding get_ok
  fetch_cr ns name s =
      let (answer, s') =
        get_ok K c
          (codes "/apis/gateway.secure-svc.io/v1alpha1/namespaces/"
            ++ ns
            ++ codes "/secureservicegateways/"
            ++ name)
          s in
      (answer >>= λ raw. or_else (K.unmarshal_cr raw) bad_json, s')

  unfoldable pub fetch_client_keys : Str → Str → S → Result OperationError (List ClientKey) × S
  unfolding get_ok parse_keys
  fetch_client_keys ns secret_name s =
      let (answer, s') = get_ok K c (secret_path ns secret_name) s in
      (
        answer >>= λ raw. or_else (K.unmarshal_secret raw) bad_json >>= λ secret.
            ok (parse_keys K.unmarshal_key secret),
        s',
      )

  unfoldable pub fetch_secret_key : Str → Str → Str → S → Result OperationError Str × S
  unfolding get_ok
  fetch_secret_key ns secret_name key s =
      let (answer, s') = get_ok K c (secret_path ns secret_name) s in
      (
        answer >>= λ raw. or_else (K.unmarshal_secret raw) bad_json >>= λ secret.
            or_else (lookup key secret) missing_key,
        s',
      )

  -- The POST after a PATCH that had the status `patched`.
  unfoldable pub create : Str → Json → ℤ → S → Result OperationError (Unit {0}) × S
  unfolding call
  create path body patched s =
      let (answer, s') = call K c (codes "POST") path (some body) s in
      elim answer [
        | none ↦ (err (not_created patched (pos 0)), s')
        | some (_, status) ↦
            (if is_created status then ok tt else err (not_created patched status), s')
      ]

  -- A PATCH, with a POST after it when its status is one to `create_on`.
  unfoldable pub patch_or_create :
      (ℤ → Bool) → Str → Str → Json → S → Result OperationError (Unit {0}) × S
  unfolding call create
  patch_or_create create_on path post_path body s =
      let (answer, s') = call K c (codes "PATCH") path (some body) s in
      elim answer [
        | none ↦ (err request_failed, s')
        | some (_, status) ↦
            if create_on status then create post_path body status s' else (ok tt, s')
      ]

  unfoldable pub reconcile_network_policy : Str → Str → ℤ → S → Result OperationError (Unit {0}) × S
  unfolding patch_or_create
  reconcile_network_policy be_ns gw_ns port s =
      let policies =
        codes "/apis/networking.k8s.io/v1/namespaces/" ++ be_ns ++ codes "/networkpolicies" in
      patch_or_create (λ status. eqb_ℤ status (pos 404))
        (policies ++ codes "/backends-only-from-gateway") policies (network_policy be_ns gw_ns port)
        s

  -- The answer is not looked at, but for an error of the request.
  unfoldable pub delete_network_policy : Str → S → Result OperationError (Unit {0}) × S
  unfolding call
  delete_network_policy be_ns s =
      let (answer, s') =
        call K c (codes "DELETE")
          (codes "/apis/networking.k8s.io/v1/namespaces/"
            ++ be_ns
            ++ codes "/networkpolicies/backends-only-from-gateway")
          none s in
      elim answer [ none ↦ (err request_failed, s') | some _ ↦ (ok tt, s') ]

  unfoldable pub reconcile_certificate : Str → IssuerRef → S → Result OperationError (Unit {0}) × S
  unfolding patch_or_create
  reconcile_certificate ns issuer s =
      let certificates =
        codes "/apis/cert-manager.io/v1/namespaces/" ++ ns ++ codes "/certificates" in
      patch_or_create (λ status. not (is_ok status)) (certificates ++ codes "/gateway-listener-tls")
        certificates (certificate ns issuer) s

  unfoldable pub patch_config_map : Str → Str → Str → Str → S → Result OperationError (Unit {0}) × S
  unfolding patch_or_create
  patch_config_map ns name gateway_yaml hash s =
      let maps = codes "/api/v1/namespaces/" ++ ns ++ codes "/configmaps" in
      patch_or_create (λ status. not (is_ok status)) (maps ++ codes "/" ++ name) maps
        (config_map ns name gateway_yaml hash) s

  unfoldable pub patch_deployment_annotation :
      Str → Str → Str → S → Result OperationError (Unit {0}) × S
  unfolding call
  patch_deployment_annotation ns deploy_name hash s =
      let (answer, s') =
        call K c (codes "PATCH")
          (codes "/apis/apps/v1/namespaces/" ++ ns ++ codes "/deployments/" ++ deploy_name)
          (some (deployment_patch hash)) s in
      elim answer [
        | none ↦ (err request_failed, s')
        | some (_, status) ↦ (if is_ok status then ok tt else err (bad_status status), s')
      ]
