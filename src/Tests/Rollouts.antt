-- ===== src/Tests/Rollouts.antt =====
-- Runs of the controller.
use mathlib.Core.Option
use secure_svc_gw.Prelude.{
  All, is_empty, false, ◌≡◌, refl, ◌↔◌, true, false, not, none, some, List, [], ◌∷◌, ◌++◌, pos,
  eqb_ℤ, Str, codes, get_elem?, ok,
}
use secure_svc_gw.Controller.{Spec, ServiceSpec, render_config, address}
use secure_svc_gw.Controller.Digits.{IsDigit, value_from, address-port}
use secure_svc_gw.Controller.Rendering.{
  described, ports_to, port_or, last_positive, get_elem?-render_config,
}
use secure_svc_gw.Controller.Cluster.{Client, Cluster, is_ok}
use secure_svc_gw.Controller.Cluster.Operations.{
  fetch_cr, fetch_client_keys, patch_deployment_annotation, reconcile_network_policy,
  patch_config_map,
}
use secure_svc_gw.Controller.Cluster.Bodies.{network_policy, config_map}
use secure_svc_gw.Controller.Cluster.Statuses.{
  IsWritten, patch_config_map-IsWritten, reconcile_network_policy-IsWritten,
}
use secure_svc_gw.Controller.Reconcile.{reconcile}
use secure_svc_gw.Controller.Reconcile.Rollout.{IsRolledOut, reconcile-IsRolledOut}

abbrev first : ServiceSpec
first = record { name = codes "a"; health_path = []; port = pos 9000; backends = codes "a1" ∷ [] }

abbrev second : ServiceSpec
second = record {
  name = codes "b";
  health_path = codes "/up";
  port = pos 0;
  backends = codes "b1" ∷ [];
}

abbrev spec : Spec
spec = record {
  auth = record {
    issuer = codes "idp";
    audience = codes "gateway";
    nonce_ttl = codes "5m";
    client_keys_secret_ref = codes "keys";
  };
  tls = none;
  backends = record {
    namespace = codes "backends";
    ca_secret_ref = [];
    client_cert_secret_ref = [];
    fail_threshold = pos 0;
    pass_threshold = pos 0;
    health_interval = [];
  };
  services = first ∷ second ∷ [];
  routes = record { prefix = codes "/a"; service = codes "a"; required_scope = [] } ∷ [];
  network_policy = some (record { enabled = true; backends_port = pos 0 });
}

address-port_example :
    (digits : Str) × (address (codes "be") (pos 8443) (codes "a1")
      ≡ codes "https://"
        ++ codes "a1"
        ++ codes "."
        ++ codes "be"
        ++ codes ".svc.cluster.local:"
        ++ digits)
    × (is_empty digits ≡ false)
    × All IsDigit digits
    × (value_from 0 digits ≡ 8443)
address-port_example = address-port (codes "be") (codes "a1") 8443

get_elem?-render_config_example :
    get_elem? (render_config spec [] [] []).services 1
    ≡ Option.map
        (described spec.backends.namespace (port_or (pos 8443) (ports_to 1 spec.services)))
        (get_elem? spec.services 1)
get_elem?-render_config_example = get_elem?-render_config spec [] [] [] 1

-- The second service, which sets no port, is rendered at the port of the first.
port_carried : port_or (pos 8443) (ports_to 1 spec.services) ≡ pos 9000
unfolding ports_to last_positive
port_carried = refl

-- A cluster that answers everything with 200 and counts the requests.
abbrev pub cluster : Cluster (List Str)
cluster = record {
  new_request_fails = λ method url. false;
  respond = λ request s. (some (codes "{}", pos 200), request.url ∷ s);
  unmarshal_cr = λ raw. some spec;
  unmarshal_secret = λ raw. some [];
  unmarshal_key = λ raw. none;
}

abbrev pub client : Client
client = record { base = codes "https://k"; token = codes "t" }

patch_config_map-IsWritten_example :
    ((patch_config_map cluster client (codes "gw") (codes "m") (codes "y") (codes "h") []).0
      ≡ ok tt)
    ↔ IsWritten cluster client
        (λ status. not (is_ok status))
        ((codes "/api/v1/namespaces/" ++ codes "gw" ++ codes "/configmaps")
          ++ codes "/"
          ++ codes "m")
        (codes "/api/v1/namespaces/" ++ codes "gw" ++ codes "/configmaps")
        (config_map (codes "gw") (codes "m") (codes "y") (codes "h"))
        []
patch_config_map-IsWritten_example =
    patch_config_map-IsWritten cluster client (codes "gw") (codes "m") (codes "y") (codes "h") []

-- A cluster that refuses everything with 403.
abbrev forbidding : Cluster (List Str)
forbidding = record cluster { respond = λ request s. (some (codes "{}", pos 403), request.url ∷ s) }

policy_refused :
    (reconcile_network_policy forbidding client (codes "be") (codes "gw") (pos 8443) []).0 ≡ ok tt
unfolding reconcile_network_policy
policy_refused = refl

reconcile_network_policy-IsWritten_example :
    ((reconcile_network_policy forbidding client (codes "be") (codes "gw") (pos 8443) []).0 ≡ ok tt)
    ↔ IsWritten forbidding client
        (λ status. eqb_ℤ status (pos 404))
        ((codes "/apis/networking.k8s.io/v1/namespaces/" ++ codes "be" ++ codes "/networkpolicies")
          ++ codes "/backends-only-from-gateway")
        (codes "/apis/networking.k8s.io/v1/namespaces/" ++ codes "be" ++ codes "/networkpolicies")
        (network_policy (codes "be") (codes "gw") (pos 8443))
        []
reconcile_network_policy-IsWritten_example =
    reconcile_network_policy-IsWritten forbidding client (codes "be") (codes "gw") (pos 8443) []

reconciled :
    (reconcile cluster client
      (λ config. some (codes "yaml"))
      (λ s. s)
      (codes "gw")
      (codes "main")
      []).0
    ≡ ok tt
unfolding reconcile fetch_cr fetch_client_keys patch_config_map reconcile_network_policy
    patch_deployment_annotation
reconciled = refl

reconcile-IsRolledOut_example :
    IsRolledOut cluster client
      (λ config. some (codes "yaml"))
      (λ s. s)
      (codes "gw")
      (codes "main")
      []
reconcile-IsRolledOut_example =
    reconcile-IsRolledOut cluster client (λ config. some (codes "yaml")) (λ s. s) (codes "gw")
      (codes "main") [] reconciled
