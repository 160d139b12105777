-- ===== src/Controller/Cluster/Bodies.antt =====
-- cmd/controller/main.go: the bodies of what the controller writes.
use secure_svc_gw.Prelude.{List, [], ◌∷◌, ◌++◌, ℤ, Str, codes}
use secure_svc_gw.Controller.{IssuerRef}
use secure_svc_gw.Controller.Cluster.{Json, text, number, object_of, array_of}

abbrev pub managed_by : Json
managed_by =
    object_of
      ((codes "gateway.secure-svc.io/managed-by", text (codes "secure-svc-gw-controller")) ∷ [])

abbrev pub component : Str → Str × Json
component name = (codes "app.kubernetes.io/component", text name)

abbrev pub labels : List (Str × Json) → Json
labels entries = object_of ((codes "matchLabels", object_of entries) ∷ [])

-- The body of reconcileNetworkPolicy.
abbrev pub network_policy : Str → Str → ℤ → Json
network_policy be_ns gw_ns port =
    let part_of : Str × Json = (codes "app.kubernetes.io/part-of", text (codes "secure-svc-gw")) in
    object_of (
      (codes "apiVersion", text (codes "networking.k8s.io/v1"))
      ∷ (codes "kind", text (codes "NetworkPolicy"))
      ∷ (
        codes "metadata",
        object_of (
            (codes "name", text (codes "backends-only-from-gateway"))
            ∷ (codes "namespace", text be_ns)
            ∷ (codes "annotations", managed_by)
            ∷ []),
      )
      ∷ (
        codes "spec",
        object_of (
            (codes "podSelector", labels (part_of ∷ component (codes "backend") ∷ []))
            ∷ (codes "policyTypes", array_of (text (codes "Ingress") ∷ []))
            ∷ (
              codes "ingress",
              array_of (
                  object_of (
                    (
                      codes "from",
                      array_of (
                          object_of (
                            (
                              codes "namespaceSelector",
                              labels ((codes "kubernetes.io/metadata.name", text gw_ns) ∷ []),
                            )
                            ∷ (
                              codes "podSelector",
                              labels (part_of ∷ component (codes "gateway") ∷ []),
                            )
                            ∷ [])
                          ∷ []),
                    )
                    ∷ (
                      codes "ports",
                      array_of (
                          object_of (
                            (codes "protocol", text (codes "TCP"))
                            ∷ (codes "port", number port)
                            ∷ [])
                          ∷ []),
                    )
                    ∷ [])
                  ∷ []),
            )
            ∷ []),
      )
      ∷ [])

-- The body of reconcileCertificate.
abbrev pub certificate : Str → IssuerRef → Json
certificate ns issuer = object_of (
    (codes "apiVersion", text (codes "cert-manager.io/v1"))
    ∷ (codes "kind", text (codes "Certificate"))
    ∷ (
      codes "metadata",
      object_of (
          (codes "name", text (codes "gateway-listener-tls"))
          ∷ (codes "namespace", text ns)
          ∷ (codes "annotations", managed_by)
          ∷ []),
    )
    ∷ (
      codes "spec",
      object_of (
          (codes "secretName", text (codes "gateway-listener-tls"))
          ∷ (codes "duration", text (codes "2160h"))
          ∷ (codes "renewBefore", text (codes "360h"))
          ∷ (
            codes "dnsNames",
            array_of (
                text (codes "gateway." ++ ns ++ codes ".svc.cluster.local")
                ∷ text (codes "gateway." ++ ns ++ codes ".svc")
                ∷ []),
          )
          ∷ (
            codes "issuerRef",
            object_of ((codes "name", text issuer.name) ∷ (codes "kind", text issuer.kind) ∷ []),
          )
          ∷ []),
    )
    ∷ [])

-- The body of patchConfigMap.
abbrev pub config_map : Str → Str → Str → Str → Json
config_map ns name gateway_yaml hash = object_of (
    (codes "apiVersion", text (codes "v1"))
    ∷ (codes "kind", text (codes "ConfigMap"))
    ∷ (
      codes "metadata",
      object_of (
          (codes "name", text name)
          ∷ (codes "namespace", text ns)
          ∷ (
            codes "annotations",
            object_of ((codes "gateway.secure-svc.io/config-hash", text hash) ∷ []),
          )
          ∷ []),
    )
    ∷ (codes "data", object_of ((codes "gateway.yaml", text gateway_yaml) ∷ []))
    ∷ [])
