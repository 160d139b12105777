-- ===== src/Controller/Rendering.antt =====
-- cmd/controller/main.go: what renderConfig makes of the services of a spec.
use mathlib.Core.Option
use secure_svc_gw.Prelude.{
  ℕ, map, ◌++◌, codes, is_empty, zero, suc, ◌≡◌, refl, ap, ◌∙◌, Option, none, some, List, [], ◌∷◌,
  ℤ, pos, ltb_ℤ, arith, Str, get_elem?, if◌then◌else◌,
}
use secure_svc_gw.Config
use secure_svc_gw.Config.{ClientKey}
use secure_svc_gw.Controller.{
  Spec, ServiceSpec, next_port, render_service, render_services, render_config, address, decimal,
}

-- The ports of the services up to the index.
unfoldable pub ports_to : ℕ → List ServiceSpec → List ℤ
ports_to i [] = []
ports_to zero (svc ∷ services) = svc.port ∷ []
ports_to (suc i) (svc ∷ services) = svc.port ∷ ports_to i services

-- The last positive number of a list.
unfoldable pub last_positive : List ℤ → Option ℤ
last_positive [] = none
last_positive (p ∷ ports) = elim (last_positive ports) [
  | some later ↦ some later
  | none ↦ if ltb_ℤ (pos 0) p then some p else none
]

abbrev pub port_or : ℤ → List ℤ → ℤ
port_or start ports = elim (last_positive ports) [ none ↦ start | some p ↦ p ]

port_or-next :
    (port : ℤ) (svc : ServiceSpec) (ports : List ℤ)
    → port_or (next_port port svc) ports ≡ port_or port (svc.port ∷ ports)
unfolding next_port last_positive
port_or-next port svc ports = ground arith

get_elem?-render_services :
    (namespace : Str) (port : ℤ) (services : List ServiceSpec) (i : ℕ)
    → get_elem? (render_services namespace port services) i
      ≡ Option.map
          (render_service namespace (port_or port (ports_to i services)))
          (get_elem? services i)
unfolding render_services ports_to last_positive
get_elem?-render_services namespace port [] i = refl
get_elem?-render_services namespace port (svc ∷ services) zero =
    ap (λ p. some (render_service namespace p svc)) (port_or-next port svc [])
get_elem?-render_services namespace port (svc ∷ services) (suc i) =
    get_elem?-render_services namespace (next_port port svc) services i
    ∙ ap (λ p. Option.map (render_service namespace p) (get_elem? services i))
        (port_or-next port svc (ports_to i services))

-- A service as the documents of the resource describe its rendering, at a port.
abbrev pub described : Str → ℤ → ServiceSpec → Config.Service
described namespace port svc = record {
  name = svc.name;
  health_path = if is_empty svc.health_path then codes "/healthz" else svc.health_path;
  backends =
      map
        (λ id. record {
          id = id;
          addr =
              codes "https://"
              ++ id
              ++ codes "."
              ++ namespace
              ++ codes ".svc.cluster.local:"
              ++ decimal port;
        })
        svc.backends;
}

render_service-described :
    (namespace : Str) (port : ℤ) (svc : ServiceSpec)
    → render_service namespace port svc ≡ described namespace port svc
unfolding render_service address
render_service-described namespace port svc = refl

last_positive-append :
    (ports : List ℤ) (p : ℤ)
    → last_positive (ports ++ p ∷ []) ≡ (if ltb_ℤ (pos 0) p then some p else last_positive ports)
unfolding last_positive
last_positive-append [] p = refl
last_positive-append (q ∷ ports) p = ground (arith, last_positive-append ports p)

port_or-append :
    (ports : List ℤ) (svc : ServiceSpec)
    → next_port (port_or (pos 8443) ports) svc ≡ port_or (pos 8443) (ports ++ svc.port ∷ [])
unfolding next_port
port_or-append ports svc = ground (arith, last_positive-append ports svc.port)

-- The services, each at the last positive port of those set so far, `ports` before them included, or
-- 8443.
unfoldable pub described_all : Str → List ℤ → List ServiceSpec → List Config.Service
described_all namespace ports [] = []
described_all namespace ports (svc ∷ services) =
    described namespace (port_or (pos 8443) (ports ++ svc.port ∷ [])) svc
    ∷ described_all namespace (ports ++ svc.port ∷ []) services

pub render_services-described :
    (namespace : Str) (port : ℤ) (ports : List ℤ) (services : List ServiceSpec)
    → port ≡ port_or (pos 8443) ports
    → render_services namespace port services ≡ described_all namespace ports services
unfolding render_services described_all
render_services-described namespace port ports [] same = refl
render_services-described namespace port ports (svc ∷ services) same =
    let here : next_port port svc ≡ port_or (pos 8443) (ports ++ svc.port ∷ []) =
      ap (λ p. next_port p svc) same ∙ port_or-append ports svc in
    ap (λ s. s ∷ render_services namespace (next_port port svc) services)
      (render_service-described namespace (next_port port svc) svc
        ∙ ap (λ p. described namespace p svc) here)
    ∙ ap (λ rest. described namespace (port_or (pos 8443) (ports ++ svc.port ∷ [])) svc ∷ rest)
        (render_services-described namespace (next_port port svc) (ports ++ svc.port ∷ []) services
          here)

-- The rendered configuration has the services of the spec in their order, and no other: the one at an
-- index has the name, the health path or /healthz, and the backends of the spec, each under its ID and
-- at https://<id>.<namespace>.svc.cluster.local:<port>, where the port is the last positive port of
-- the services up to it, 8443 if there is none.
pub get_elem?-render_config :
    (s : Spec) (keys : List ClientKey) (redis_url tls : Str) (i : ℕ)
    → get_elem? (render_config s keys redis_url tls).services i
      ≡ Option.map
          (described s.backends.namespace (port_or (pos 8443) (ports_to i s.services)))
          (get_elem? s.services i)
unfolding render_config render_service address
get_elem?-render_config s keys redis_url tls i =
    get_elem?-render_services s.backends.namespace (pos 8443) s.services i
