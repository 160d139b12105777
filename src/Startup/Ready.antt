-- ===== src/Startup/Ready.antt =====
-- cmd/gateway/main.go: what a start that succeeds has built.
use mathlib.Core.List.{append_assoc, append-nil}
use secure_svc_gw.Prelude.{
  ℕ, suc, Bool, false, Option, ap, if◌then◌else◌, ◌≡◌, ◌≢◌, refl, sym, subst, ◌∙◌, ◌⊎◌, inl, inr,
  true, none, some, List, [], ◌∷◌, ◌++◌, arith, pos, Str, ◌==◌, second, ◌*◌, lookup, lookup-insert,
  Result, ok, err, on_ok, Bool-cases,
}
use secure_svc_gw.Config.{Config, Service}
use secure_svc_gw.Lb.{new_pool}
use secure_svc_gw.Lb.Floats.{Float}
use secure_svc_gw.Health.{new_checker}
use secure_svc_gw.Health.Probes.{Prober, new_prober}
use secure_svc_gw.Proxy.Tls.{
  Pki, HttpClient, TlsConfig, backend_tls, new_backend_client, IsBackendTls, backend_tls_sound,
}
use secure_svc_gw.Startup.{pools_from}
use secure_svc_gw.Startup.Served.{is_configured}
use secure_svc_gw.Startup.Boot.{
  Exit, tls_failed, exit_with, Fleet, health_path_of, add_service, add_services,
}

pub exit_with-ok :
    {E A : Type 0} (why : E → Exit) (r : Result E A) (a : A) → exit_with why r ≡ ok a → r ≡ ok a
exit_with-ok why (ok b) a h = cc
exit_with-ok why (err e) a h = absurd (cc)

-- The configuration of the connections to a service: it trusts the CA of the configuration only,
-- presents the certificate of the gateway, and asks for the name of the service.
abbrev pub IsFor : (P : Pki) → Config → Str → TlsConfig P → Type 0
IsFor P cfg name tls =
    IsBackendTls P cfg.ca_cert_path cfg.gateway_cert_path cfg.gateway_key_path name tls

eq_of_test : (s t : Str) → (s == t) ≡ true → s ≡ t
eq_of_test s t h = ground arith

-- The index of the last service with the name, counted from `n`.
unfoldable pub last_index : Str → ℕ → List Service → Option ℕ
last_index name n [] = none
last_index name n (svc ∷ services) = elim (last_index name (suc n) services) [
  | some k ↦ some k
  | none ↦ if name == svc.name then some n else none
]

abbrev pub or_before : Option ℕ → Option ℕ → Option ℕ
or_before (some k) before = some k
or_before none before = before

or_before-next :
    (later : Option ℕ) (here : Bool) (n : ℕ) (before : Option ℕ)
    → or_before later (if here then some n else before)
      ≡ or_before (elim later [ some k ↦ some k | none ↦ if here then some n else none ]) before
or_before-next (some k) here n before = refl
or_before-next none true n before = refl
or_before-next none false n before = refl

module _ {F : Type 0} ⦃float : Float F⦄ (P : Pki) (cfg : Config) where
  -- One checker per service, in the order of the services, each with a pool of its own number.
  pub AreProbers : ℕ → List Service → List (ℕ × Prober P F) → Type 0
  AreProbers n [] [] = Unit
  AreProbers n (svc ∷ services) ((id, p) ∷ probers) =
      (id ≡ n)
      × (p.checker ≡ new_checker (new_pool svc.name svc.backends))
      × IsFor P cfg svc.name p.client.tls
      × (p.health_path ≡ health_path_of svc)
      × (p.interval ≡ pos (2 * second))
      × AreProbers (suc n) services probers
  AreProbers _ _ _ = ⊥

  -- Every client is one for the service under whose name it stands.
  abbrev pub AreClients : Fleet P F → Type 0
  AreClients fleet =
      (name : Str) (c : HttpClient P) → lookup name fleet.clients ≡ some c → IsFor P cfg name c.tls

  add_service-AreClients :
      (svc : Service) (tls : TlsConfig P) (fleet : Fleet P F)
      → IsFor P cfg svc.name tls
      → AreClients fleet
      → AreClients (add_service P svc tls fleet)
  unfolding add_service new_backend_client
  add_service-AreClients svc tls fleet right all name c found =
      elim (Bool-cases (name == svc.name)) [
        | inl same ↦
            let made : some (new_backend_client tls) ≡ some c =
              sym (rw same at (lookup-insert name svc.name (new_backend_client tls) fleet.clients))
              ∙ found in
            let client : new_backend_client tls ≡ c = cc made in
            subst (λ x. IsFor P cfg name x.tls) client
              (subst (λ n. IsFor P cfg n tls) (sym (eq_of_test name svc.name same)) right)
        | inr other ↦ all name c (
            sym (rw other at (lookup-insert name svc.name (new_backend_client tls) fleet.clients))
            ∙ found)
      ]

  still_known :
      (svc : Service) (services : List Service) (tls : TlsConfig P) (fleet : Fleet P F) (name : Str)
      → (is_configured name (svc ∷ services) ≡ true) ⊎ (lookup name fleet.clients ≢ none)
      → (is_configured name services ≡ true)
        ⊎ (lookup name (add_service P svc tls fleet).clients ≢ none)
  unfolding add_service
  still_known svc services tls fleet name known =
      let law = lookup-insert name svc.name (new_backend_client tls) fleet.clients in
      elim (Bool-cases (name == svc.name)) [
        | inl same ↦ inr (λ missing. cc (missing, (rw same at law)))
        | inr other ↦ elim known [
          | inl e ↦ inl (rw other at e)
          | inr there ↦ inr (λ missing. there (sym (rw other at law) ∙ missing))
        ]
      ]

  -- The client of a service stays when more are added, though it may be replaced.
  pub add_services-has :
      (services : List Service) (fleet fleet' : Fleet P F) (name : Str)
      → add_services P cfg services fleet ≡ ok fleet'
      → (is_configured name services ≡ true) ⊎ (lookup name fleet.clients ≢ none)
      → lookup name fleet'.clients ≢ none
  unfolding add_services add_service
  add_services-has [] fleet fleet' name h known = elim known [
    | inl e ↦ absurd (cc)
    | inr there ↦ let same : fleet ≡ fleet' = cc in rw (← same) there
  ]
  add_services-has (svc ∷ services) fleet fleet' name h known =
      on_ok
        (exit_with (tls_failed svc.name)
          (backend_tls P cfg.ca_cert_path cfg.gateway_cert_path cfg.gateway_key_path svc.name))
        (λ tls. add_services P cfg services (add_service P svc tls fleet)) h
        λ tls made rest.
          add_services-has services (add_service P svc tls fleet) fleet' name rest
            (still_known svc services tls fleet name known)

  -- What the loop over the services leaves when it succeeds.
  pub record AreAdded (services : List Service) (fleet fleet' : Fleet P F) : Type 0 where
    pub pools : fleet'.pools ≡ pools_from services fleet.pools
    pub ids :
        (name : Str)
        → lookup name fleet'.pool_ids
          ≡ or_before (last_index name fleet.made services) (lookup name fleet.pool_ids)
    pub clients : AreClients fleet'
    pub new : List (ℕ × Prober P F)
    pub probers : fleet'.probers ≡ fleet.probers ++ new
    pub probing : AreProbers fleet.made services new

  add_more :
      (svc : Service) (tls : TlsConfig P) (fleet fleet' : Fleet P F) (services : List Service)
      → IsFor P cfg svc.name tls
      → AreAdded services (add_service P svc tls fleet) fleet'
      → AreAdded (svc ∷ services) fleet fleet'
  unfolding add_service pools_from AreProbers new_prober last_index
  add_more svc tls fleet fleet' services right more = record {
    pools = more.pools;
    ids = λ name.
        more.ids name
        ∙ ap (or_before (last_index name (suc fleet.made) services))
            (lookup-insert name svc.name fleet.made fleet.pool_ids)
        ∙ or_before-next (last_index name (suc fleet.made) services) (name == svc.name) fleet.made
            (lookup name fleet.pool_ids);
    clients = more.clients;
    new =
        (
          fleet.made,
          new_prober (new_pool svc.name svc.backends) tls (health_path_of svc) (pos (2 * second)),
        )
        ∷ more.new;
    probers = more.probers ∙ append_assoc fleet.probers _ more.new;
    probing = (refl, refl, right, refl, refl, more.probing);
  }

  pub add_services-AreAdded :
      (services : List Service) (fleet fleet' : Fleet P F)
      → add_services P cfg services fleet ≡ ok fleet'
      → AreClients fleet
      → AreAdded services fleet fleet'
  unfolding add_services pools_from AreProbers last_index
  add_services-AreAdded [] fleet fleet' h all =
      let same : fleet ≡ fleet' = cc in
      subst (AreAdded [] fleet) same (record {
        pools = refl;
        ids = λ name. refl;
        clients = all;
        new = [];
        probers = sym (append-nil fleet.probers);
        probing = tt;
      })
  add_services-AreAdded (svc ∷ services) fleet fleet' h all =
      on_ok
        (exit_with (tls_failed svc.name)
          (backend_tls P cfg.ca_cert_path cfg.gateway_cert_path cfg.gateway_key_path svc.name))
        (λ tls. add_services P cfg services (add_service P svc tls fleet)) h
        λ tls made rest.
          let right = backend_tls_sound P _ _ _ svc.name tls (exit_with-ok _ _ tls made) in
          add_more svc tls fleet fleet' services right (
            add_services-AreAdded services (add_service P svc tls fleet) fleet' rest
              (add_service-AreClients svc tls fleet right all))
