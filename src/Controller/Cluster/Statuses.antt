-- ===== src/Controller/Cluster/Statuses.antt =====
-- cmd/controller/main.go: which answers of the cluster each write takes for success.
use secure_svc_gw.Prelude.{
  ◌≡◌, refl, ◌↔◌, ◌⊎◌, inl, inr, Bool, true, false, not, some, ◌++◌, ℤ, pos, eqb_ℤ, Str, codes, ok,
  Option-cases, Bool-cases,
}
use secure_svc_gw.Controller.Cluster.{Json, Client, Cluster, is_ok, call}
use secure_svc_gw.Controller.Cluster.Operations.{
  is_created, create, patch_or_create, reconcile_network_policy, patch_config_map,
}
use secure_svc_gw.Controller.Cluster.Bodies.{network_policy, config_map}

module _ {S : Type 0} (K : Cluster S) (c : Client) where
  -- A write succeeded: the PATCH was answered with a status that asks for no POST, or else the POST
  -- was answered with 200 or 201.
  abbrev pub IsWritten : (ℤ → Bool) → Str → Str → Json → S → Type 0
  IsWritten create_on path post_path body s =
      let (answer, s') = call K c (codes "PATCH") path (some body) s in
      (data_ : Str) × (status : ℤ) × (answer ≡ some (data_, status))
      × ((create_on status ≡ false)
          ⊎ ((created : Str) × (status' : ℤ) × ((call K c (codes "POST") post_path (some body) s').0
                ≡ some (created, status'))
              × (is_created status' ≡ true)))

  create-ok :
      (path : Str) (body : Json) (patched : ℤ) (s : S)
      → (create K c path body patched s).0 ≡ ok tt
      → (created : Str) × (status : ℤ) × ((call K c (codes "POST") path (some body) s).0
          ≡ some (created, status))
        × (is_created status ≡ true)
  unfolding create
  create-ok path body patched s h =
      elim (Option-cases (call K c (codes "POST") path (some body) s).0) [
        | inl lost ↦ absurd (cc (rw (lost, create) at h))
        | inr ((created, status), answered) ↦ elim (Bool-cases (is_created status)) [
          | inl good ↦ (created, status, answered, good)
          | inr bad ↦ absurd (cc (rw (answered, bad, create) at h))
        ]
      ]

  create_of_created :
      (path : Str) (body : Json) (patched : ℤ) (s : S) (created : Str) (status : ℤ)
      → (call K c (codes "POST") path (some body) s).0 ≡ some (created, status)
      → is_created status ≡ true
      → (create K c path body patched s).0 ≡ ok tt
  unfolding create
  create_of_created path body patched s created status answered good =
      rw (answered, good, create) refl

  patch_or_create-IsWritten :
      (create_on : ℤ → Bool) (path post_path : Str) (body : Json) (s : S)
      → ((patch_or_create K c create_on path post_path body s).0 ≡ ok tt)
        ↔ IsWritten create_on path post_path body s
  unfolding patch_or_create
  patch_or_create-IsWritten create_on path post_path body s = (
    λ h. elim (Option-cases (call K c (codes "PATCH") path (some body) s).0) [
      | inl lost ↦ absurd (cc (rw (lost, patch_or_create) at h))
      | inr ((data_, status), answered) ↦ elim (Bool-cases (create_on status)) [
        | inr settled ↦ (data_, status, answered, inl settled)
        | inl asks ↦ (
          data_,
          status,
          answered,
          inr (
              create-ok post_path body status (call K c (codes "PATCH") path (some body) s).1
                (rw (answered, asks, patch_or_create) at h)),
        )
      ]
    ],
    λ (data_, status, answered, way). elim way [
      | inl settled ↦ rw (answered, settled, patch_or_create) refl
      | inr (created, status', posted, good) ↦ elim (Bool-cases (create_on status)) [
        | inr settled ↦ rw (answered, settled, patch_or_create) refl
        | inl asks ↦
            rw (answered, asks, patch_or_create)
              (create_of_created post_path body status
                (call K c (codes "PATCH") path (some body) s).1 created status' posted good)
      ]
    ],
  )

  -- The ConfigMap counts as written exactly if its PATCH was answered with 200, or with another status
  -- and then the POST with 200 or 201.
  pub patch_config_map-IsWritten :
      (ns name gateway_yaml hash : Str) (s : S)
      → ((patch_config_map K c ns name gateway_yaml hash s).0 ≡ ok tt)
        ↔ IsWritten
            (λ status. not (is_ok status))
            ((codes "/api/v1/namespaces/" ++ ns ++ codes "/configmaps") ++ codes "/" ++ name)
            (codes "/api/v1/namespaces/" ++ ns ++ codes "/configmaps")
            (config_map ns name gateway_yaml hash)
            s
  unfolding patch_config_map
  patch_config_map-IsWritten ns name gateway_yaml hash s =
      patch_or_create-IsWritten (λ status. not (is_ok status)) _ _ _ s

  -- The network policy counts as reconciled exactly if its PATCH was answered with any status but 404,
  -- an error status included, or with 404 and then the POST with 200 or 201.
  pub reconcile_network_policy-IsWritten :
      (be_ns gw_ns : Str) (port : ℤ) (s : S)
      → ((reconcile_network_policy K c be_ns gw_ns port s).0 ≡ ok tt)
        ↔ IsWritten
            (λ status. eqb_ℤ status (pos 404))
            ((codes "/apis/networking.k8s.io/v1/namespaces/" ++ be_ns ++ codes "/networkpolicies")
              ++ codes "/backends-only-from-gateway")
            (codes "/apis/networking.k8s.io/v1/namespaces/" ++ be_ns ++ codes "/networkpolicies")
            (network_policy be_ns gw_ns port)
            s
  unfolding reconcile_network_policy
  reconcile_network_policy-IsWritten be_ns gw_ns port s =
      patch_or_create-IsWritten (λ status. eqb_ℤ status (pos 404)) _ _ _ s
