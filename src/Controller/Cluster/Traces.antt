-- ===== src/Controller/Cluster/Traces.antt =====
-- cmd/controller/main.go: which requests the operations send to the API server.
use secure_svc_gw.Prelude.{
  ◌≡◌, refl, sym, ap, ◌∙◌, ◌⊎◌, inl, inr, Bool, Option, some, List, [], ◌∷◌, ◌++◌, ℤ, Str, codes,
  All, Bool-cases, Option-cases,
}
use mathlib.Core.List.{append_assoc}
use secure_svc_gw.Controller.Cluster.{Json, Client, Cluster, ApiRequest, call}
use secure_svc_gw.Controller.Cluster.Operations.{create, patch_or_create}

-- The API server with the requests that it was sent, the latest first.
abbrev pub Traced : Type 0 → Type 0
Traced S = S × List ApiRequest

abbrev traced_respond :
    {S : Type 0} → Cluster S → ApiRequest → Traced S → Option (Str × ℤ) × Traced S
traced_respond K q (s, t) = let (answer, s') = K.respond q s in (answer, (s', q ∷ t))

abbrev pub traced : {S : Type 0} → Cluster S → Cluster (Traced S)
traced K = record {
  new_request_fails = K.new_request_fails;
  respond = traced_respond K;
  unmarshal_cr = K.unmarshal_cr;
  unmarshal_secret = K.unmarshal_secret;
  unmarshal_key = K.unmarshal_key;
}

-- What was sent since, each request with a property.
pub record Adds {S : Type 0} (P : ApiRequest → Type 0) (before after : Traced S) : Type 0 where
  pub new : List ApiRequest
  pub latest : after.1 ≡ new ++ before.1
  pub each : All P new

All-both :
    (P Q : ApiRequest → Type 0) (xs ys : List ApiRequest)
    → ((q : ApiRequest) → P q → Q q)
    → All Q xs
    → All P ys
    → All Q (xs ++ ys)
All-both P Q [] [] f all more = tt
All-both P Q [] (y ∷ ys) f all (p, more) = (f y p, All-both P Q [] ys f all more)
All-both P Q (x ∷ xs) ys f (q, all) more = (q, All-both P Q xs ys f all more)

module _ {S : Type 0} where
  pub Adds-trans :
      (P Q : ApiRequest → Type 0) (a b c : Traced S)
      → ((q : ApiRequest) → P q → Q q)
      → Adds P a b
      → Adds Q b c
      → Adds Q a c
  Adds-trans P Q a b c f first then_ = record {
    new = then_.new ++ first.new;
    latest =
        then_.latest
        ∙ ap (λ rest. then_.new ++ rest) first.latest
        ∙ sym (append_assoc then_.new first.new a.1);
    each = All-both P Q then_.new first.new f then_.each first.each;
  }

  pub Adds-map :
      (P Q : ApiRequest → Type 0) (a b : Traced S)
      → ((q : ApiRequest) → P q → Q q)
      → Adds P a b
      → Adds Q a b
  Adds-map P Q a b f first =
      Adds-trans P Q a b b f first (record { new = []; latest = refl; each = tt })

  pub Adds-refl : (P : ApiRequest → Type 0) (a : Traced S) → Adds P a a
  Adds-refl P a = record { new = []; latest = refl; each = tt }

-- The method and the path of a request.
abbrev pub Asks : Client → Str → Str → ApiRequest → Type 0
Asks c method path q = (q.method ≡ method) × (q.url ≡ c.base ++ path)

-- A PATCH of the one path, or a POST to the other one.
abbrev pub Writes : Client → Str → Str → ApiRequest → Type 0
Writes c path post_path q = Asks c (codes "PATCH") path q ⊎ Asks c (codes "POST") post_path q

module _ {S : Type 0} (K : Cluster S) (c : Client) where
  pub call-Adds :
      (method path : Str) (body : Option Json) (s : Traced S)
      → Adds (Asks c method path) s (call (traced K) c method path body s).1
  unfolding call
  call-Adds method path body (s, t) =
      elim (Bool-cases (K.new_request_fails method (c.base ++ path))) [
        | inl bad ↦ rw (bad, call) (Adds-refl (Asks c method path) (s, t))
        | inr good ↦
            rw (good, call) (record { new = _ ∷ []; latest = refl; each = ((refl, refl), tt) })
      ]

  create-state :
      (path : Str) (body : Json) (patched : ℤ) (s : Traced S)
      → (create (traced K) c path body patched s).1
        ≡ (call (traced K) c (codes "POST") path (some body) s).1
  unfolding create
  create-state path body patched s =
      elim (Option-cases (call (traced K) c (codes "POST") path (some body) s).0) [
        | inl lost ↦ rw (lost, create) refl
        | inr (answer, answered) ↦ rw (answered, create) refl
      ]

  pub patch_or_create-Adds :
      (create_on : ℤ → Bool) (path post_path : Str) (body : Json) (s : Traced S)
      → Adds
          (Writes c path post_path)
          s
          (patch_or_create (traced K) c create_on path post_path body s).1
  unfolding patch_or_create
  patch_or_create-Adds create_on path post_path body s =
      let patched =
        Adds-map (Asks c (codes "PATCH") path) (Writes c path post_path) s _ (λ q a. inl a)
          (call-Adds (codes "PATCH") path (some body) s) in
      elim (Option-cases (call (traced K) c (codes "PATCH") path (some body) s).0) [
        | inl lost ↦ rw (lost, patch_or_create) patched
        | inr ((data_, status), answered) ↦ elim (Bool-cases (create_on status)) [
          | inr settled ↦ rw (answered, settled, patch_or_create) patched
          | inl asks ↦
              let s' = (call (traced K) c (codes "PATCH") path (some body) s).1 in
              rw (answered, asks, patch_or_create, create-state post_path body status s')
                (Adds-trans (Writes c path post_path) (Writes c path post_path) s s' _ (λ q w. w)
                  patched
                  (Adds-map (Asks c (codes "POST") post_path) (Writes c path post_path) s' _
                    (λ q a. inr a) (call-Adds (codes "POST") post_path (some body) s')))
        ]
      ]
