-- ===== src/Artifacts/Names.antt =====
-- cmd/gen-artifacts/main.go: the host names that the certificates carry.
use secure_svc_gw.Prelude.{
  ℕ, suc, ◌≡◌, refl, ap, ◌∙◌, ◌⊎◌, inl, inr, Bool, true, false, not, ◌&&◌, ◌||◌, List, [], ◌∷◌,
  ◌++◌, Str, Str-discrete, codes, ◌==◌, All, arith, if◌then◌else◌,
}
use secure_svc_gw.Artifacts.{
  ServiceSpec, ClientSpec, Random, Certificate, must_ca, must_leaf, legit_hosts, service_sans,
}
use secure_svc_gw.Artifacts.Files.{
  Content, cert_pem, ec_key_pem, client_json, text, File, service_files, client_files, rogue_draw,
  root, gateway_files, rogue_files, config_file, artifacts,
}

abbrev pub contains : Str → List Str → Bool
contains h [] = false
contains h (x ∷ hosts) = h == x || contains h hosts

legit_one :
    (h x llm4 : Str) (rest hosts : Bool)
    → rest ≡ (hosts && not (h == llm4))
    → (if x == llm4 then rest else (h == x || rest)) ≡ ((h == x || hosts) && not (h == llm4))
legit_one h x llm4 rest hosts e = ground arith

contains-if :
    (h x : Str) (skip : Bool) (hosts : List Str)
    → contains h (if skip then hosts else x ∷ hosts)
      ≡ (if skip then contains h hosts else (h == x || contains h hosts))
contains-if h x true hosts = refl
contains-if h x false hosts = refl

contains-legit_hosts :
    (h : Str) (hosts : List Str)
    → contains h (legit_hosts hosts) ≡ (contains h hosts && not (h == codes "llm-4"))
unfolding legit_hosts
contains-legit_hosts h [] = refl
contains-legit_hosts h (x ∷ hosts) =
    contains-if h x (x == codes "llm-4") (legit_hosts hosts)
    ∙ legit_one h x (codes "llm-4") (contains h (legit_hosts hosts)) (contains h hosts)
        (contains-legit_hosts h hosts)

-- The certificate of a service carries exactly the name of the service, localhost and the names of
-- its backends but llm-4.
pub contains-service_sans :
    (h : Str) (s : ServiceSpec)
    → contains h (service_sans s) ≡ (
        h == s.name
        || (h == codes "localhost" || (contains h s.backends && not (h == codes "llm-4"))))
unfolding service_sans
contains-service_sans h s =
    ap (λ b. h == s.name || (h == codes "localhost" || b)) (contains-legit_hosts h s.backends)

-- A service that is not itself called llm-4 has no certificate with that name.
service_sans_lack :
    (s : ServiceSpec)
    → codes "llm-4" == s.name ≡ false
    → contains (codes "llm-4") (service_sans s) ≡ false
unfolding Str-discrete
service_sans_lack s named =
    contains-service_sans (codes "llm-4") s
    ∙ rw named (and_false (contains (codes "llm-4") s.backends))
  where
    and_false : (b : Bool) → (b && false) ≡ false
    and_false true = refl
    and_false false = refl

module _ {Key : Type 0} where
  -- A certificate with the name llm-4 is signed by the key of the rogue authority.
  abbrev pub IsNamedBy : Key → Content Key → Type 0
  IsNamedBy rogue (cert_pem c) =
      (c.signed_by ≡ rogue) ⊎ (contains (codes "llm-4") c.template.dns_names ≡ false)
  IsNamedBy rogue (ec_key_pem k) = Unit
  IsNamedBy rogue (client_json f) = Unit
  IsNamedBy rogue (text t) = Unit

  All-++ :
      (P : File Key → Type 0) (xs ys : List (File Key)) → All P xs → All P ys → All P (xs ++ ys)
  All-++ P [] ys all more = more
  All-++ P (x ∷ xs) ys (p, all) more = (p, All-++ P xs ys all more)

module _ {Key : Type 0} (random : Random Key) (rogue : Key) where
  service_files-IsNamedBy :
      (n : ℕ) (ca_cert : Certificate Key) (ca_key : Key) (svcs : List ServiceSpec)
      → All (λ s. codes "llm-4" == s.name ≡ false) svcs
      → All (λ f. IsNamedBy rogue f.content) (service_files random n ca_cert ca_key svcs)
  unfolding service_files must_leaf
  service_files-IsNamedBy n ca_cert ca_key [] all = tt
  service_files-IsNamedBy n ca_cert ca_key (s ∷ svcs) (named, all) = (
    inr (service_sans_lack s named),
    (tt, service_files-IsNamedBy (suc n) ca_cert ca_key svcs all),
  )

  client_files-IsNamedBy :
      (n : ℕ) (callers : List ClientSpec)
      → All (λ f. IsNamedBy rogue f.content) (client_files random n callers)
  unfolding client_files
  client_files-IsNamedBy n [] = tt
  client_files-IsNamedBy n (c ∷ callers) = (tt, client_files-IsNamedBy (suc n) callers)

listener_lacks :
    contains (codes "llm-4") (codes "gateway" ∷ codes "localhost" ∷ codes "127.0.0.1" ∷ []) ≡ false
unfolding Str-discrete
listener_lacks = refl

module _ {Key : Type 0} (random : Random Key) where
  gateway_files-IsNamedBy :
      (rogue : Key) → All (λ f. IsNamedBy rogue f.content) (gateway_files random)
  unfolding gateway_files must_ca must_leaf
  gateway_files-IsNamedBy rogue = (inr refl, (tt, (inr refl, (tt, (inr listener_lacks, (tt, tt))))))

  rogue_files-IsNamedBy :
      (n : ℕ) → All (λ f. IsNamedBy (random.ec_key n) f.content) (rogue_files random n)
  unfolding rogue_files must_ca must_leaf
  rogue_files-IsNamedBy n = (inl refl, (inl refl, (tt, tt)))

  config_file-IsNamedBy :
      (rogue : Key) (svcs : List ServiceSpec) (callers : List ClientSpec)
      → IsNamedBy rogue (config_file random svcs callers).content
  unfolding config_file
  config_file-IsNamedBy rogue svcs callers = tt

-- Whatever services and callers there are, none of the services called llm-4: among the files that
-- the generator writes, every certificate with the name llm-4 is signed by the key of the rogue
-- authority, so that no certificate of the trusted authority vouches for that host.
pub artifacts-IsNamedBy :
    {Key : Type 0} (random : Random Key) (svcs : List ServiceSpec) (callers : List ClientSpec)
    → All (λ s. codes "llm-4" == s.name ≡ false) svcs
    → All
        (λ f. IsNamedBy (random.ec_key (rogue_draw svcs)) f.content)
        (artifacts random svcs callers)
unfolding artifacts
artifacts-IsNamedBy {Key} random svcs callers all =
    let rogue = random.ec_key (rogue_draw svcs) in
    let P : File Key → Type 0 = λ f. IsNamedBy rogue f.content in
    let gateway = gateway_files random in
    let serving = service_files random 3 (root random).0 (root random).1 svcs in
    let spoofed = rogue_files random (rogue_draw svcs) in
    let called = client_files random 0 callers in
    All-++ P (gateway ++ serving ++ spoofed ++ called) (config_file random svcs callers ∷ [])
      (All-++ P (gateway ++ serving ++ spoofed) called
        (All-++ P (gateway ++ serving) spoofed
          (All-++ P gateway serving (gateway_files-IsNamedBy random rogue)
            (service_files-IsNamedBy random rogue 3 (root random).0 (root random).1 svcs all))
          (rogue_files-IsNamedBy random (rogue_draw svcs)))
        (client_files-IsNamedBy random rogue 0 callers))
      (config_file-IsNamedBy random rogue svcs callers, tt)
