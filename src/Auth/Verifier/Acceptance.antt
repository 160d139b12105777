-- ===== src/Auth/Verifier/Acceptance.antt =====
-- internal/auth/jwt.go: which tokens Verify accepts.
use mathlib.Core.List.{append_assoc, append-nil}
use secure_svc_gw.Prelude.{
  ◌≡◌, ◌≢◌, sym, ap, ◌∙◌, ◌↔◌, ◌⊎◌, inl, inr, true, false, some, List, [], ◌∷◌, ◌++◌, arith, pos,
  Str, codes, split, join, Lacks, All, join-split, split-Lacks, split-join, Map, lookup, Time, unix,
  add, NotAfter, ok, err, ◌==◌, Result-cases, on_ok, on_some, on_true,
}
use secure_svc_gw.Auth.{Reason, bad_claims, replay, JwtHeader, Claims, RegisteredKey}
use secure_svc_gw.Auth.Nonce.{NonceStore}
use secure_svc_gw.Auth.Verifier.{
  Library, Verifier, clock_skew, accepted, rejected, three_parts, check_claims, read_token, admit,
  spend, verify,
}

-- The token is signed by the holder of a registered key, and says what the claims say.
pub record IsGenuine (L : Library) (keys : Map RegisteredKey) (token : Str) (key : RegisteredKey)
    (c : Claims) : Type 0 where
  pub header : Str
  pub payload : Str
  pub signature : Str
  pub parts : token ≡ header ++ codes "." ++ payload ++ codes "." ++ signature
  pub no_dots : All (Lacks b'.') (header ∷ payload ∷ signature ∷ [])
  pub header_raw : Str
  pub header_decodes : L.raw_url_decode header ≡ some header_raw
  pub hdr : JwtHeader
  pub header_parses : L.unmarshal_header header_raw ≡ some hdr
  pub algorithm : hdr.alg ≡ codes "EdDSA"
  pub registered : lookup hdr.kid keys ≡ some key
  pub sig : Str
  pub signature_decodes : L.raw_url_decode signature ≡ some sig
  pub signed : L.ed25519_verify key.public_key (header ++ codes "." ++ payload) sig ≡ true
  pub payload_raw : Str
  pub payload_decodes : L.raw_url_decode payload ≡ some payload_raw
  pub payload_parses : L.unmarshal_claims payload_raw ≡ some c

-- The claims are meant for this gateway and are current at the instant.
pub record AreValid (now : Time) (issuer audience : Str) (c : Claims) : Type 0 where
  pub right_issuer : (issuer ≡ []) ⊎ (c.iss ≡ issuer)
  pub right_audience : c.aud ≡ audience
  pub has_expiry : c.exp ≢ pos 0
  pub unexpired : NotAfter now (unix c.exp)
  pub issued : (c.iat ≡ pos 0) ⊎ NotAfter (unix c.iat) (add now clock_skew)
  pub has_jti : c.jti ≢ []

check_claims_sound :
    (now : Time) (issuer audience : Str) (c : Claims)
    → check_claims now issuer audience c ≡ ok tt
    → AreValid now issuer audience c
unfolding check_claims
check_claims_sound now issuer audience c h = ground arith

check_claims_complete :
    (now : Time) (issuer audience : Str) (c : Claims)
    → AreValid now issuer audience c
    → check_claims now issuer audience c ≡ ok tt
unfolding check_claims
check_claims_complete now issuer audience c v = ground arith

three_parts_sound :
    (parts : List Str) (h p s : Str) → three_parts parts ≡ ok (h, p, s) → parts ≡ h ∷ p ∷ s ∷ []
three_parts_sound (a ∷ b ∷ c ∷ []) h p s e = ground arith
three_parts_sound _ h p s e = cc

join_three : (h p s : Str) → join b'.' (h ∷ p ∷ s ∷ []) ≡ h ++ codes "." ++ p ++ codes "." ++ s
join_three h p s = simp (append_assoc, append-nil)

read_token_sound :
    (L : Library) (keys : Map RegisteredKey) (token : Str) (key : RegisteredKey) (c : Claims)
    → read_token L keys token ≡ ok (key, c)
    → IsGenuine L keys token key c
unfolding read_token
read_token_sound L keys token key c e0 = on_ok _ _ e0 λ (header, payload, signature) e e1.
    on_some _ _ _ e1 λ header_raw h1 e2. on_some _ _ _ e2 λ hdr h2 e3.
      on_true (hdr.alg == codes "EdDSA") _ _ e3 λ h3 e4. on_some _ _ _ e4 λ key' h4 e5.
        on_some _ _ _ e5 λ sig h5 e6.
          on_true (L.ed25519_verify key'.public_key (header ++ codes "." ++ payload) sig) _ _ e6
            λ h6 e7. on_some _ _ _ e7 λ payload_raw h7 e8.
              on_some _ bad_claims (λ c''. ok (key', c'')) e8
                λ c' h8 e9.
                  let same : key' ≡ key = cc in
                  let parts = three_parts_sound _ header payload signature e in
                  record {
                    header = header;
                    payload = payload;
                    signature = signature;
                    parts =
                        sym (join-split b'.' token)
                        ∙ ap (join b'.') parts
                        ∙ join_three header payload signature;
                    no_dots = rw parts at (split-Lacks b'.' token);
                    header_raw = header_raw;
                    header_decodes = h1;
                    hdr = hdr;
                    header_parses = h2;
                    algorithm = ground arith;
                    registered = h4 ∙ ap some same;
                    sig = sig;
                    signature_decodes = h5;
                    signed = rw (← same) h6;
                    payload_raw = payload_raw;
                    payload_decodes = h7;
                    payload_parses = ground arith;
                  }

read_token_complete :
    (L : Library) (keys : Map RegisteredKey) (token : Str) (key : RegisteredKey) (c : Claims)
    → IsGenuine L keys token key c
    → read_token L keys token ≡ ok (key, c)
unfolding read_token
read_token_complete L keys token key c g =
    let parts : split b'.' token ≡ g.header ∷ g.payload ∷ g.signature ∷ [] =
      ap (split b'.') (g.parts ∙ sym (join_three g.header g.payload g.signature))
      ∙ split-join b'.' g.header (g.payload ∷ g.signature ∷ []) g.no_dots in
    ground arith

pub admit-parts :
    (L : Library) {S : Type 0} (now : Time) (v : Verifier S) (token : Str) (key : RegisteredKey)
    (c : Claims)
    → admit L now v token ≡ ok (key, c)
    → (read_token L v.keys token ≡ ok (key, c)) × AreValid now v.issuer v.audience c
unfolding admit
admit-parts L now v token key c h = on_ok (read_token L v.keys token) _ h λ (key', c') read h1.
    on_ok (check_claims now v.issuer v.audience c') (λ _. ok (key', c')) h1
      λ _ valid h2.
        let pair : ◌≡◌ {A = RegisteredKey × Claims} (key', c') (key, c) = ground arith in
        let both : (read_token L v.keys token ≡ ok (key', c'))
            × AreValid now v.issuer v.audience c' =
          (read, check_claims_sound now v.issuer v.audience c' valid) in
        rw pair at both

admit_complete :
    (L : Library) {S : Type 0} (now : Time) (v : Verifier S) (token : Str) (key : RegisteredKey)
    (c : Claims)
    → IsGenuine L v.keys token key c
    → AreValid now v.issuer v.audience c
    → admit L now v token ≡ ok (key, c)
unfolding admit
admit_complete L now v token key c g valid = rw (
  read_token_complete L v.keys token key c g,
  check_claims_complete now v.issuer v.audience c valid,
)

pub verify_of_admitted :
    (L : Library) (N : NonceStore) (now later : Time) (v : Verifier N.State) (token : Str)
    {key : RegisteredKey} {c : Claims}
    → admit L now v token ≡ ok (key, c)
    → verify L N now later v token ≡ spend L N later v key c
unfolding verify
verify_of_admitted L N now later v token h = rw (h, verify)

pub verify_of_refused :
    (L : Library) (N : NonceStore) (now later : Time) (v : Verifier N.State) (token : Str)
    {r : Reason}
    → admit L now v token ≡ err r
    → verify L N now later v token ≡ (rejected r, v)
unfolding verify
verify_of_refused L N now later v token h = rw (h, verify)

pub spend-refused :
    (L : Library) (N : NonceStore) (later : Time) (v : Verifier N.State) (key : RegisteredKey)
    (c : Claims)
    → (N.check_and_store later c.jti (unix c.exp) v.nonces).0 ≡ false
    → (spend L N later v key c).0 ≡ rejected replay
unfolding spend
spend-refused L N later v key c h = rw (h, spend)

pub spend-accepted :
    (L : Library) (N : NonceStore) (later : Time) (v : Verifier N.State) (key : RegisteredKey)
    (c' c : Claims) (sub : Str)
    → (spend L N later v key c').0 ≡ accepted c sub
    → (c' ≡ c) × (key.sub ≡ sub) × ((N.check_and_store later c.jti (unix c.exp) v.nonces).0 ≡ true)
unfolding spend
spend-accepted L N later v key c' c sub h = ground arith

-- Verify accepts a token with claims `c` and subject `sub` exactly if the token is genuine for a
-- registered key whose subject is `sub`, its claims `c` are valid at `now`, and the nonce store
-- found their jti fresh.
pub verify-accepted_iff :
    (L : Library) (N : NonceStore) (now later : Time) (v : Verifier N.State) (token : Str)
    (c : Claims) (sub : Str)
    → ((verify L N now later v token).0 ≡ accepted c sub) ↔ (
        (key : RegisteredKey) × (key.sub ≡ sub)
        × IsGenuine L v.keys token key c
        × AreValid now v.issuer v.audience c
        × ((N.check_and_store later c.jti (unix c.exp) v.nonces).0 ≡ true))
unfolding spend
verify-accepted_iff L N now later v token c sub = (
  forth,
  λ (key, same, genuine, valid, fresh).
      rw
        (verify_of_admitted L N now later v token
          (admit_complete L now v token key c genuine valid))
        (rw (fresh, spend) (ap (accepted c) same)),
)
  where
    forth :
        (verify L N now later v token).0 ≡ accepted c sub
        → (key : RegisteredKey) × (key.sub ≡ sub)
          × IsGenuine L v.keys token key c
          × AreValid now v.issuer v.audience c
          × ((N.check_and_store later c.jti (unix c.exp) v.nonces).0 ≡ true)
    forth h = elim (Result-cases (admit L now v token)) [
      | inl (r, refused) ↦ absurd (cc (h, verify_of_refused L N now later v token refused))
      | inr ((key, c'), admitted) ↦
          let (same, sub', fresh) =
            spend-accepted L N later v key c' c sub
              (rw (verify_of_admitted L N now later v token admitted) at h) in
          let (read, valid) = admit-parts L now v token key c' admitted in
          (
            key,
            sub',
            rw same at (read_token_sound L v.keys token key c' read),
            rw same at valid,
            fresh,
          )
    ]
