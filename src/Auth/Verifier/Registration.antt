-- ===== src/Auth/Verifier/Registration.antt =====
-- internal/auth/jwt.go: what NewVerifierWithStore registers, and what becomes of the scopes that a
-- key is registered with.
use secure_svc_gw.Prelude.{
  ◌≡◌, ◌≢◌, refl, ap, ◌∙◌, inl, inr, Option, none, some, List, [], ◌∷◌, arith, Str, ◌==◌, length,
  Map, lookup, insert, lookup-insert, eqb, if◌then◌else◌, ok, on_ok, on_some, on_true, Option-cases,
}
use secure_svc_gw.Auth.{RegisteredKey, KeyRegistration}
use secure_svc_gw.Auth.Verifier.{
  Library, Verifier, bad_key_size, public_key_size, scope_set, register, register_all,
  new_verifier_with_store,
}

-- The last registration of a kid.
unfoldable pub last_for : Str → List KeyRegistration → Option KeyRegistration
last_for kid [] = none
last_for kid (r ∷ regs) = elim (last_for kid regs) [
  | some later ↦ some later
  | none ↦ if kid == r.kid then some r else none
]

-- The entry is the one that the registration makes.
pub record Comes (L : Library) (r : KeyRegistration) (key : RegisteredKey) : Type 0 where
  pub decodes : L.std_decode r.pub_base64 ≡ some key.public_key
  pub size : length key.public_key ≡ public_key_size
  pub subject : key.sub ≡ r.subject

-- How the keys answer for a kid, given its last registration.
abbrev pub Answers : Library → Option KeyRegistration → Option RegisteredKey → Type 0
Answers L none found = found ≡ none
Answers L (some r) found = (key : RegisteredKey) × (found ≡ some key) × Comes L r key

abbrev entry : KeyRegistration → Str → RegisteredKey
entry r raw = record { public_key = raw; sub = r.subject; scopes = scope_set r.scopes [] }

-- What one round does when it succeeds, and when it does.
register-shape :
    (L : Library) (r : KeyRegistration) (keys keys' : Map RegisteredKey)
    → register L r keys ≡ ok keys'
    → (raw : Str) × (L.std_decode r.pub_base64 ≡ some raw)
      × (length raw ≡ public_key_size)
      × (keys' ≡ insert r.kid (entry r raw) keys)
unfolding register
register-shape L r keys keys' h = on_some _ _ _ h λ raw h1 e1.
    on_true (eqb (length raw) public_key_size) (bad_key_size r.kid (length raw))
      (ok (insert r.kid (entry r raw) keys)) e1 λ h2 e2. (raw, h1, ground arith, ground arith)

register-hit :
    (L : Library) (r : KeyRegistration) (keys keys' : Map RegisteredKey)
    → register L r keys ≡ ok keys'
    → (key : RegisteredKey) × (lookup r.kid keys' ≡ some key) × Comes L r key
register-hit L r keys keys' h =
    let (raw, decodes, size, shape) = register-shape L r keys keys' h in
    (
      entry r raw,
      rw shape (ground (arith, lookup-insert r.kid r.kid (entry r raw) keys)),
      record { decodes = decodes; size = size; subject = refl },
    )

register-miss :
    (L : Library) (r : KeyRegistration) (keys keys' : Map RegisteredKey) (kid : Str)
    → register L r keys ≡ ok keys'
    → kid ≢ r.kid
    → lookup kid keys' ≡ lookup kid keys
register-miss L r keys keys' kid h other =
    let (raw, decodes, size, shape) = register-shape L r keys keys' h in
    rw shape (ground (arith, lookup-insert kid r.kid (entry r raw) keys))

-- Nothing of the list is registered under the kid: its entry stays.
register_all-miss :
    (L : Library) (regs : List KeyRegistration) (keys keys' : Map RegisteredKey) (kid : Str)
    → register_all L regs keys ≡ ok keys'
    → last_for kid regs ≡ none
    → lookup kid keys' ≡ lookup kid keys
unfolding register_all last_for
register_all-miss L [] keys keys' kid h none_for = ground arith
register_all-miss L (r ∷ regs) keys keys' kid h none_for =
    on_ok (register L r keys) (λ k. register_all L regs k) h
      λ keys1 h1 h2.
        let later : last_for kid regs ≡ none = ground arith in
        let differs : kid ≢ r.kid = ground arith in
        register_all-miss L regs keys1 keys' kid h2 later
        ∙ register-miss L r keys keys1 kid h1 differs

register_all-hit :
    (L : Library) (regs : List KeyRegistration) (keys keys' : Map RegisteredKey) (kid : Str)
    (last : KeyRegistration)
    → register_all L regs keys ≡ ok keys'
    → last_for kid regs ≡ some last
    → (key : RegisteredKey) × (lookup kid keys' ≡ some key) × Comes L last key
unfolding register_all last_for
register_all-hit L [] keys keys' kid last h found = absurd (cc)
register_all-hit L (r ∷ regs) keys keys' kid last h found =
    on_ok (register L r keys) (λ k. register_all L regs k) h
      λ keys1 h1 h2. elim (Option-cases (last_for kid regs)) [
        | inr (later, some_later) ↦
            let same : later ≡ last = ground arith in
            register_all-hit L regs keys1 keys' kid last h2 (some_later ∙ ap some same)
        | inl none_later ↦
            let same_kid : kid ≡ r.kid = ground arith in
            let same : r ≡ last = ground arith in
            let (key, found1, comes) = register-hit L r keys keys1 h1 in
            (
              key,
              register_all-miss L regs keys1 keys' kid h2 none_later
                  ∙ ap (λ k. lookup k keys1) same_kid
                  ∙ found1,
              rw same at comes,
            )
      ]

-- When NewVerifierWithStore succeeds, its verifier knows a kid exactly if it was registered; the
-- key that it uses is the one of the last registration of the kid, decoded to 32 bytes, with that
-- registration's subject. The issuer, the audience and the store are those given.
pub new_verifier_with_store-keys :
    (L : Library) {S : Type 0} (regs : List KeyRegistration) (issuer audience : Str) (store : S)
    (v : Verifier S) (kid : Str)
    → new_verifier_with_store L regs issuer audience store ≡ ok v
    → Answers L (last_for kid regs) (lookup kid v.keys)
      × (v.issuer ≡ issuer)
      × (v.audience ≡ audience)
      × (v.nonces ≡ store)
unfolding new_verifier_with_store lookup
new_verifier_with_store-keys L [] issuer audience store v kid h = absurd (cc)
new_verifier_with_store-keys L {S} (r ∷ regs) issuer audience store v kid h =
    on_ok (register_all L (r ∷ regs) []) (λ keys. ok (made keys)) h
      λ keys h1 h2.
        let same : made keys ≡ v = ground arith in rw (← same) (answers keys h1, refl, refl, refl)
  where
    made : Map RegisteredKey → Verifier S
    made keys = record { keys = keys; issuer = issuer; audience = audience; nonces = store }

    answers :
        (keys : Map RegisteredKey)
        → register_all L (r ∷ regs) [] ≡ ok keys
        → Answers L (last_for kid (r ∷ regs)) (lookup kid keys)
    answers keys h1 = elim (Option-cases (last_for kid (r ∷ regs))) [
      | inl missing ↦ rw missing (register_all-miss L (r ∷ regs) [] keys kid h1 missing)
      | inr (last, found) ↦ rw found (register_all-hit L (r ∷ regs) [] keys kid last h1 found)
    ]
