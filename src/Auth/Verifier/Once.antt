-- ===== src/Auth/Verifier/Once.antt =====
-- internal/auth/jwt.go, nonce.go: a token is accepted once, over any sequence of requests and of
-- background work of the nonce store. A call of Verify has two instants: that of its expiry test, and
-- that of its CheckAndStore, at which it stands among the events, since it changes nothing before.
use secure_svc_gw.Prelude.{
  ℕ, Map, sym, subst, ◌+◌, ◌≤◌, ◌≡◌, refl, ap, ◌∙◌, ◌⊎◌, inl, inr, List, [], ◌∷◌, arith, Str, ◌==◌,
  Time, unix, NotAfter, NotAfter-trans, IsModern, if◌then◌else◌, ok, Result-cases, Bool-cases,
  Str-discrete,
}
use secure_svc_gw.Auth.{Claims, RegisteredKey}
use secure_svc_gw.Auth.Nonce.{NonceStore, IsReplayGuard}
use secure_svc_gw.Auth.Verifier.{
  Library, Verifier, Verdict, accepted, rejected, read_token, admit, spend, verify,
}
use secure_svc_gw.Auth.Verifier.Acceptance.{
  admit-parts, spend-refused, verify_of_admitted, verify_of_refused,
}

-- What reaches the verifier and its store, and when.
pub data Event : Type 0 where
  request : Time → Time → Str → Event
  pass : Time → Event

abbrev pub instant : Event → Time
instant (request at now token) = now
instant (pass now) = now

-- The clock does not go back, from the instant on.
abbrev pub IsOrdered : Time → List Event → Type 0
IsOrdered now [] = Unit
IsOrdered now (e ∷ events) = NotAfter now (instant e) × IsOrdered (instant e) events

abbrev accepts : Verdict → ℕ
accepts (accepted c sub) = 1
accepts (rejected reason) = 0

-- If the token that is asked for passes the expiry test at the first instant, it is not expired at the
-- second one.
abbrev pub IsPrompt : Library → Map RegisteredKey → Time → Time → Str → Type 0
IsPrompt L keys at now token =
    (key : RegisteredKey) (c : Claims)
    → read_token L keys token ≡ ok (key, c)
    → NotAfter at (unix c.exp)
    → NotAfter now (unix c.exp)

abbrev pub ArePrompt : Library → Map RegisteredKey → List Event → Type 0
ArePrompt L keys [] = Unit
ArePrompt L keys (pass now ∷ events) = ArePrompt L keys events
ArePrompt L keys (request at now token ∷ events) =
    IsPrompt L keys at now token × ArePrompt L keys events

accepts-le : (verdict : Verdict) → accepts verdict ≤ 1
accepts-le (accepted c sub) = omega arith
accepts-le (rejected reason) = omega arith

IsModern-later : (t u : Time) → IsModern t → NotAfter t u → IsModern u
IsModern-later t u m h = ground arith

module _ (L : Library) (N : NonceStore) where
  abbrev after_pass : Time → Verifier N.State → Verifier N.State
  after_pass now v = record v { nonces = N.pass now v.nonces }

  -- How often the token is accepted.
  pub times_accepted : Str → Verifier N.State → List Event → ℕ
  times_accepted t v [] = 0
  times_accepted t v (request at now token ∷ events) =
      let (verdict, v') = verify L N at now v token in
      (if token == t then accepts verdict else 0) + times_accepted t v' events
  times_accepted t v (pass now ∷ events) = times_accepted t (after_pass now v) events

  abbrev asked : Time → Verifier N.State → Claims → Verifier N.State
  asked now v c = record v { nonces = (N.check_and_store now c.jti (unix c.exp) v.nonces).1 }

  spend_state :
      (now : Time) (v : Verifier N.State) (key : RegisteredKey) (c : Claims)
      → (spend L N now v key c).1 ≡ asked now v c
  unfolding spend
  spend_state now v key c = ground arith

  -- Verify leaves the verifier alone or asks the nonce store once.
  verify_state :
      (at now : Time) (v : Verifier N.State) (token : Str)
      → ((verify L N at now v token).1 ≡ v)
        ⊎ ((c : Claims) × ((verify L N at now v token).1 ≡ asked now v c))
  verify_state at now v token = elim (Result-cases (admit L at v token)) [
    | inl (r, refused) ↦ inl (ap (λ x. x.1) (verify_of_refused L N at now v token refused))
    | inr ((key, c), admitted) ↦ inr (
      c,
      ap (λ x. x.1) (verify_of_admitted L N at now v token admitted) ∙ spend_state now v key c,
    )
  ]

  verify_keys :
      (at now : Time) (v : Verifier N.State) (token : Str)
      → (verify L N at now v token).1.keys ≡ v.keys
  verify_keys at now v token = elim (verify_state at now v token) [
    | inl same ↦ ap (λ x. x.keys) same
    | inr (c, same) ↦ ap (λ x. x.keys) same
  ]

  module _ (G : IsReplayGuard N) where
    -- While the jti of the claims matters, the store has seen it.
    abbrev Spent : Time → Claims → Verifier N.State → Type 0
    Spent now c v = NotAfter now (unix c.exp) → G.Seen c.jti (unix c.exp) v.nonces

    verify-Spent :
        (before at now : Time) (v : Verifier N.State) (token : Str) (c : Claims)
        → NotAfter before now
        → Spent before c v
        → Spent now c (verify L N at now v token).1
    verify-Spent before at now v token c order spent live =
        let seen = spent (NotAfter-trans before now (unix c.exp) order live) in
        elim (verify_state at now v token) [
          | inl same ↦ rw same seen
          | inr (c', same) ↦
              rw same (G.keeps now c'.jti (unix c'.exp) c.jti (unix c.exp) v.nonces live seen)
        ]

    after_pass-Spent :
        (before now : Time) (v : Verifier N.State) (c : Claims)
        → NotAfter before now
        → Spent before c v
        → Spent now c (after_pass now v)
    after_pass-Spent before now v c order spent live =
        G.keeps_passing now c.jti (unix c.exp) v.nonces live
          (spent (NotAfter-trans before now (unix c.exp) order live))

    -- A spent token is not accepted again.
    refused_of_Spent :
        (before at now : Time) (v : Verifier N.State) (t : Str) (key : RegisteredKey) (c : Claims)
        → NotAfter before now
        → IsPrompt L v.keys at now t
        → read_token L v.keys t ≡ ok (key, c)
        → Spent before c v
        → accepts (verify L N at now v t).0 ≡ 0
    refused_of_Spent before at now v t key c order prompt read spent =
        elim (Result-cases (admit L at v t)) [
          | inl (r, refused) ↦ rw (verify_of_refused L N at now v t refused)
          | inr ((key', c'), admitted) ↦
              let (read', valid) = admit-parts L at v t key' c' admitted in
              let same : c' ≡ c = cc in
              let live : NotAfter now (unix c.exp) =
                prompt key c read (rw (← same) valid.unexpired) in
              let seen = spent (NotAfter-trans before now (unix c.exp) order live) in
              rw (verify_of_admitted L N at now v t admitted, same)
                (ap (λ x. accepts x)
                  (spend-refused L N now v key' c
                    (G.refuses now c.jti (unix c.exp) (unix c.exp) v.nonces live seen)))
        ]

    after_Spent :
        (before : Time) (v : Verifier N.State) (t : Str) (key : RegisteredKey) (c : Claims)
        (events : List Event)
        → IsOrdered before events
        → ArePrompt L v.keys events
        → read_token L v.keys t ≡ ok (key, c)
        → Spent before c v
        → times_accepted t v events ≡ 0
    unfolding times_accepted
    after_Spent before v t key c [] order prompt read spent = refl
    after_Spent before v t key c (pass now ∷ events) (o, order) prompt read spent =
        after_Spent now (after_pass now v) t key c events order prompt read
          (after_pass-Spent before now v c o spent)
    after_Spent before v t key c (request at now token ∷ events) (o, order) (p, prompt) read spent =
        let rest =
          after_Spent now (verify L N at now v token).1 t key c events order
            (subst (λ ks. ArePrompt L ks events) (sym (verify_keys at now v token)) prompt)
            (rw (verify_keys at now v token) read) (verify-Spent before at now v token c o spent) in
        elim (Str-discrete token t) [
          | yes same ↦ ground (
            arith,
            rest,
            refused_of_Spent before at now v t key c o
                (subst (λ x. IsPrompt L v.keys at now x) same p) read spent,
          )
          | no other ↦ ground (arith, rest)
        ]

    -- The acceptance of a token spends it.
    first_use :
        (at now : Time) (v : Verifier N.State) (t : Str) (events : List Event)
        → IsModern now
        → IsPrompt L v.keys at now t
        → IsOrdered now events
        → ArePrompt L v.keys events
        → times_accepted t (verify L N at now v t).1 events ≤ 1
        → accepts (verify L N at now v t).0 + times_accepted t (verify L N at now v t).1 events ≤ 1
    first_use at now v t events modern prompt order prompts rest =
        elim (Result-cases (admit L at v t)) [
          | inl (r, refused) ↦
              let zero_now : accepts (verify L N at now v t).0 ≡ 0 =
                rw (verify_of_refused L N at now v t refused) in
              omega arith
          | inr ((key, c), admitted) ↦
              let (read, valid) = admit-parts L at v t key c admitted in
              let now_state : (verify L N at now v t).1 ≡ asked now v c =
                ap (λ x. x.1) (verify_of_admitted L N at now v t admitted)
                ∙ spend_state now v key c in
              elim (Bool-cases (N.check_and_store now c.jti (unix c.exp) v.nonces).0) [
                | inl fresh ↦
                    let spent : Spent now c (verify L N at now v t).1 = λ live.
                      rw now_state
                        (G.remembers now c.jti (unix c.exp) v.nonces modern live fresh) in
                    omega (
                      arith,
                      accepts-le (verify L N at now v t).0,
                      after_Spent now (verify L N at now v t).1 t key c events order
                          (subst (λ ks. ArePrompt L ks events) (sym (verify_keys at now v t))
                            prompts)
                          (rw (verify_keys at now v t) read) spent,
                    )
                | inr stale ↦
                    let zero_now : accepts (verify L N at now v t).0 ≡ 0 =
                      rw (verify_of_admitted L N at now v t admitted)
                        (ap (λ x. accepts x) (spend-refused L N now v key c stale)) in
                    omega arith
              ]
        ]

    -- A token is accepted at most once, whatever calls of Verify and sweeps of the store there are and
    -- however they interleave, if no token that passes its expiry test in time has expired when that
    -- call of Verify comes to its CheckAndStore, the clock starts in our time and does not go back, and
    -- the store keeps its contract.
    pub accepted_once :
        (start : Time) (v : Verifier N.State) (t : Str) (events : List Event)
        → IsModern start
        → IsOrdered start events
        → ArePrompt L v.keys events
        → times_accepted t v events ≤ 1
    unfolding times_accepted
    accepted_once start v t [] modern order prompt = omega arith
    accepted_once start v t (pass now ∷ events) modern (o, order) prompt =
        accepted_once now (after_pass now v) t events (IsModern-later start now modern o) order
          prompt
    accepted_once start v t (request at now token ∷ events) modern (o, order) (p, prompt) =
        let modern' = IsModern-later start now modern o in
        let prompt' : ArePrompt L (verify L N at now v token).1.keys events =
          subst (λ ks. ArePrompt L ks events) (sym (verify_keys at now v token)) prompt in
        let rest = accepted_once now (verify L N at now v token).1 t events modern' order prompt' in
        elim (Str-discrete token t) [
          | yes same ↦ ground (
            arith,
            first_use at now v t events modern' (subst (λ x. IsPrompt L v.keys at now x) same p)
                order prompt (rw same at rest),
          )
          | no other ↦ ground (arith, rest)
        ]
