-- ===== src/Proxy/Gateway/Counts.antt =====
-- internal/proxy/handler.go: the decision that ServeHTTP counts, and the status that goes with it.
use secure_svc_gw.Prelude.{
  ℕ, ◌≡◌, refl, sym, ap, subst, false, ◌∙◌, ◌⊎◌, inl, inr, none, some, List, [], Str, codes,
  is_empty, Map, lookup, Bool-cases, Option-cases,
}
use secure_svc_gw.Auth.{Claims, no_token, missing_scope, has_scope}
use secure_svc_gw.Auth.Nonce.{NonceStore}
use secure_svc_gw.Auth.Verifier.{Library, Verdict, accepted, rejected, verify}
use secure_svc_gw.Lb
use secure_svc_gw.Lb.Floats.{Float}
use secure_svc_gw.Proxy.{RouteEntry, Request, match_route, extract_bearer, target}
use secure_svc_gw.Proxy.Gateway.{
  Event, Outgoing, HttpResponse, responded, World, Env, new_request_id, set_header,
}
use secure_svc_gw.Proxy.Gateway.Serve.{
  forward, pick_backend, alternative, retry, proxy, dispatch, authorize, authenticate, serve_http,
}
use secure_svc_gw.Proxy.Gateway.Replies.{
  Forwarded, Outcome, served, panicked, is_writable, log_retry, conclude,
}
use secure_svc_gw.Proxy.Gateway.Forwarding
use secure_svc_gw.Proxy.Gateway.Forwarding.{forward-IsForward}
use secure_svc_gw.Proxy.Gateway.Safety.{decisions}
use secure_svc_gw.Proxy.Gateway.Decisions.{
  IsDecided, deny_auth-IsDecided, no_route-IsDecided, no_healthy_backend-IsDecided,
  decisions-log_retry, HasAnswer, finish-IsDecided,
}

-- Why a call of forward panics: the handler has no client for the service, or Do gave a response whose
-- status WriteHeader does not take.
pub data Crashes (env : Env) (service : Str) : Type 0 where
  no_client : env.has_client service ≡ false → Crashes env service
  unwritable :
      (before : List Event) (out : Outgoing) (resp : HttpResponse)
      → (env.exchange before service out).answer ≡ responded resp
      → is_writable resp.status_code ≡ false
      → Crashes env service

module _ {F S : Type 0} ⦃float : Float F⦄ (env : Env) (r : Request) (route : RouteEntry)
    (rid sub : Str) where
  -- A call of forward that came to its end has an answer; else it panicked.
  abbrev Known : Forwarded → World F S → Type 0
  Known result w =
      ((result.outcome ≡ served) × HasAnswer result w)
      ⊎ ((result.outcome ≡ panicked) × Crashes env route.service)

  Known-of :
      (id url : Str) (w w' : World F S) (result : Forwarded)
      → Forwarding.Answers env route.service id r url w result w'
      → Known result w'
  Known-of id url w w' result (Forwarding.refused e bad ok is same) = inl (ok, inr (e, is))
  Known-of id url w w' result (Forwarding.no_client nil crash is) = inr (crash, no_client nil)
  Known-of id url w w' result (Forwarding.broken out e gone answer ok is same) =
      inl (ok, inr (e, is))
  Known-of id url w w' result (Forwarding.passed out resp gone answer ok is status wrote) =
      inl (ok, inl (is, ap (λ x. x.status) wrote ∙ ap some (sym status)))
  Known-of id url w w' result (Forwarding.unwritable out resp gone answer bad crash is) =
      inr (crash, unwritable w.trace out resp answer bad)

  forward-Known :
      (i : ℕ) (b : Lb.Backend F) (w : World F S)
      → (decisions (forward env r route i b rid sub w).1.trace ≡ decisions w.trace)
        × Known (forward env r route i b rid sub w).0 (forward env r route i b rid sub w).1
  forward-Known i b w =
      let f = forward-IsForward env r route i b rid sub w in
      (f.decisions_kept, Known-of b.id (target b.addr route.prefix r) w _ _ f.answers)

  retry-Known :
      (b : Lb.Backend F) (result : Forwarded) (w : World F S)
      → Known result w
      → (decisions (retry env r route b rid sub result w).1.trace ≡ decisions w.trace)
        × Known (retry env r route b rid sub result w).0 (retry env r route b rid sub result w).1
  unfolding retry
  retry-Known b result w known = elim (Option-cases result.error) [
    | inl good ↦ rw (good, retry) (refl, known)
    | inr (e, bad) ↦ elim (Option-cases (alternative env route.service b result w)) [
      | inl alone ↦ rw (bad, alone, retry) (refl, known)
      | inr ((k, alt), other) ↦
          let again = log_retry rid route b.id alt.id e w in
          let (kept, answered) = forward-Known k alt again in
          rw (bad, other, retry) (kept ∙ decisions-log_retry rid route b.id alt.id e w, answered)
    ]
  ]

  -- proxy is served with one decision, or panics and counts nothing.
  abbrev ProxyEnds : List (Str × Str × Str) → Outcome × World F S → Type 0
  ProxyEnds before (outcome, after) =
      ((outcome ≡ served) × IsDecided before after)
      ⊎ ((outcome ≡ panicked) × Crashes env route.service × (decisions after.trace ≡ before))

  conclude-ProxyEnds :
      (c : Claims) (result : Forwarded) (w : World F S)
      → Known result w
      → ProxyEnds (decisions w.trace) (conclude rid route c sub result.outcome result w)
  unfolding conclude
  conclude-ProxyEnds c result w (inl (ok, known)) =
      rw (ok, conclude) (inl (refl, finish-IsDecided rid route c sub result w known))
  conclude-ProxyEnds c result w (inr (crash, cause)) =
      rw (crash, conclude) (inr (refl, cause, refl))

  proxy-ProxyEnds :
      (c : Claims) (i : ℕ) (b : Lb.Backend F) (w : World F S)
      → ProxyEnds (decisions w.trace) (proxy env r route c sub rid i b w)
  unfolding proxy
  proxy-ProxyEnds c i b w =
      let one = forward env r route i b rid sub w in
      let two = retry env r route b rid sub (one.0) (one.1) in
      let (kept, known) = forward-Known i b w in
      let (kept', known') = retry-Known b (one.0) (one.1) known in
      subst (λ before. ProxyEnds before (conclude rid route c sub two.0.outcome (two.0) (two.1)))
        (kept' ∙ kept) (conclude-ProxyEnds c (two.0) (two.1) known')

-- A panic, with nothing counted: the pool of the service of the matching route is nil, or forward
-- panicked.
pub record IsUnserved {F S : Type 0} (env : Env) (routes : List RouteEntry) (r : Request)
    (pools : Map (Lb.Pool F)) (before : List (Str × Str × Str)) (after : World F S) : Type 0 where
  pub route : RouteEntry
  pub matched : match_route r.path routes ≡ some route
  pub cause : (lookup route.service pools ≡ none) ⊎ Crashes env route.service
  pub uncounted : decisions after.trace ≡ before

-- How ServeHTTP ends: served, with one decision, or by a panic.
abbrev pub Ends :
    {F S : Type 0}
    → Env
    → List RouteEntry
    → Request
    → Map (Lb.Pool F)
    → List (Str × Str × Str)
    → Outcome × World F S
    → Type 0
Ends env routes r pools before (outcome, after) =
    ((outcome ≡ served) × IsDecided before after)
    ⊎ ((outcome ≡ panicked) × IsUnserved env routes r pools before after)

module _ {F S : Type 0} (env : Env) (routes : List RouteEntry) (r : Request)
    (route : RouteEntry) where
  ProxyEnds-Ends :
      (pools : Map (Lb.Pool F)) (before : List (Str × Str × Str)) (end : Outcome × World F S)
      → match_route r.path routes ≡ some route
      → ((end.0 ≡ served) × IsDecided before end.1)
        ⊎ ((end.0 ≡ panicked) × Crashes env route.service × (decisions end.1.trace ≡ before))
      → Ends env routes r pools before end
  ProxyEnds-Ends pools before end matched (inl good) = inl good
  ProxyEnds-Ends pools before end matched (inr (crash, cause, kept)) =
      inr (crash, record { route = route; matched = matched; cause = inr cause; uncounted = kept })

module _ {F : Type 0} ⦃float : Float F⦄ where
  dispatch-Ends :
      {S : Type 0} (env : Env) (routes : List RouteEntry) (r : Request) (route : RouteEntry)
      (c : Claims) (rid sub : Str) (w : World F S)
      → match_route r.path routes ≡ some route
      → Ends env routes r w.pools (decisions w.trace) (dispatch env r route c sub rid w)
  unfolding dispatch
  dispatch-Ends env routes r route c rid sub w matched =
      elim (Option-cases (lookup route.service w.pools)) [
        | inl missing ↦
            rw (missing, dispatch)
              (inr (
                refl,
                record { route = route; matched = matched; cause = inl missing; uncounted = refl },
              ))
        | inr (p, found) ↦ elim (Option-cases (pick_backend (env.first) p)) [
          | inl down ↦
              rw (found, down, dispatch) (inl (refl, no_healthy_backend-IsDecided rid route sub w))
          | inr ((i, b), up) ↦
              rw (found, up, dispatch)
                (ProxyEnds-Ends env routes r route w.pools (decisions w.trace) _ matched
                  (proxy-ProxyEnds env r route rid sub c i b w))
        ]
      ]

  module _ (L : Library) (N : NonceStore) (env : Env) (routes : List RouteEntry) (r : Request) where
    authorize-Ends :
        (route : RouteEntry) (rid : Str) (verdict : Verdict) (w : World F N.State)
        → match_route r.path routes ≡ some route
        → Ends env routes r w.pools (decisions w.trace) (authorize L N env r route rid verdict w)
    unfolding authorize
    authorize-Ends route rid (rejected reason) w matched =
        inl (refl, deny_auth-IsDecided rid route [] (codes "unknown") reason w)
    authorize-Ends route rid (accepted c sub) w matched =
        elim (Bool-cases (has_scope c route.required_scope)) [
          | inl scoped ↦ rw scoped (dispatch-Ends env routes r route c rid sub w matched)
          | inr lacks ↦
              rw lacks (inl (refl, deny_auth-IsDecided rid route sub c.jti missing_scope w))
        ]

    authenticate-Ends :
        (route : RouteEntry) (rid : Str) (w : World F N.State)
        → match_route r.path routes ≡ some route
        → Ends env routes r w.pools (decisions w.trace) (authenticate L N env r route rid w)
    unfolding authenticate
    authenticate-Ends route rid w matched = elim (Bool-cases (is_empty (extract_bearer r))) [
      | inl missing ↦ rw missing (inl (refl, deny_auth-IsDecided rid route [] [] no_token w))
      | inr given ↦
          let (verdict, v) = verify L N env.now env.later w.verifier (extract_bearer r) in
          rw given (authorize-Ends route rid verdict (record w { verifier = v }) matched)
    ]

    -- Every request that ServeHTTP serves is counted by one decision, and the status of the response
    -- is the one that goes with it; else ServeHTTP panics and counts nothing, and then the service of
    -- the matching route has no pool or no client, or its client gave a response whose status is below
    -- 100 or above 999.
    pub serve_http-Ends :
        (w : World F N.State)
        → Ends env routes r w.pools (decisions w.trace) (serve_http L N env routes r w)
    unfolding serve_http set_header
    serve_http-Ends w =
        let rid = new_request_id env in
        let w' = set_header (codes "X-Request-Id") rid w in
        elim (Option-cases (match_route r.path routes)) [
          | inl missing ↦ rw (missing, serve_http) (inl (refl, no_route-IsDecided rid r w'))
          | inr (route, matched) ↦ rw (matched, serve_http) (authenticate-Ends route rid w' matched)
        ]
