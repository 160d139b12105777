-- ===== src/Proxy/Gateway/Gate.antt =====
-- internal/proxy/handler.go: which requests ServeHTTP hands to http.Client.Do.
use secure_svc_gw.Prelude.{
  ℕ, ◌≡◌, refl, sym, subst, inl, inr, ◌∙◌, Bool, Option, true, some, List, [], ◌∷◌, Str, codes,
  is_empty, lookup, Bool-cases, Option-cases, arith,
}
use secure_svc_gw.Auth.{Claims, no_token, missing_scope, has_scope}
use secure_svc_gw.Auth.Nonce.{NonceStore}
use secure_svc_gw.Auth.Verifier.{Library, Verifier, Verdict, accepted, rejected, verify}
use secure_svc_gw.Lb
use secure_svc_gw.Lb.Floats.{Float}
use secure_svc_gw.Proxy.{RouteEntry, Request, match_route, extract_bearer, target}
use secure_svc_gw.Proxy.Gateway.{Outgoing, World, Env, new_request_id, set_header}
use secure_svc_gw.Proxy.Gateway.Serve.{
  forward, pick_backend, alternative, retry, proxy, dispatch, authorize, authenticate, serve_http,
}
use secure_svc_gw.Proxy.Gateway.Replies.{Forwarded, log_retry}
use secure_svc_gw.Proxy.Gateway.Forwarding.{forward-IsForward}
use secure_svc_gw.Proxy.Gateway.Safety.{sends, IsSafe}
use secure_svc_gw.Proxy.Gateway.Endings.{
  sends-log_retry, sends-conclude, sends-no_healthy_backend, sends-no_route, sends-deny_auth,
}
use secure_svc_gw.Proxy.Gateway.Views.{
  views, IsUpAt, forward-views, pick_backend-IsUpAt, alternative-IsUpAt,
}
use secure_svc_gw.Proxy.Gateway.Sending.{
  SendsAtMost, SendsAtMost-same, SendsAtMost-trans, SendsAtMost-map,
}

-- A request that a route and a subject allow: to the service of the route, with the path of the
-- caller rewritten for a backend that is seen to be healthy, and a safe header.
pub record IsRequestFor (seen : Option (List (Str × Bool))) (r : Request) (route : RouteEntry)
    (rid sub : Str) (out : Str × Outgoing) : Type 0 where
  pub service : out.0 ≡ route.service
  pub safe : IsSafe rid sub out.1.header
  pub method : out.1.method ≡ r.method
  pub addr : Str
  pub healthy : IsUpAt seen addr
  pub url : out.1.url ≡ target addr route.prefix r

module _ {F S : Type 0} ⦃float : Float F⦄ (env : Env) (seen : Option (List (Str × Bool)))
    (r : Request) (route : RouteEntry) (rid sub : Str) where
  forward-sends :
      (i : ℕ) (b : Lb.Backend F) (w : World F S)
      → IsUpAt seen b.addr
      → SendsAtMost
          (IsRequestFor seen r route rid sub)
          1
          (sends w.trace)
          (sends (forward env r route i b rid sub w).1.trace)
  forward-sends i b w up =
      let f = forward-IsForward env r route i b rid sub w in
      elim (f.sends_one) [
        | inl same ↦ SendsAtMost-same (IsRequestFor seen r route rid sub) 1 _ _ same
        | inr (out, gone, safe, method, url, _) ↦ record {
          new = (route.service, out) ∷ [];
          latest = gone;
          few = omega arith;
          each = (
            record {
              service = refl;
              safe = safe;
              method = method;
              addr = b.addr;
              healthy = up;
              url = url;
            },
            tt,
          );
        }
      ]

  retry-sends :
      (b : Lb.Backend F) (result : Forwarded) (w : World F S)
      → views route.service w.pools ≡ seen
      → SendsAtMost
          (IsRequestFor seen r route rid sub)
          1
          (sends w.trace)
          (sends (retry env r route b rid sub result w).1.trace)
  unfolding retry
  retry-sends b result w same = elim (Option-cases result.error) [
    | inl good ↦
        rw (good, retry)
          (SendsAtMost-same (IsRequestFor seen r route rid sub) 1 (sends w.trace) _ refl)
    | inr (e, bad) ↦ elim (Option-cases (alternative env route.service b result w)) [
      | inl alone ↦
          rw (bad, alone, retry)
            (SendsAtMost-same (IsRequestFor seen r route rid sub) 1 (sends w.trace) _ refl)
      | inr ((k, alt), other) ↦
          let again = log_retry rid route b.id alt.id e w in
          rw (bad, other, retry)
            (subst
              (λ before.
                SendsAtMost (IsRequestFor seen r route rid sub) 1 before
                  (sends (forward env r route k alt rid sub again).1.trace))
              (sends-log_retry rid route b.id alt.id e w)
              (forward-sends k alt again (
                subst (λ o. IsUpAt o alt.addr) same
                  (alternative-IsUpAt env route.service b result w k alt other))))
    ]
  ]

  proxy-sends :
      (c : Claims) (i : ℕ) (b : Lb.Backend F) (w : World F S)
      → views route.service w.pools ≡ seen
      → IsUpAt seen b.addr
      → SendsAtMost
          (IsRequestFor seen r route rid sub)
          2
          (sends w.trace)
          (sends (proxy env r route c sub rid i b w).1.trace)
  unfolding proxy
  proxy-sends c i b w same up =
      let one = forward env r route i b rid sub w in
      let two = retry env r route b rid sub (one.0) (one.1) in
      subst (λ after. SendsAtMost (IsRequestFor seen r route rid sub) 2 (sends w.trace) after)
        (sym (sends-conclude rid route c sub two.0.outcome (two.0) (two.1)))
        (SendsAtMost-trans (IsRequestFor seen r route rid sub) 1 1 (sends w.trace)
          (sends one.1.trace) (sends two.1.trace) (forward-sends i b w up)
          (retry-sends b (one.0) (one.1)
            (forward-views env r route i b rid sub w route.service ∙ same)))

  dispatch-sends :
      (c : Claims) (w : World F S)
      → views route.service w.pools ≡ seen
      → SendsAtMost
          (IsRequestFor seen r route rid sub)
          2
          (sends w.trace)
          (sends (dispatch env r route c sub rid w).1.trace)
  unfolding dispatch
  dispatch-sends c w same = elim (Option-cases (lookup route.service w.pools)) [
    | inl missing ↦
        rw (missing, dispatch)
          (SendsAtMost-same (IsRequestFor seen r route rid sub) 2 (sends w.trace) _ refl)
    | inr (p, found) ↦ elim (Option-cases (pick_backend (env.first) p)) [
      | inl all_down ↦
          rw (found, all_down, dispatch)
            (SendsAtMost-same (IsRequestFor seen r route rid sub) 2 (sends w.trace) _
              (sends-no_healthy_backend rid route sub w))
      | inr ((i, b), up) ↦
          rw (found, up, dispatch)
            (proxy-sends c i b w same (
              subst (λ o. IsUpAt o b.addr) same
                (pick_backend-IsUpAt route.service w.pools (env.first) p i b found up)))
    ]
  ]

module _ (L : Library) (N : NonceStore) (env : Env) where
  -- The caller may send: a route matches, the Verifier accepts the token, the claims have the scope.
  pub record IsPermitted (seen : Str → Option (List (Str × Bool))) (routes : List RouteEntry)
      (r : Request) (v : Verifier N.State) (out : Str × Outgoing) : Type 0 where
    pub route : RouteEntry
    pub claims : Claims
    pub sub : Str
    pub matched : match_route r.path routes ≡ some route
    pub verified : (verify L N env.now env.later v (extract_bearer r)).0 ≡ accepted claims sub
    pub scoped : has_scope claims route.required_scope ≡ true
    pub request : IsRequestFor (seen route.service) r route (new_request_id env) sub out

module _ {F : Type 0} ⦃float : Float F⦄ (L : Library) (N : NonceStore) (env : Env) where
  authorize-sends :
      (routes : List RouteEntry) (r : Request) (route : RouteEntry) (v : Verifier N.State)
      (verdict : Verdict) (w : World F N.State)
      → match_route r.path routes ≡ some route
      → (verify L N env.now env.later v (extract_bearer r)).0 ≡ verdict
      → SendsAtMost
          (IsPermitted L N env (λ s. views s w.pools) routes r v)
          2
          (sends w.trace)
          (sends (authorize L N env r route (new_request_id env) verdict w).1.trace)
  unfolding authorize
  authorize-sends routes r route v (rejected reason) w matched verified =
      SendsAtMost-same _ 2 (sends w.trace) _
        (sends-deny_auth (new_request_id env) route [] (codes "unknown") reason w)
  authorize-sends routes r route v (accepted c sub) w matched verified =
      elim (Bool-cases (has_scope c route.required_scope)) [
        | inl scoped ↦ rw scoped (
            SendsAtMost-map
              (IsRequestFor (views route.service w.pools) r route (new_request_id env) sub) _ 2
              (sends w.trace) _
              (λ out request. record {
                route = route;
                claims = c;
                sub = sub;
                matched = matched;
                verified = verified;
                scoped = scoped;
                request = request;
              })
              (dispatch-sends env (views route.service w.pools) r route (new_request_id env) sub c w
                refl))
        | inr lacks ↦ rw lacks (
            SendsAtMost-same _ 2 (sends w.trace) _
              (sends-deny_auth (new_request_id env) route sub c.jti missing_scope w))
      ]

  authenticate-sends :
      (routes : List RouteEntry) (r : Request) (route : RouteEntry) (w : World F N.State)
      → match_route r.path routes ≡ some route
      → SendsAtMost
          (IsPermitted L N env (λ s. views s w.pools) routes r w.verifier)
          2
          (sends w.trace)
          (sends (authenticate L N env r route (new_request_id env) w).1.trace)
  unfolding authenticate
  authenticate-sends routes r route w matched = elim (Bool-cases (is_empty (extract_bearer r))) [
    | inl missing ↦ rw missing (
        SendsAtMost-same _ 2 (sends w.trace) _
          (sends-deny_auth (new_request_id env) route [] [] no_token w))
    | inr given ↦
        let (verdict, v) = verify L N env.now env.later w.verifier (extract_bearer r) in
        rw given (
          authorize-sends routes r route w.verifier verdict (record w { verifier = v }) matched
            refl)
  ]

  -- ServeHTTP hands two requests at most to http.Client.Do, and each only for a caller with a matching
  -- route, a token that the Verifier accepted and the scope of the route. Each goes to the client of the
  -- service of the route; its URL is the address of a backend of that service, one that was healthy in
  -- its pool when the request came, followed at once by the rest of the path and the query; and it has
  -- the subject of the key and the request id, and neither the caller's Authorization header nor the
  -- hop-by-hop headers.
  pub serve_http-sends :
      (routes : List RouteEntry) (r : Request) (w : World F N.State)
      → SendsAtMost
          (IsPermitted L N env (λ s. views s w.pools) routes r w.verifier)
          2
          (sends w.trace)
          (sends (serve_http L N env routes r w).1.trace)
  unfolding serve_http set_header
  serve_http-sends routes r w =
      let w' = set_header (codes "X-Request-Id") (new_request_id env) w in
      elim (Option-cases (match_route r.path routes)) [
        | inl unmatched ↦
            rw (unmatched, serve_http)
              (SendsAtMost-same _ 2 (sends w.trace) _ (sends-no_route (new_request_id env) r w'))
        | inr (route, matched) ↦
            rw (matched, serve_http) (authenticate-sends routes r route w' matched)
      ]
