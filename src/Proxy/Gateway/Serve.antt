-- ===== src/Proxy/Gateway/Serve.antt =====
-- internal/proxy/handler.go: forward and ServeHTTP.
use secure_svc_gw.Prelude.{
  ℕ, Option, none, some, List, [], pos, Str, codes, is_empty, ◌==◌, lookup, get_elem?,
  if◌then◌else◌,
}
use secure_svc_gw.Auth.{Claims, no_token, missing_scope, has_scope}
use secure_svc_gw.Auth.Nonce.{NonceStore}
use secure_svc_gw.Auth.Verifier.{Library, Verdict, accepted, rejected, verify}
use secure_svc_gw.Lb
use secure_svc_gw.Lb.{Pool, pick, acquire, release, record_latency}
use secure_svc_gw.Lb.Floats.{Float}
use secure_svc_gw.Proxy.{RouteEntry, Request, match_route, extract_bearer, target, is_retryable}
use secure_svc_gw.Proxy.Gateway.{
  close, Outgoing, observed, do_called, World, responded, failed, Reply, Env, new_request_id,
  record_event, set_header, on_backend, deny_auth,
}
use secure_svc_gw.Proxy.Gateway.Replies.{
  Forwarded, Outcome, served, panicked, outgoing_header, write_response, no_route,
  no_healthy_backend, log_retry, conclude,
}

module _ {F : Type 0} ⦃float : Float F⦄ where
  -- pool.Pick(), as the pointer and what it points at.
  unfoldable pub pick_backend : ℕ × ℕ → Pool F → Option (ℕ × Lb.Backend F)
  pick_backend (i, j) p = elim (pick i j p) [
    | none ↦ none
    | some k ↦ elim (get_elem? p.backends k) [ none ↦ none | some b ↦ some (k, b) ]
  ]

module _ {F : Type 0} where
  -- alt != nil && alt.ID != backend.ID
  unfoldable pub other_than : Lb.Backend F → Option (ℕ × Lb.Backend F) → Option (ℕ × Lb.Backend F)
  other_than b none = none
  other_than b (some (k, alt)) = if alt.id == b.id then none else some (k, alt)

module _ {F S : Type 0} ⦃float : Float F⦄ (env : Env) where
  -- forward after Do returned, before the deferred Release.
  unfoldable pub receive : Str → ℕ → Str → Reply → World F S → Forwarded × World F S
  receive service i id reply w =
      let timed = on_backend service i (record_latency reply.elapsed_ms) w in
      elim (reply.answer) [
        | failed e ↦ (
          record { outcome = served; status = pos 0; upstream = id; error = some e },
          record_event (observed service id (pos 0)) timed,
        )
        | responded resp ↦
            let (outcome, w') =
              write_response id resp (record_event (observed service id resp.status_code) timed) in
            (
              record { outcome = outcome; status = resp.status_code; upstream = id; error = none },
              w',
            )
      ]

  -- The call of Do: the body is closed whatever comes back. A nil client makes Do panic at once.
  unfoldable pub send : Str → ℕ → Str → Outgoing → World F S → Forwarded × World F S
  unfolding receive
  send service i id out w =
      let reply = env.exchange w.trace service out in
      let received =
        receive service i id reply
          (record (record_event (do_called service out) w) { body = close (w.body) }) in
      if env.has_client service
      then received
      else (record { outcome = panicked; status = pos 0; upstream = id; error = none }, w)

  -- forward between Acquire and the deferred Release.
  unfoldable pub attempt :
      Request → RouteEntry → ℕ → Lb.Backend F → Str → Str → World F S → Forwarded × World F S
  unfolding send
  attempt r route i b rid sub w =
      let url = target b.addr route.prefix r in
      elim (env.new_request_error r.method url) [
        | some e ↦ (record { outcome = served; status = pos 0; upstream = b.id; error = some e }, w)
        | none ↦
            send route.service i b.id
              (record {
                method = r.method;
                url = url;
                header = outgoing_header rid sub r.header;
                body = w.body;
              })
              w
      ]

  -- forward, to the backend `b` at the index `i`.
  unfoldable pub forward :
      Request → RouteEntry → ℕ → Lb.Backend F → Str → Str → World F S → Forwarded × World F S
  unfolding attempt
  forward r route i b rid sub w =
      let (result, w') = attempt r route i b rid sub (on_backend route.service i acquire w) in
      (result, on_backend route.service i release w')

  -- The backend of the retry, if there is one.
  unfoldable pub alternative :
      Str → Lb.Backend F → Forwarded → World F S → Option (ℕ × Lb.Backend F)
  unfolding pick_backend other_than
  alternative service b result w =
      if is_retryable result.error
      then elim (lookup service w.pools) [
        | none ↦ none
        | some p ↦ other_than b (pick_backend (env.second) p)
      ]
      else none

  -- if err != nil && isRetryable(err), after the first forward.
  unfoldable pub retry :
      Request
      → RouteEntry
      → Lb.Backend F
      → Str
      → Str
      → Forwarded
      → World F S
      → Forwarded × World F S
  unfolding alternative forward
  retry r route b rid sub result w = elim (result.error) [
    | none ↦ (result, w)
    | some e ↦ elim (alternative route.service b result w) [
      | none ↦ (result, w)
      | some (k, alt) ↦ forward r route k alt rid sub (log_retry rid route b.id alt.id e w)
    ]
  ]

  -- ServeHTTP once a backend is picked.
  unfoldable pub proxy :
      Request → RouteEntry → Claims → Str → Str → ℕ → Lb.Backend F → World F S → Outcome × World F S
  unfolding forward retry conclude
  proxy r route c sub rid i b w =
      let (result, w') = forward r route i b rid sub w in
      let (result', w'') = retry r route b rid sub result w' in
      conclude rid route c sub result'.outcome result' w''

  -- ServeHTTP once the caller is authorized.
  unfoldable pub dispatch :
      Request → RouteEntry → Claims → Str → Str → World F S → Outcome × World F S
  unfolding pick_backend proxy
  dispatch r route c sub rid w = elim (lookup route.service w.pools) [
    | none ↦ (panicked, w)
    | some p ↦ elim (pick_backend (env.first) p) [
      | none ↦ (served, no_healthy_backend rid route sub w)
      | some (i, b) ↦ proxy r route c sub rid i b w
    ]
  ]

module _ {F : Type 0} ⦃float : Float F⦄ (L : Library) (N : NonceStore) (env : Env) where
  -- ServeHTTP once the token is verified. On an error Verify returns no claims and no subject.
  unfoldable pub authorize :
      Request → RouteEntry → Str → Verdict → World F N.State → Outcome × World F N.State
  unfolding dispatch
  authorize r route rid (rejected reason) w =
      (served, deny_auth rid route [] (codes "unknown") reason w)
  authorize r route rid (accepted c sub) w =
      if has_scope c route.required_scope
      then dispatch env r route c sub rid w
      else (served, deny_auth rid route sub c.jti missing_scope w)

  unfoldable pub authenticate :
      Request → RouteEntry → Str → World F N.State → Outcome × World F N.State
  unfolding authorize
  authenticate r route rid w =
      let token = extract_bearer r in
      if is_empty token
      then (served, deny_auth rid route [] [] no_token w)
      else (let (verdict, v) = verify L N env.now env.later w.verifier token in
          authorize r route rid verdict (record w { verifier = v }))

  unfoldable pub serve_http :
      List RouteEntry → Request → World F N.State → Outcome × World F N.State
  unfolding authenticate
  serve_http routes r w =
      let rid = new_request_id env in
      let w' = set_header (codes "X-Request-Id") rid w in
      elim (match_route r.path routes) [
        | none ↦ (served, no_route rid r w')
        | some route ↦ authenticate r route rid w'
      ]
