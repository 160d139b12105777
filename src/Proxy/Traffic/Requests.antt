-- ===== src/Proxy/Traffic/Requests.antt =====
-- internal/proxy/handler.go: a request that ServeHTTP serves, as steps on the shared pools.
use secure_svc_gw.Prelude.{
  ℕ, ◌<◌, inl, inr, List, [], ◌∷◌, Str, codes, Map, lookup, is_empty, max_int64, length, Bool-cases,
  Option-cases,
}
use secure_svc_gw.Auth.{Claims, has_scope}
use secure_svc_gw.Auth.Nonce.{NonceStore}
use secure_svc_gw.Auth.Verifier.{Library, Verdict, accepted, rejected, verify}
use secure_svc_gw.Lb
use secure_svc_gw.Lb.{Pool, acquire, release, record_latency}
use secure_svc_gw.Lb.Floats.{Float}
use secure_svc_gw.Proxy.{RouteEntry, Request, match_route, extract_bearer, target}
use secure_svc_gw.Proxy.Gateway.{
  Outgoing, close, do_called, World, Reply, Env, new_request_id, record_event, set_header,
  http_error, on_backend, deny_auth,
}
use secure_svc_gw.Proxy.Gateway.Serve.{
  receive, send, attempt, forward, pick_backend, alternative, retry, proxy, dispatch, authorize,
  authenticate, serve_http,
}
use secure_svc_gw.Proxy.Gateway.Replies.{
  Forwarded, Outcome, served, panicked, is_writable, conclude, outgoing_header, write_response,
  no_route, no_healthy_backend, log_retry, finish,
}
use secure_svc_gw.Proxy.Gateway.Forwarding.{Answer-cases}
use secure_svc_gw.Proxy.Traffic.{acquired, timed, released, Steps, none_yet, then_, Steps-trans}

module _ {F : Type 0} ⦃float : Float F⦄ (S : Type 0) where
  -- The pools of the two worlds, with the same calls of forward in flight, are steps apart.
  abbrev pub Moves : List (Str × ℕ) → Map (Pool F) → Map (Pool F) → Type 0
  Moves active before after =
      Steps S (record { pools = before; active = active })
        (record { pools = after; active = active })

module _ {F S : Type 0} ⦃float : Float F⦄ (env : Env) (active : List (Str × ℕ)) where
  receive-Moves :
      (service : Str) (i : ℕ) (id : Str) (reply : Reply) (w : World F S)
      → Moves S active w.pools (receive env service i id reply w).1.pools
  unfolding receive record_event write_response
  receive-Moves service i id reply w =
      let once = then_ none_yet (timed w active service i reply.elapsed_ms) in
      elim (Answer-cases reply.answer) [
        | inl (e, bad) ↦ rw (bad, receive) once
        | inr (resp, good) ↦ elim (Bool-cases (is_writable resp.status_code)) [
          | inl fine ↦ rw (good, fine, receive) once
          | inr bad ↦ rw (good, bad, receive) once
        ]
      ]

  attempt-Moves :
      (r : Request) (route : RouteEntry) (i : ℕ) (b : Lb.Backend F) (rid sub : Str) (w : World F S)
      → Moves S active w.pools (attempt env r route i b rid sub w).1.pools
  unfolding attempt send record_event
  attempt-Moves r route i b rid sub w =
      let url = target b.addr route.prefix r in
      elim (Option-cases (env.new_request_error r.method url)) [
        | inr (e, bad) ↦ rw (bad, attempt) none_yet
        | inl good ↦
            let out : Outgoing = record {
              method = r.method;
              url = url;
              header = outgoing_header rid sub r.header;
              body = w.body;
            } in
            elim (Bool-cases (env.has_client route.service)) [
              | inl client ↦
                  rw (good, client, attempt)
                    (receive-Moves route.service i b.id (env.exchange w.trace route.service out)
                      (record (record_event (do_called route.service out) w) {
                        body = close (w.body);
                      }))
              | inr nil ↦ rw (good, nil, attempt) none_yet
            ]
      ]

module _ {F S : Type 0} ⦃float : Float F⦄ (env : Env) (active : List (Str × ℕ)) where
  -- One call of forward: an Acquire, at most one RecordLatency, and a Release.
  forward-Moves :
      (r : Request) (route : RouteEntry) (i : ℕ) (b : Lb.Backend F) (rid sub : Str) (w : World F S)
      → length active < max_int64
      → Moves S active w.pools (forward env r route i b rid sub w).1.pools
  unfolding forward
  forward-Moves r route i b rid sub w few =
      let acquired_one = on_backend route.service i acquire w in
      let tried = (attempt env r route i b rid sub acquired_one).1 in
      then_
        (Steps-trans S _ _ _ (then_ none_yet (acquired w active route.service i few))
          (attempt-Moves env ((route.service, i) ∷ active) r route i b rid sub acquired_one))
        (released tried [] active route.service i)

  retry-Moves :
      (r : Request) (route : RouteEntry) (b : Lb.Backend F) (rid sub : Str) (result : Forwarded)
      (w : World F S)
      → length active < max_int64
      → Moves S active w.pools (retry env r route b rid sub result w).1.pools
  unfolding retry log_retry record_event
  retry-Moves r route b rid sub result w few = elim (Option-cases result.error) [
    | inl good ↦ rw (good, retry) none_yet
    | inr (e, bad) ↦ elim (Option-cases (alternative env route.service b result w)) [
      | inl alone ↦ rw (bad, alone, retry) none_yet
      | inr ((k, alt), other) ↦
          let again = log_retry rid route b.id alt.id e w in
          rw (bad, other, retry) (forward-Moves r route k alt rid sub again few)
    ]
  ]

  finish-Moves :
      (rid : Str) (route : RouteEntry) (c : Claims) (sub : Str) (result : Forwarded) (w : World F S)
      → Moves S active w.pools (finish rid route c sub result w).pools
  unfolding finish record_event http_error
  finish-Moves rid route c sub result w = elim (Option-cases result.error) [
    | inl good ↦ rw (good, finish) none_yet
    | inr (e, bad) ↦ rw (bad, finish) none_yet
  ]

  conclude-Moves :
      (rid : Str) (route : RouteEntry) (c : Claims) (sub : Str) (o : Outcome) (result : Forwarded)
      (w : World F S)
      → Moves S active w.pools (conclude rid route c sub o result w).1.pools
  unfolding conclude
  conclude-Moves rid route c sub served result w = finish-Moves rid route c sub result w
  conclude-Moves rid route c sub panicked result w = none_yet

  proxy-Moves :
      (r : Request) (route : RouteEntry) (c : Claims) (sub rid : Str) (i : ℕ) (b : Lb.Backend F)
      (w : World F S)
      → length active < max_int64
      → Moves S active w.pools (proxy env r route c sub rid i b w).1.pools
  unfolding proxy
  proxy-Moves r route c sub rid i b w few =
      let one = forward env r route i b rid sub w in
      let two = retry env r route b rid sub (one.0) (one.1) in
      Steps-trans S _ _ _
        (Steps-trans S _ _ _ (forward-Moves r route i b rid sub w few)
          (retry-Moves r route b rid sub (one.0) (one.1) few))
        (conclude-Moves rid route c sub two.0.outcome (two.0) (two.1))

  dispatch-Moves :
      (r : Request) (route : RouteEntry) (c : Claims) (sub rid : Str) (w : World F S)
      → length active < max_int64
      → Moves S active w.pools (dispatch env r route c sub rid w).1.pools
  unfolding dispatch no_healthy_backend record_event http_error
  dispatch-Moves r route c sub rid w few = elim (Option-cases (lookup route.service w.pools)) [
    | inl missing ↦ rw (missing, dispatch) none_yet
    | inr (p, found) ↦ elim (Option-cases (pick_backend (env.first) p)) [
      | inl down ↦ rw (found, down, dispatch) none_yet
      | inr ((i, b), up) ↦ rw (found, up, dispatch) (proxy-Moves r route c sub rid i b w few)
    ]
  ]

module _ {F : Type 0} ⦃float : Float F⦄ (L : Library) (N : NonceStore) (env : Env)
    (active : List (Str × ℕ)) (r : Request) where
  authorize-Moves :
      (route : RouteEntry) (rid : Str) (verdict : Verdict) (w : World F N.State)
      → length active < max_int64
      → Moves N.State active w.pools (authorize L N env r route rid verdict w).1.pools
  unfolding authorize deny_auth record_event http_error
  authorize-Moves route rid (rejected reason) w few = none_yet
  authorize-Moves route rid (accepted c sub) w few =
      elim (Bool-cases (has_scope c route.required_scope)) [
        | inl scoped ↦ rw scoped (dispatch-Moves env active r route c sub rid w few)
        | inr lacks ↦ rw lacks none_yet
      ]

  authenticate-Moves :
      (route : RouteEntry) (rid : Str) (w : World F N.State)
      → length active < max_int64
      → Moves N.State active w.pools (authenticate L N env r route rid w).1.pools
  unfolding authenticate deny_auth record_event http_error
  authenticate-Moves route rid w few = elim (Bool-cases (is_empty (extract_bearer r))) [
    | inl missing ↦ rw missing none_yet
    | inr given ↦
        let (verdict, v) = verify L N env.now env.later w.verifier (extract_bearer r) in
        rw given (authorize-Moves route rid verdict (record w { verifier = v }) few)
  ]

  -- Whatever calls of forward other requests have in flight, all that ServeHTTP does to the pools for
  -- one request are steps of the traffic, and it ends with the same calls in flight as it began with.
  pub serve_http-Moves :
      (routes : List RouteEntry) (w : World F N.State)
      → length active < max_int64
      → Moves N.State active w.pools (serve_http L N env routes r w).1.pools
  unfolding serve_http set_header no_route record_event http_error
  serve_http-Moves routes w few =
      let rid = new_request_id env in
      let w' = set_header (codes "X-Request-Id") rid w in
      elim (Option-cases (match_route r.path routes)) [
        | inl missing ↦ rw (missing, serve_http) none_yet
        | inr (route, matched) ↦ rw (matched, serve_http) (authenticate-Moves route rid w' few)
      ]
