-- ===== src/Proxy/Gateway/Load/Restored.antt =====
-- internal/proxy/handler.go: no way through ServeHTTP keeps a backend acquired.
use secure_svc_gw.Prelude.{
  ℕ, ◌≡◌, refl, sym, ap, ◌∙◌, inl, inr, Bool, true, false, Option, none, some, List, ℤ, IsInt64,
  incr_int64, decr_int64, Str, codes, ◌==◌, is_empty, Map, lookup, modify, All, Bool-cases,
  Option-cases, if◌then◌else◌,
}
use mathlib.Core.Option
use secure_svc_gw.Auth.{Claims, has_scope}
use secure_svc_gw.Auth.Nonce.{NonceStore}
use secure_svc_gw.Auth.Verifier.{Library, Verdict, accepted, rejected, verify}
use secure_svc_gw.Lb
use secure_svc_gw.Lb.{Pool, acquire, release, record_latency}
use secure_svc_gw.Lb.Floats.{Float}
use secure_svc_gw.Proxy.{RouteEntry, Request, match_route, extract_bearer, target}
use secure_svc_gw.Proxy.Gateway.{
  Outgoing, close, do_called, World, Reply, Env, new_request_id, record_event, set_header,
  http_error, on_backend, deny_auth,
}
use secure_svc_gw.Proxy.Gateway.Serve.{
  receive, send, attempt, forward, pick_backend, alternative, retry, proxy, dispatch, authorize,
  authenticate, serve_http,
}
use secure_svc_gw.Proxy.Gateway.Replies.{
  Forwarded, Outcome, served, panicked, is_writable, conclude, outgoing_header, write_response,
  no_route, no_healthy_backend, log_retry, finish,
}
use secure_svc_gw.Proxy.Gateway.Forwarding.{Answer-cases}
use secure_svc_gw.Proxy.Gateway.Load.{
  loads, modify-incr_decr, loads-on_backend, loads-on_backend_same,
}

module _ {F : Type 0} where
  abbrev pub SameLoads : Map (Pool F) → Map (Pool F) → Type 0
  SameLoads before after = (s : Str) → loads s after ≡ loads s before

  -- The counters are int64.
  abbrev pub IsCounting : Map (Pool F) → Type 0
  IsCounting pools = (s : Str) (xs : List ℤ) → loads s pools ≡ some xs → All IsInt64 xs

  IsCounting-SameLoads :
      (before after : Map (Pool F)) → SameLoads before after → IsCounting before → IsCounting after
  IsCounting-SameLoads before after same counting s xs e = counting s xs (sym (same s) ∙ e)

incr_decr_at :
    (i : ℕ) (here : Bool) (o : Option (List ℤ))
    → ((xs : List ℤ) → o ≡ some xs → All IsInt64 xs)
    → (if here
        then Option.map
            (modify i decr_int64)
            (if here then Option.map (modify i incr_int64) o else o)
        else if here
        then Option.map (modify i incr_int64) o
        else o)
      ≡ o
incr_decr_at i true (some xs) range = ap some (modify-incr_decr i xs (range xs refl))
incr_decr_at i true none range = refl
incr_decr_at i false o range = refl

module _ {F : Type 0} ⦃float : Float F⦄ where
  pub record_latency-inflight :
      (ms : ℤ) (b : Lb.Backend F) → (record_latency ms b).inflight ≡ b.inflight
  unfolding record_latency
  record_latency-inflight ms b = elim (Bool-cases b.has_stats) [
    | inl known ↦ rw (known, record_latency) refl
    | inr fresh ↦ rw (fresh, record_latency) refl
  ]

module _ {F S : Type 0} ⦃float : Float F⦄ (env : Env) where
  receive-SameLoads :
      (service : Str) (i : ℕ) (id : Str) (reply : Reply) (w : World F S)
      → SameLoads w.pools (receive env service i id reply w).1.pools
  unfolding receive record_event write_response
  receive-SameLoads service i id reply w s =
      let timed =
        loads-on_backend_same s service i (record_latency reply.elapsed_ms) w
          (record_latency-inflight reply.elapsed_ms) in
      elim (Answer-cases reply.answer) [
        | inl (e, bad) ↦ rw (bad, receive) timed
        | inr (resp, good) ↦ elim (Bool-cases (is_writable resp.status_code)) [
          | inl fine ↦ rw (good, fine, receive) timed
          | inr bad ↦ rw (good, bad, receive) timed
        ]
      ]

  attempt-SameLoads :
      (r : Request) (route : RouteEntry) (i : ℕ) (b : Lb.Backend F) (rid sub : Str) (w : World F S)
      → SameLoads w.pools (attempt env r route i b rid sub w).1.pools
  unfolding attempt send record_event
  attempt-SameLoads r route i b rid sub w s =
      let url = target b.addr route.prefix r in
      elim (Option-cases (env.new_request_error r.method url)) [
        | inr (e, bad) ↦ rw (bad, attempt) refl
        | inl good ↦
            let out : Outgoing = record {
              method = r.method;
              url = url;
              header = outgoing_header rid sub r.header;
              body = w.body;
            } in
            elim (Bool-cases (env.has_client route.service)) [
              | inl client ↦
                  rw (good, client, attempt)
                    (receive-SameLoads route.service i b.id (env.exchange w.trace route.service out)
                      (record (record_event (do_called route.service out) w) {
                        body = close (w.body);
                      })
                      s)
              | inr nil ↦ rw (good, nil, attempt) refl
            ]
      ]

  -- One call of forward, an error of http.NewRequestWithContext included.
  pub forward-SameLoads :
      (r : Request) (route : RouteEntry) (i : ℕ) (b : Lb.Backend F) (rid sub : Str) (w : World F S)
      → IsCounting w.pools
      → SameLoads w.pools (forward env r route i b rid sub w).1.pools
  unfolding forward acquire release
  forward-SameLoads r route i b rid sub w counting s =
      let held = on_backend route.service i acquire w in
      let tried = (attempt env r route i b rid sub held).1 in
      let here = s == route.service in
      loads-on_backend s route.service i release decr_int64 tried (λ x. refl)
      ∙ ap (λ o. if here then Option.map (modify i decr_int64) o else o)
          (attempt-SameLoads r route i b rid sub held s
            ∙ loads-on_backend s route.service i acquire incr_int64 w (λ x. refl))
      ∙ incr_decr_at i here (loads s w.pools) (counting s)

  retry-SameLoads :
      (r : Request) (route : RouteEntry) (b : Lb.Backend F) (rid sub : Str) (result : Forwarded)
      (w : World F S)
      → IsCounting w.pools
      → SameLoads w.pools (retry env r route b rid sub result w).1.pools
  unfolding retry log_retry record_event
  retry-SameLoads r route b rid sub result w counting s = elim (Option-cases result.error) [
    | inl good ↦ rw (good, retry) refl
    | inr (e, bad) ↦ elim (Option-cases (alternative env route.service b result w)) [
      | inl alone ↦ rw (bad, alone, retry) refl
      | inr ((k, alt), other) ↦
          let again = log_retry rid route b.id alt.id e w in
          rw (bad, other, retry) (forward-SameLoads r route k alt rid sub again counting s)
    ]
  ]

  finish-SameLoads :
      (rid : Str) (route : RouteEntry) (c : Claims) (sub : Str) (result : Forwarded) (w : World F S)
      → SameLoads w.pools (finish rid route c sub result w).pools
  unfolding finish record_event http_error
  finish-SameLoads rid route c sub result w s = elim (Option-cases result.error) [
    | inl good ↦ rw (good, finish) refl
    | inr (e, bad) ↦ rw (bad, finish) refl
  ]

  conclude-SameLoads :
      (rid : Str) (route : RouteEntry) (c : Claims) (sub : Str) (o : Outcome) (result : Forwarded)
      (w : World F S)
      → SameLoads w.pools (conclude rid route c sub o result w).1.pools
  unfolding conclude
  conclude-SameLoads rid route c sub served result w s = finish-SameLoads rid route c sub result w s
  conclude-SameLoads rid route c sub panicked result w s = refl

  proxy-SameLoads :
      (r : Request) (route : RouteEntry) (c : Claims) (sub rid : Str) (i : ℕ) (b : Lb.Backend F)
      (w : World F S)
      → IsCounting w.pools
      → SameLoads w.pools (proxy env r route c sub rid i b w).1.pools
  unfolding proxy
  proxy-SameLoads r route c sub rid i b w counting s =
      let one = forward env r route i b rid sub w in
      let two = retry env r route b rid sub (one.0) (one.1) in
      let same = forward-SameLoads r route i b rid sub w counting in
      conclude-SameLoads rid route c sub two.0.outcome (two.0) (two.1) s
      ∙ retry-SameLoads r route b rid sub (one.0) (one.1)
          (IsCounting-SameLoads w.pools one.1.pools same counting) s
      ∙ same s

  dispatch-SameLoads :
      (r : Request) (route : RouteEntry) (c : Claims) (sub rid : Str) (w : World F S)
      → IsCounting w.pools
      → SameLoads w.pools (dispatch env r route c sub rid w).1.pools
  unfolding dispatch no_healthy_backend record_event http_error
  dispatch-SameLoads r route c sub rid w counting s =
      elim (Option-cases (lookup route.service w.pools)) [
        | inl missing ↦ rw (missing, dispatch) refl
        | inr (p, found) ↦ elim (Option-cases (pick_backend (env.first) p)) [
          | inl down ↦ rw (found, down, dispatch) refl
          | inr ((i, b), up) ↦
              rw (found, up, dispatch) (proxy-SameLoads r route c sub rid i b w counting s)
        ]
      ]

module _ {F : Type 0} ⦃float : Float F⦄ (L : Library) (N : NonceStore) (env : Env)
    (r : Request) where
  authorize-SameLoads :
      (route : RouteEntry) (rid : Str) (verdict : Verdict) (w : World F N.State)
      → IsCounting w.pools
      → SameLoads w.pools (authorize L N env r route rid verdict w).1.pools
  unfolding authorize deny_auth record_event http_error
  authorize-SameLoads route rid (rejected reason) w counting s = refl
  authorize-SameLoads route rid (accepted c sub) w counting s =
      elim (Bool-cases (has_scope c route.required_scope)) [
        | inl scoped ↦ rw scoped (dispatch-SameLoads env r route c sub rid w counting s)
        | inr lacks ↦ rw lacks refl
      ]

  authenticate-SameLoads :
      (route : RouteEntry) (rid : Str) (w : World F N.State)
      → IsCounting w.pools
      → SameLoads w.pools (authenticate L N env r route rid w).1.pools
  unfolding authenticate deny_auth record_event http_error
  authenticate-SameLoads route rid w counting s = elim (Bool-cases (is_empty (extract_bearer r))) [
    | inl missing ↦ rw missing refl
    | inr given ↦
        let (verdict, v) = verify L N env.now env.later w.verifier (extract_bearer r) in
        rw given (authorize-SameLoads route rid verdict (record w { verifier = v }) counting s)
  ]

  -- When the in-flight counters are int64 values, ServeHTTP leaves the counters of every pool as they
  -- were, on every way out: what it acquires it releases.
  pub serve_http-SameLoads :
      (routes : List RouteEntry) (w : World F N.State)
      → IsCounting w.pools
      → SameLoads w.pools (serve_http L N env routes r w).1.pools
  unfolding serve_http set_header no_route record_event http_error
  serve_http-SameLoads routes w counting s =
      let rid = new_request_id env in
      let w' = set_header (codes "X-Request-Id") rid w in
      elim (Option-cases (match_route r.path routes)) [
        | inl missing ↦ rw (missing, serve_http) refl
        | inr (route, matched) ↦
            rw (matched, serve_http) (authenticate-SameLoads route rid w' counting s)
      ]
