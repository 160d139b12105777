-- ===== src/Proxy/Gateway/Retry.antt =====
-- internal/proxy/handler.go: with what body ServeHTTP retries.
use secure_svc_gw.Prelude.{
  ℕ, ◌≡◌, false, refl, ap, subst, ◌∙◌, inl, inr, true, none, [], ◌∷◌, Str, Bool-cases, Option-cases,
  arith,
}
use secure_svc_gw.Lb
use secure_svc_gw.Lb.{Pool, acquire, release, record_latency}
use secure_svc_gw.Lb.Floats.{Float}
use secure_svc_gw.Proxy.{RouteEntry, Request, target}
use secure_svc_gw.Proxy.Gateway.{
  closed, unread, close, Outgoing, do_called, World, Reply, Env, record_event, on_backend,
}
use secure_svc_gw.Proxy.Gateway.Serve.{receive, send, attempt, forward, alternative, retry}
use secure_svc_gw.Proxy.Gateway.Replies.{
  Forwarded, is_writable, outgoing_header, write_response, log_retry,
}
use secure_svc_gw.Proxy.Gateway.Forwarding.{Answer-cases, on_backend-keeps, forward-IsForward}
use secure_svc_gw.Proxy.Gateway.Safety.{sends}
use secure_svc_gw.Proxy.Gateway.Endings.{sends-log_retry}
use secure_svc_gw.Proxy.Gateway.Sending.{SendsAtMost, SendsAtMost-same}

module _ {F S : Type 0} ⦃float : Float F⦄ (env : Env) where
  receive-body :
      (service : Str) (i : ℕ) (id : Str) (reply : Reply) (w : World F S)
      → (receive env service i id reply w).1.body ≡ w.body
  unfolding receive record_event write_response
  receive-body service i id reply w =
      let (_, _, _, body) = on_backend-keeps service i (record_latency reply.elapsed_ms) w in
      elim (Answer-cases reply.answer) [
        | inl (e, bad) ↦ rw (bad, receive) body
        | inr (resp, good) ↦ elim (Bool-cases (is_writable resp.status_code)) [
          | inl fine ↦ rw (good, fine, receive) body
          | inr bad ↦ rw (good, bad, receive) body
        ]
      ]

  attempt-body :
      (r : Request) (route : RouteEntry) (i : ℕ) (b : Lb.Backend F) (rid sub : Str) (w : World F S)
      → env.new_request_error r.method (target b.addr route.prefix r) ≡ none
      → env.has_client route.service ≡ true
      → (attempt env r route i b rid sub w).1.body ≡ close w.body
  unfolding attempt send record_event
  attempt-body r route i b rid sub w good client =
      let out : Outgoing = record {
        method = r.method;
        url = target b.addr route.prefix r;
        header = outgoing_header rid sub r.header;
        body = w.body;
      } in
      rw (good, client, attempt)
        (receive-body route.service i b.id (env.exchange w.trace route.service out)
          (record (record_event (do_called route.service out) w) { body = close (w.body) }))

  forward-body :
      (r : Request) (route : RouteEntry) (i : ℕ) (b : Lb.Backend F) (rid sub : Str) (w : World F S)
      → env.new_request_error r.method (target b.addr route.prefix r) ≡ none
      → env.has_client route.service ≡ true
      → (forward env r route i b rid sub w).1.body ≡ close w.body
  unfolding forward
  forward-body r route i b rid sub w good client =
      let held = on_backend route.service i acquire w in
      let (_, _, _, kept) = on_backend-keeps route.service i acquire w in
      let (_, _, _, kept') =
        on_backend-keeps route.service i release (attempt env r route i b rid sub held).1 in
      kept' ∙ attempt-body r route i b rid sub held good client ∙ ap close kept

  -- Without a client forward panics: there is no error, and so no retry.
  forward-no_error :
      (r : Request) (route : RouteEntry) (i : ℕ) (b : Lb.Backend F) (rid sub : Str) (w : World F S)
      → env.new_request_error r.method (target b.addr route.prefix r) ≡ none
      → env.has_client route.service ≡ false
      → (forward env r route i b rid sub w).0.error ≡ none
  unfolding forward attempt send
  forward-no_error r route i b rid sub w good nil = rw (good, nil, attempt) refl

  again-body :
      (r : Request) (route : RouteEntry) (k : ℕ) (alt : Lb.Backend F) (rid sub : Str)
      (w : World F S)
      → w.body ≡ closed
      → SendsAtMost
          (λ out. out.1.body ≡ closed)
          1
          (sends w.trace)
          (sends (forward env r route k alt rid sub w).1.trace)
  again-body r route k alt rid sub w body =
      let f = forward-IsForward env r route k alt rid sub w in
      elim (f.sends_one) [
        | inl same ↦ SendsAtMost-same _ 1 _ _ same
        | inr (out, gone, _, _, _, at) ↦ record {
          new = (route.service, out) ∷ [];
          latest = gone;
          few = omega arith;
          each = (at ∙ body, tt);
        }
      ]

  retry-body :
      (r : Request) (route : RouteEntry) (b : Lb.Backend F) (rid sub : Str) (result : Forwarded)
      (w : World F S)
      → w.body ≡ closed
      → SendsAtMost
          (λ out. out.1.body ≡ closed)
          1
          (sends w.trace)
          (sends (retry env r route b rid sub result w).1.trace)
  unfolding retry log_retry record_event
  retry-body r route b rid sub result w body = elim (Option-cases result.error) [
    | inl good ↦ rw (good, retry) (SendsAtMost-same _ 1 (sends w.trace) _ refl)
    | inr (e, bad) ↦ elim (Option-cases (alternative env route.service b result w)) [
      | inl alone ↦ rw (bad, alone, retry) (SendsAtMost-same _ 1 (sends w.trace) _ refl)
      | inr ((k, alt), other) ↦
          let again = log_retry rid route b.id alt.id e w in
          rw (bad, other, retry)
            (subst
              (λ before.
                SendsAtMost (λ out. out.1.body ≡ closed) 1 before
                  (sends (forward env r route k alt rid sub again).1.trace))
              (sends-log_retry rid route b.id alt.id e w)
              (again-body r route k alt rid sub again body))
    ]
  ]

  -- A request whose body was unread and that went out once is sent again, if at all, with a body that
  -- the first transport has closed.
  pub retry-closed_body :
      (r : Request) (route : RouteEntry) (i : ℕ) (b : Lb.Backend F) (rid sub text : Str)
      (w : World F S)
      → env.new_request_error r.method (target b.addr route.prefix r) ≡ none
      → w.body ≡ unread text
      → SendsAtMost
          (λ out. out.1.body ≡ closed)
          1
          (sends (forward env r route i b rid sub w).1.trace)
          (sends
            (retry env r route b rid sub
              (forward env r route i b rid sub w).0
              (forward env r route i b rid sub w).1).1.trace)
  unfolding close retry
  retry-closed_body r route i b rid sub text w good body =
      elim (Bool-cases (env.has_client route.service)) [
        | inl client ↦
            retry-body r route b rid sub (forward env r route i b rid sub w).0
              (forward env r route i b rid sub w).1
              (forward-body r route i b rid sub w good client ∙ ap close body)
        | inr nil ↦
            rw (forward-no_error r route i b rid sub w good nil, retry)
              (SendsAtMost-same _ 1 (sends (forward env r route i b rid sub w).1.trace) _ refl)
      ]
