-- ===== src/Proxy/Gateway/Forwarding.antt =====
-- internal/proxy/handler.go: what one call of forward does to the trace and to the response.
use secure_svc_gw.Prelude.{
  ℕ, ◌≡◌, refl, sym, ap, ◌∙◌, ◌⊎◌, inl, inr, false, none, some, ◌∷◌, ◌++◌, Str, codes, lookup,
  Option-cases, Bool-cases,
}
use secure_svc_gw.Lb
use secure_svc_gw.Lb.{record_latency, acquire, release}
use secure_svc_gw.Lb.Floats.{Float}
use secure_svc_gw.Proxy.{RouteEntry, Request, UpstreamError, target}
use secure_svc_gw.Proxy.Gateway.{
  close, Outgoing, do_called, World, Response, HttpResponse, Answer, responded, failed, Env,
  record_event, on_backend,
}
use secure_svc_gw.Proxy.Headers.{set, copy_headers}
use secure_svc_gw.Proxy.Gateway.Serve.{receive, send, attempt, forward}
use secure_svc_gw.Proxy.Gateway.Replies.{
  Forwarded, served, panicked, is_writable, outgoing_header, write_response,
}
use secure_svc_gw.Proxy.Gateway.Safety.{sends, decisions, IsSafe, outgoing_header-IsSafe}

module _ {F S : Type 0} where
  pub on_backend-keeps :
      (service : Str) (i : ℕ) (f : Lb.Backend F → Lb.Backend F) (w : World F S)
      → ((on_backend service i f w).trace ≡ w.trace)
        × ((on_backend service i f w).writer ≡ w.writer)
        × ((on_backend service i f w).verifier ≡ w.verifier)
        × ((on_backend service i f w).body ≡ w.body)
  unfolding on_backend
  on_backend-keeps service i f w = elim (Option-cases (lookup service w.pools)) [
    | inl missing ↦ rw (missing, on_backend) (refl, refl, refl, refl)
    | inr (p, found) ↦ rw (found, on_backend) (refl, refl, refl, refl)
  ]

  -- How a call of forward ends: the request cannot be made, there is no client, Do fails, or it gives a
  -- response that is passed on, or on whose status WriteHeader panics. On an error the caller has seen
  -- nothing.
  pub data Answers (env : Env) (service id : Str) (r : Request) (url : Str) (w : World F S)
      (result : Forwarded) (w' : World F S) : Type 0 where
    refused :
        (e : UpstreamError)
        → env.new_request_error r.method url ≡ some e
        → result.outcome ≡ served
        → result.error ≡ some e
        → w'.writer ≡ w.writer
        → Answers env service id r url w result w'
    no_client :
        env.has_client service ≡ false
        → result.outcome ≡ panicked
        → result.error ≡ none
        → Answers env service id r url w result w'
    broken :
        (out : Outgoing) (e : UpstreamError)
        → sends w'.trace ≡ (service, out) ∷ sends w.trace
        → (env.exchange w.trace service out).answer ≡ failed e
        → result.outcome ≡ served
        → result.error ≡ some e
        → w'.writer ≡ w.writer
        → Answers env service id r url w result w'
    passed :
        (out : Outgoing) (resp : HttpResponse)
        → sends w'.trace ≡ (service, out) ∷ sends w.trace
        → (env.exchange w.trace service out).answer ≡ responded resp
        → result.outcome ≡ served
        → result.error ≡ none
        → result.status ≡ resp.status_code
        → w'.writer ≡ record {
          header = set (codes "X-Upstream") id (copy_headers resp.header w.writer.header);
          status = some resp.status_code;
          body = w.writer.body ++ resp.body;
        }
        → Answers env service id r url w result w'
    unwritable :
        (out : Outgoing) (resp : HttpResponse)
        → sends w'.trace ≡ (service, out) ∷ sends w.trace
        → (env.exchange w.trace service out).answer ≡ responded resp
        → is_writable resp.status_code ≡ false
        → result.outcome ≡ panicked
        → result.error ≡ none
        → Answers env service id r url w result w'

  -- What a call of forward may do: it counts no decision, calls Do once with a safe request or not at
  -- all, and ends in one of the five ways.
  pub record IsForward (env : Env) (service id rid sub : Str) (r : Request) (url : Str)
      (w : World F S) (result : Forwarded) (w' : World F S) : Type 0 where
    pub decisions_kept : decisions w'.trace ≡ decisions w.trace
    pub sends_one :
        (sends w'.trace ≡ sends w.trace)
        ⊎ ((out : Outgoing) × (sends w'.trace ≡ (service, out) ∷ sends w.trace)
            × IsSafe rid sub out.header
            × (out.method ≡ r.method)
            × (out.url ≡ url)
            × (out.body ≡ w.body))
    pub answers : Answers env service id r url w result w'

-- The response once the one of the backend is passed on.
abbrev written : Str → HttpResponse → Response → Response
written id resp x = record {
  header = set (codes "X-Upstream") id (copy_headers resp.header x.header);
  status = some resp.status_code;
  body = x.body ++ resp.body;
}

pub Answer-cases :
    (a : Answer)
    → ((e : UpstreamError) × (a ≡ failed e)) ⊎ ((resp : HttpResponse) × (a ≡ responded resp))
Answer-cases (failed e) = inl (e, refl)
Answer-cases (responded resp) = inr (resp, refl)

module _ {F S : Type 0} ⦃float : Float F⦄ (env : Env) where
  -- The response of Do, as the rest of forward leaves it.
  receive-Answers :
      (service id : Str) (i : ℕ) (r : Request) (url : Str) (out : Outgoing) (w before : World F S)
      → sends w.trace ≡ (service, out) ∷ sends before.trace
      → w.writer ≡ before.writer
      → (let after = receive env service i id (env.exchange before.trace service out) w in
          (decisions after.1.trace ≡ decisions w.trace)
          × (sends after.1.trace ≡ sends w.trace)
          × Answers env service id r url before after.0 after.1)
  unfolding receive record_event write_response decisions sends
  receive-Answers service id i r url out w before gone same =
      let reply = env.exchange before.trace service out in
      let (trace, writer, _, _) = on_backend-keeps service i (record_latency reply.elapsed_ms) w in
      elim (Answer-cases reply.answer) [
        | inl (e, bad) ↦
            rw (bad, receive)
              (
                ap decisions trace,
                ap sends trace,
                broken out e (ap sends trace ∙ gone) bad refl refl (writer ∙ same),
              )
        | inr (resp, good) ↦ elim (Bool-cases (is_writable resp.status_code)) [
          | inl fine ↦
              rw (good, fine, receive)
                (
                  ap decisions trace,
                  ap sends trace,
                  passed out resp (ap sends trace ∙ gone) good refl refl refl
                      (ap (written id resp) (writer ∙ same)),
                )
          | inr bad ↦
              rw (good, bad, receive)
                (
                  ap decisions trace,
                  ap sends trace,
                  unwritable out resp (ap sends trace ∙ gone) good bad refl refl,
                )
        ]
      ]

  attempt-IsForward :
      (r : Request) (route : RouteEntry) (i : ℕ) (b : Lb.Backend F) (rid sub : Str) (w : World F S)
      → IsForward env route.service b.id rid sub r
          (target b.addr route.prefix r)
          w
          (attempt env r route i b rid sub w).0
          (attempt env r route i b rid sub w).1
  unfolding attempt send record_event decisions sends
  attempt-IsForward r route i b rid sub w =
      let url = target b.addr route.prefix r in
      elim (Option-cases (env.new_request_error r.method url)) [
        | inr (e, bad) ↦
            rw (bad, attempt)
              (record {
                decisions_kept = refl;
                sends_one = inl refl;
                answers = refused e bad refl refl refl;
              })
        | inl good ↦
            let out : Outgoing = record {
              method = r.method;
              url = url;
              header = outgoing_header rid sub r.header;
              body = w.body;
            } in
            let (counted, gone, answered) =
              receive-Answers route.service b.id i r url out
                (record (record_event (do_called route.service out) w) { body = close (w.body) }) w
                refl refl in
            elim (Bool-cases (env.has_client route.service)) [
              | inl client ↦
                  rw (good, client, attempt)
                    (record {
                      decisions_kept = counted;
                      sends_one =
                          inr
                            (out, gone, outgoing_header-IsSafe rid sub r.header, refl, refl, refl);
                      answers = answered;
                    })
              | inr nil ↦
                  rw (good, nil, attempt)
                    (record {
                      decisions_kept = refl;
                      sends_one = inl refl;
                      answers = no_client nil refl refl;
                    })
            ]
      ]

  -- What Answers says of a call between two worlds holds between two others with the same traces and
  -- responses.
  Answers-around :
      (service id : Str) (r : Request) (url : Str) (w held w' after : World F S)
      (result : Forwarded)
      → held.trace ≡ w.trace
      → held.writer ≡ w.writer
      → after.trace ≡ w'.trace
      → after.writer ≡ w'.writer
      → Answers env service id r url held result w'
      → Answers env service id r url w result after
  Answers-around service id r url w held w' after result trace writer trace' writer'
        (refused e bad ok is same) =
      refused e bad ok is (writer' ∙ same ∙ writer)
  Answers-around service id r url w held w' after result trace writer trace' writer'
        (no_client nil crash is) =
      no_client nil crash is
  Answers-around service id r url w held w' after result trace writer trace' writer'
        (broken out e gone answer ok is same) =
      broken out e (ap sends trace' ∙ gone ∙ ap (λ t. (service, out) ∷ sends t) trace)
        (ap (λ t. (env.exchange t service out).answer) (sym trace) ∙ answer) ok is
        (writer' ∙ same ∙ writer)
  Answers-around service id r url w held w' after result trace writer trace' writer'
        (passed out resp gone answer ok is status wrote) =
      passed out resp (ap sends trace' ∙ gone ∙ ap (λ t. (service, out) ∷ sends t) trace)
        (ap (λ t. (env.exchange t service out).answer) (sym trace) ∙ answer) ok is status
        (writer' ∙ wrote ∙ ap (written id resp) writer)
  Answers-around service id r url w held w' after result trace writer trace' writer'
        (unwritable out resp gone answer bad crash is) =
      unwritable out resp (ap sends trace' ∙ gone ∙ ap (λ t. (service, out) ∷ sends t) trace)
        (ap (λ t. (env.exchange t service out).answer) (sym trace) ∙ answer) bad crash is

  -- The two steps around an attempt change neither the trace nor the response.
  around :
      (service id rid sub : Str) (r : Request) (url : Str) (w held w' after : World F S)
      (result : Forwarded)
      → (held.trace ≡ w.trace) × (held.writer ≡ w.writer) × (held.body ≡ w.body)
      → (after.trace ≡ w'.trace) × (after.writer ≡ w'.writer)
      → IsForward env service id rid sub r url held result w'
      → IsForward env service id rid sub r url w result after
  around service id rid sub r url w held w' after result (trace, writer, body) (trace', writer') f =
      record {
        decisions_kept = ap decisions trace' ∙ f.decisions_kept ∙ ap decisions trace;
        sends_one = elim (f.sends_one) [
          | inl none_sent ↦ inl (ap sends trace' ∙ none_sent ∙ ap sends trace)
          | inr (out, gone, safe, m, u, at) ↦ inr (
            out,
            ap sends trace' ∙ gone ∙ ap (λ t. (service, out) ∷ sends t) trace,
            safe,
            m,
            u,
            at ∙ body,
          )
        ];
        answers =
            Answers-around service id r url w held w' after result trace writer trace' writer'
              f.answers;
      }

  -- One call of forward counts no decision, and hands http.Client.Do one request with a safe header, the
  -- method and the body of the caller and the target as its URL, or none. It ends with the error of
  -- making the request or of Do, the caller having seen nothing; or with the response of Do for that
  -- request, its status, headers and body passed on; or it panics, without a client or on a status
  -- that WriteHeader does not take.
  pub forward-IsForward :
      (r : Request) (route : RouteEntry) (i : ℕ) (b : Lb.Backend F) (rid sub : Str) (w : World F S)
      → IsForward env route.service b.id rid sub r
          (target b.addr route.prefix r)
          w
          (forward env r route i b rid sub w).0
          (forward env r route i b rid sub w).1
  unfolding forward
  forward-IsForward r route i b rid sub w =
      let held = on_backend route.service i acquire w in
      let (trace, writer, _, body) = on_backend-keeps route.service i acquire w in
      let (trace', writer', _, _) =
        on_backend-keeps route.service i release (attempt env r route i b rid sub held).1 in
      around route.service b.id rid sub r (target b.addr route.prefix r) w held
        (attempt env r route i b rid sub held).1 (forward env r route i b rid sub w).1
        (attempt env r route i b rid sub held).0 (trace, writer, body) (trace', writer')
        (attempt-IsForward r route i b rid sub held)
