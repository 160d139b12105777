-- ===== src/Proxy/Gateway/Replies.antt =====
-- internal/proxy/handler.go: the header of a forwarded request, and the endings of ServeHTTP.
use secure_svc_gw.Prelude.{
  leb_ℤ, ◌&&◌, Bool, if◌then◌else◌, Option, none, some, [], ◌∷◌, ◌++◌, ℤ, pos, Str, codes,
}
use secure_svc_gw.Auth.{Claims}
use secure_svc_gw.Proxy.{RouteEntry, Request, UpstreamError, canceled, deadline_exceeded, transport}
use secure_svc_gw.Proxy.Headers.{Header, set, del, copy_headers}
use secure_svc_gw.Proxy.Gateway.{
  text, code, info, warn, error, requests_total, logged, World, HttpResponse, record_event,
  http_error,
}

-- Whether a call came to its end: a nil pool, a nil client and a bad status make ServeHTTP panic.
pub data Outcome : Type 0 where
  served panicked : Outcome

-- The three results of forward; if it panics, they mean nothing.
pub record Forwarded : Type 0 where
  pub outcome : Outcome
  pub status : ℤ
  pub upstream : Str
  pub error : Option UpstreamError

-- The statuses on which WriteHeader of net/http does not panic. Of the informational ones http.Client
-- gives only 101, which WriteHeader takes as a final one.
unfoldable pub is_writable : ℤ → Bool
is_writable status = leb_ℤ (pos 100) status && leb_ℤ status (pos 999)

-- The header of the request to the backend.
unfoldable pub outgoing_header : Str → Str → Header → Header
outgoing_header rid sub h =
    set (codes "X-Request-Id") rid
      (set (codes "X-Forwarded-Sub") sub (del (codes "Authorization") (copy_headers h [])))

-- err.Error()
unfoldable pub error_text : UpstreamError → Str
error_text canceled = codes "context canceled"
error_text deadline_exceeded = codes "context deadline exceeded"
error_text (transport message) = message

module _ {F S : Type 0} where
  -- The response of the backend, passed on. WriteHeader may panic.
  unfoldable pub write_response : Str → HttpResponse → World F S → Outcome × World F S
  unfolding is_writable
  write_response id resp w =
      let h = set (codes "X-Upstream") id (copy_headers resp.header w.writer.header) in
      if is_writable resp.status_code
      then (
        served,
        record w {
          writer = record {
            header = h;
            status = some resp.status_code;
            body = w.writer.body ++ resp.body;
          };
        },
      )
      else (panicked, record w { writer = record (w.writer) { header = h } })

  unfoldable pub no_route : Str → Request → World F S → World F S
  no_route rid r w =
      let counted =
        record_event (requests_total (codes "none") (codes "deny") (codes "no_route")) w in
      let line =
        record_event
          (logged info (codes "request rejected") (
            text (codes "request_id") rid
            ∷ text (codes "decision") (codes "deny")
            ∷ text (codes "reason") (codes "no_route")
            ∷ text (codes "path") r.path
            ∷ text (codes "method") r.method
            ∷ []))
          counted in
      http_error (codes "no route") (pos 404) line

  unfoldable pub no_healthy_backend : Str → RouteEntry → Str → World F S → World F S
  no_healthy_backend rid route sub w =
      let counted =
        record_event (requests_total route.prefix (codes "deny") (codes "no_healthy_backend")) w in
      let line =
        record_event
          (logged error (codes "no healthy backend") (
            text (codes "request_id") rid
            ∷ text (codes "decision") (codes "deny")
            ∷ text (codes "reason") (codes "no_healthy_backend")
            ∷ text (codes "route") route.prefix
            ∷ text (codes "target_service") route.service
            ∷ text (codes "sub") sub
            ∷ []))
          counted in
      http_error (codes "no healthy backend") (pos 503) line

  unfoldable pub log_retry : Str → RouteEntry → Str → Str → UpstreamError → World F S → World F S
  log_retry rid route previous alt e w =
      record_event
        (logged warn (codes "retrying on alt backend") (
          text (codes "request_id") rid
          ∷ text (codes "decision") (codes "route")
          ∷ text (codes "reason") (codes "retry")
          ∷ text (codes "route") route.prefix
          ∷ text (codes "prev_upstream") previous
          ∷ text (codes "upstream") alt
          ∷ text (codes "err") (error_text e)
          ∷ []))
        w

  -- The end of ServeHTTP, after the last forward came to its end.
  unfoldable pub finish : Str → RouteEntry → Claims → Str → Forwarded → World F S → World F S
  finish rid route c sub result w = elim (result.error) [
    | some e ↦
        let counted =
          record_event (requests_total route.prefix (codes "deny") (codes "upstream_error")) w in
        let line =
          record_event
            (logged error (codes "upstream error") (
              text (codes "request_id") rid
              ∷ text (codes "decision") (codes "deny")
              ∷ text (codes "reason") (codes "upstream_error")
              ∷ text (codes "route") route.prefix
              ∷ text (codes "upstream") result.upstream
              ∷ text (codes "err") (error_text e)
              ∷ []))
            counted in
        http_error (codes "bad gateway") (pos 502) line
    | none ↦
        let counted = record_event (requests_total route.prefix (codes "allow") (codes "ok")) w in
        record_event
          (logged info (codes "request forwarded") (
            text (codes "request_id") rid
            ∷ text (codes "decision") (codes "allow")
            ∷ text (codes "reason") (codes "ok")
            ∷ text (codes "route") route.prefix
            ∷ text (codes "target_service") route.service
            ∷ text (codes "upstream") result.upstream
            ∷ text (codes "sub") sub
            ∷ text (codes "jti") c.jti
            ∷ code (codes "code") result.status
            ∷ []))
          counted
  ]

  -- The end of ServeHTTP, or the panic of the last forward.
  unfoldable pub conclude :
      Str → RouteEntry → Claims → Str → Outcome → Forwarded → World F S → Outcome × World F S
  unfolding finish
  conclude rid route c sub served result w = (served, finish rid route c sub result w)
  conclude rid route c sub panicked result w = (panicked, w)
