-- ===== src/Proxy/Gateway/Endings.antt =====
-- internal/proxy/handler.go: the endings of ServeHTTP send nothing.
use secure_svc_gw.Prelude.{◌≡◌, refl, inl, inr, Str, Option-cases}
use secure_svc_gw.Auth.{Claims, Reason}
use secure_svc_gw.Proxy.{RouteEntry, Request, UpstreamError}
use secure_svc_gw.Proxy.Gateway.{World, record_event, http_error, deny_auth}
use secure_svc_gw.Proxy.Gateway.Replies.{
  Outcome, served, panicked, conclude, Forwarded, no_route, no_healthy_backend, log_retry, finish,
}
use secure_svc_gw.Proxy.Gateway.Safety.{sends}

module _ {F S : Type 0} where
  pub sends-log_retry :
      (rid : Str) (route : RouteEntry) (previous alt : Str) (e : UpstreamError) (w : World F S)
      → sends (log_retry rid route previous alt e w).trace ≡ sends w.trace
  unfolding log_retry record_event sends
  sends-log_retry rid route previous alt e w = refl

  pub sends-finish :
      (rid : Str) (route : RouteEntry) (c : Claims) (sub : Str) (result : Forwarded) (w : World F S)
      → sends (finish rid route c sub result w).trace ≡ sends w.trace
  unfolding finish record_event http_error sends
  sends-finish rid route c sub result w = elim (Option-cases result.error) [
    | inl good ↦ rw (good, finish) refl
    | inr (e, bad) ↦ rw (bad, finish) refl
  ]

  pub sends-conclude :
      (rid : Str) (route : RouteEntry) (c : Claims) (sub : Str) (o : Outcome) (result : Forwarded)
      (w : World F S)
      → sends (conclude rid route c sub o result w).1.trace ≡ sends w.trace
  unfolding conclude
  sends-conclude rid route c sub served result w = sends-finish rid route c sub result w
  sends-conclude rid route c sub panicked result w = refl

  pub sends-no_healthy_backend :
      (rid : Str) (route : RouteEntry) (sub : Str) (w : World F S)
      → sends (no_healthy_backend rid route sub w).trace ≡ sends w.trace
  unfolding no_healthy_backend record_event http_error sends
  sends-no_healthy_backend rid route sub w = refl

  pub sends-no_route :
      (rid : Str) (r : Request) (w : World F S) → sends (no_route rid r w).trace ≡ sends w.trace
  unfolding no_route record_event http_error sends
  sends-no_route rid r w = refl

  pub sends-deny_auth :
      (rid : Str) (route : RouteEntry) (sub kid : Str) (reason : Reason) (w : World F S)
      → sends (deny_auth rid route sub kid reason w).trace ≡ sends w.trace
  unfolding deny_auth record_event http_error sends
  sends-deny_auth rid route sub kid reason w = refl
