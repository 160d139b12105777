-- ===== src/Proxy/Gateway/Decisions.antt =====
-- internal/proxy/handler.go: the decision and the status of each ending of ServeHTTP.
use secure_svc_gw.Prelude.{
  ◌≡◌, refl, ◌⊎◌, inl, inr, false, none, some, List, ◌∷◌, ℤ, pos, Str, codes, if◌then◌else◌,
}
use secure_svc_gw.Auth.{
  Claims, Reason, reason_text, is_missing_scope, no_token, unknown_kid, bad_signature, bad_claims,
  expired, not_yet_valid, replay, missing_scope, wrong_audience, wrong_issuer,
}
use secure_svc_gw.Proxy.{RouteEntry, Request, UpstreamError}
use secure_svc_gw.Proxy.Gateway.{World, record_event, http_error, deny_auth}
use secure_svc_gw.Proxy.Gateway.Replies.{Forwarded, no_route, no_healthy_backend, log_retry, finish}
use secure_svc_gw.Proxy.Gateway.Safety.{decisions}

-- The labels of the counter (route, decision, reason), and the status that the caller gets.
pub data IsAnswer : Str × Str × Str → ℤ → Type 0 where
  unmatched : IsAnswer (codes "none", codes "deny", codes "no_route") (pos 404)
  unauthorized :
      (prefix : Str) (reason : Reason)
      → is_missing_scope reason ≡ false
      → IsAnswer (prefix, codes "deny", reason_text reason) (pos 401)
  forbidden : (prefix : Str) → IsAnswer (prefix, codes "deny", codes "missing_scope") (pos 403)
  all_down : (prefix : Str) → IsAnswer (prefix, codes "deny", codes "no_healthy_backend") (pos 503)
  broken : (prefix : Str) → IsAnswer (prefix, codes "deny", codes "upstream_error") (pos 502)
  forwarded : (prefix : Str) (status : ℤ) → IsAnswer (prefix, codes "allow", codes "ok") status

-- One decision more is counted, and the response has the status that goes with it.
pub record IsDecided {F S : Type 0} (before : List (Str × Str × Str)) (after : World F S)
    : Type 0 where
  pub labels : Str × Str × Str
  pub counted : decisions after.trace ≡ labels ∷ before
  pub status : ℤ
  pub written : after.writer.status ≡ some status
  pub answer : IsAnswer labels status

pub denial :
    (prefix : Str) (reason : Reason)
    → IsAnswer
        (prefix, codes "deny", reason_text reason)
        (if is_missing_scope reason then pos 403 else pos 401)
unfolding reason_text
denial prefix missing_scope = forbidden prefix
denial prefix no_token = unauthorized prefix no_token refl
denial prefix unknown_kid = unauthorized prefix unknown_kid refl
denial prefix bad_signature = unauthorized prefix bad_signature refl
denial prefix bad_claims = unauthorized prefix bad_claims refl
denial prefix expired = unauthorized prefix expired refl
denial prefix not_yet_valid = unauthorized prefix not_yet_valid refl
denial prefix replay = unauthorized prefix replay refl
denial prefix wrong_audience = unauthorized prefix wrong_audience refl
denial prefix wrong_issuer = unauthorized prefix wrong_issuer refl

module _ {F S : Type 0} where
  pub deny_auth-IsDecided :
      (rid : Str) (route : RouteEntry) (sub kid : Str) (reason : Reason) (w : World F S)
      → IsDecided (decisions w.trace) (deny_auth rid route sub kid reason w)
  unfolding deny_auth record_event http_error decisions
  deny_auth-IsDecided rid route sub kid reason w = record {
    labels = (route.prefix, codes "deny", reason_text reason);
    counted = refl;
    status = if is_missing_scope reason then pos 403 else pos 401;
    written = refl;
    answer = denial route.prefix reason;
  }

  pub no_route-IsDecided :
      (rid : Str) (r : Request) (w : World F S) → IsDecided (decisions w.trace) (no_route rid r w)
  unfolding no_route record_event http_error decisions
  no_route-IsDecided rid r w = record {
    labels = (codes "none", codes "deny", codes "no_route");
    counted = refl;
    status = pos 404;
    written = refl;
    answer = unmatched;
  }

  pub no_healthy_backend-IsDecided :
      (rid : Str) (route : RouteEntry) (sub : Str) (w : World F S)
      → IsDecided (decisions w.trace) (no_healthy_backend rid route sub w)
  unfolding no_healthy_backend record_event http_error decisions
  no_healthy_backend-IsDecided rid route sub w = record {
    labels = (route.prefix, codes "deny", codes "no_healthy_backend");
    counted = refl;
    status = pos 503;
    written = refl;
    answer = all_down route.prefix;
  }

  pub decisions-log_retry :
      (rid : Str) (route : RouteEntry) (previous alt : Str) (e : UpstreamError) (w : World F S)
      → decisions (log_retry rid route previous alt e w).trace ≡ decisions w.trace
  unfolding log_retry record_event decisions
  decisions-log_retry rid route previous alt e w = refl

  -- What is known after a forward that came to its end: an error, or a status that was passed on.
  abbrev pub HasAnswer : Forwarded → World F S → Type 0
  HasAnswer result w =
      ((result.error ≡ none) × (w.writer.status ≡ some result.status))
      ⊎ ((e : UpstreamError) × (result.error ≡ some e))

  pub finish-IsDecided :
      (rid : Str) (route : RouteEntry) (c : Claims) (sub : Str) (result : Forwarded) (w : World F S)
      → HasAnswer result w
      → IsDecided (decisions w.trace) (finish rid route c sub result w)
  unfolding finish record_event http_error decisions
  finish-IsDecided rid route c sub result w (inl (good, status)) =
      rw (good, finish)
        (record {
          labels = (route.prefix, codes "allow", codes "ok");
          counted = refl;
          status = result.status;
          written = status;
          answer = forwarded route.prefix result.status;
        })
  finish-IsDecided rid route c sub result w (inr (e, bad)) =
      rw (bad, finish)
        (record {
          labels = (route.prefix, codes "deny", codes "upstream_error");
          counted = refl;
          status = pos 502;
          written = refl;
          answer = broken route.prefix;
        })
