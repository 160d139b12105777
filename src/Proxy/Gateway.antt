-- ===== src/Proxy/Gateway.antt =====
-- internal/proxy/handler.go: the state of a request, and what each part of the handler does to it.
pub mod Replies
pub mod Serve
pub mod Safety
pub mod Forwarding
pub mod Sending
pub mod Views
pub mod Endings
pub mod Gate
pub mod Retry
pub mod Decisions
pub mod Counts
pub mod Load
use secure_svc_gw.Prelude.{
  ℕ, ◌≡◌, refl, ◌/◌, ◌%◌, ◌+◌, Bool, true, false, Option, none, some, List, [], ◌∷◌, ◌++◌, ℤ, Str,
  codes, Map, lookup, insert, leb, modify, if◌then◌else◌, Time,
}
use secure_svc_gw.Auth.{Reason, reason_text, is_missing_scope}
use secure_svc_gw.Auth.Verifier.{Verifier}
use secure_svc_gw.Lb
use secure_svc_gw.Lb.{Pool}
use secure_svc_gw.Proxy.{RouteEntry, UpstreamError}
use secure_svc_gw.Proxy.Headers.{Header, set}

-- r.Body: http.NoBody, what is left to read, or closed. The transport closes it, errors included.
pub data Body : Type 0 where
  no_body closed : Body
  unread : Str → Body

unfoldable pub close : Body → Body
close no_body = no_body
close closed = closed
close (unread s) = closed

-- The request of http.NewRequestWithContext, with the service whose client sends it.
pub record Outgoing : Type 0 where
  pub method : Str
  pub url : Str
  pub header : Header
  pub body : Body

pub data Field : Type 0 where
  text : Str → Str → Field
  code : Str → ℤ → Field

pub data Level : Type 0 where
  info warn error : Level

-- What a request leaves behind: the counters it increments, the lines it logs, and the calls of
-- Do. A call of Do may itself send more than one request, since the client follows redirects.
pub data Event : Type 0 where
  requests_total : Str → Str → Str → Event
  auth_failure : Str → Event
  observed : Str → Str → ℤ → Event
  logged : Level → Str → List Field → Event
  do_called : Str → Outgoing → Event

-- http.ResponseWriter: the status is there once WriteHeader was called.
pub record Response : Type 0 where
  pub header : Header
  pub status : Option ℤ
  pub body : Str

-- `trace` has the latest event first.
pub record World (F S : Type 0) : Type 0 where
  pub writer : Response
  pub body : Body
  pub pools : Map (Pool F)
  pub verifier : Verifier S
  pub trace : List Event

-- http.Client.Do: the elapsed whole milliseconds, and the response or the error.
pub record HttpResponse : Type 0 where
  pub status_code : ℤ
  pub header : Header
  pub body : Str

pub data Answer : Type 0 where
  responded : HttpResponse → Answer
  failed : UpstreamError → Answer

pub record Reply : Type 0 where
  pub elapsed_ms : ℤ
  pub answer : Answer

-- What the request meets: the random bytes of its id, the two readings of the clock in Verify, the
-- draws of the two calls of Pick, the error of NewRequestWithContext for a method and a URL, whether
-- the handler has a client for a service, and what Do of that client gives, redirects that it follows
-- included, which may depend on all that happened before.
pub record Env : Type 0 where
  pub random : List ℕ
  pub now : Time
  pub later : Time
  pub first : ℕ × ℕ
  pub second : ℕ × ℕ
  pub new_request_error : Str → Str → Option UpstreamError
  pub has_client : Str → Bool
  pub exchange : List Event → Str → Outgoing → Reply

abbrev hex_digit : ℕ → ℕ
hex_digit n = if leb n 9 then n + b'0' else n + 87

-- hex.EncodeToString
unfoldable pub hex : List ℕ → Str
hex [] = []
hex (n ∷ bytes) = hex_digit (n / 16) ∷ hex_digit (n % 16) ∷ hex bytes

-- newRequestID, from the eight bytes of rand.Read.
unfoldable pub new_request_id : Env → Str
unfolding hex
new_request_id env = hex env.random

module _ {F S : Type 0} where
  unfoldable pub record_event : Event → World F S → World F S
  record_event e w = record w { trace = e ∷ w.trace }

  unfoldable pub set_header : Str → Str → World F S → World F S
  set_header k v w = record w { writer = record (w.writer) { header = set k v w.writer.header } }

  -- http.Error; Fprintln ends the text with a line break.
  unfoldable pub http_error : Str → ℤ → World F S → World F S
  unfolding set_header
  http_error message status w =
      let h = set (codes "Content-Type") (codes "text/plain; charset=utf-8") w.writer.header in
      record w {
        writer = record {
          header = set (codes "X-Content-Type-Options") (codes "nosniff") h;
          status = some status;
          body = w.writer.body ++ message ++ codes "\n";
        };
      }

  -- A method of one backend of a pool. The pointer is the service and the index.
  unfoldable pub on_backend : Str → ℕ → (Lb.Backend F → Lb.Backend F) → World F S → World F S
  on_backend service i f w = elim (lookup service w.pools) [
    | none ↦ w
    | some p ↦ record w {
      pools = insert service (record p { backends = modify i f p.backends }) (w.pools);
    }
  ]

  -- denyAuth
  unfoldable pub deny_auth : Str → RouteEntry → Str → Str → Reason → World F S → World F S
  unfolding record_event http_error
  deny_auth rid route sub kid reason w =
      let counted =
        record_event (requests_total route.prefix (codes "deny") (reason_text reason)) w in
      let failed = record_event (auth_failure (reason_text reason)) counted in
      let line =
        record_event
          (logged warn (codes "request denied") (
            text (codes "request_id") rid
            ∷ text (codes "decision") (codes "deny")
            ∷ text (codes "reason") (reason_text reason)
            ∷ text (codes "route") route.prefix
            ∷ text (codes "sub") sub
            ∷ text (codes "kid") kid
            ∷ []))
          failed in
      http_error (reason_text reason) (if is_missing_scope reason then ℤ.pos 403 else ℤ.pos 401)
        line
