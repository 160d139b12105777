-- ===== src/Proxy/Gateway/Load.antt =====
-- internal/proxy/handler.go: Acquire and the deferred Release around every way through forward.
pub mod Restored
use secure_svc_gw.Prelude.{
  ℕ, zero, suc, ◌≡◌, refl, sym, ap, ◌∙◌, ◌⊎◌, inl, inr, Bool, true, false, Option, none, some, List,
  [], ◌∷◌, ℤ, IsInt64, incr_int64, decr_int64, decr_int64-incr_int64, Str, Str-discrete, codes,
  ◌==◌, is_empty, Map, lookup, insert, lookup-insert, modify, map, All, Bool-cases, Option-cases,
  arith, if◌then◌else◌,
}
use mathlib.Core.Option
use secure_svc_gw.Auth.{Claims, missing_scope, no_token, has_scope}
use secure_svc_gw.Auth.Nonce.{NonceStore}
use secure_svc_gw.Auth.Verifier.{Library, Verifier, Verdict, accepted, rejected, verify}
use secure_svc_gw.Lb
use secure_svc_gw.Lb.{Pool, acquire, release, record_latency}
use secure_svc_gw.Lb.Floats.{Float}
use secure_svc_gw.Proxy.{RouteEntry, Request, UpstreamError, match_route, extract_bearer, target}
use secure_svc_gw.Proxy.Gateway.{
  Body, Outgoing, close, do_called, World, HttpResponse, Answer, responded, failed, Reply, Env,
  new_request_id, record_event, set_header, http_error, on_backend, deny_auth,
}
use secure_svc_gw.Proxy.Gateway.Serve.{
  receive, send, attempt, forward, pick_backend, alternative, retry, proxy, dispatch, authorize,
  authenticate, serve_http,
}
use secure_svc_gw.Proxy.Gateway.Replies.{
  Forwarded, outgoing_header, write_response, no_route, no_healthy_backend, log_retry, finish,
}
use secure_svc_gw.Proxy.Gateway.Forwarding.{Answer-cases}

modify-id : (i : ℕ) (xs : List ℤ) → modify i (λ a. a) xs ≡ xs
modify-id i [] = refl
modify-id zero (x ∷ xs) = refl
modify-id (suc i) (x ∷ xs) = ap (λ rest. x ∷ rest) (modify-id i xs)

pub modify-incr_decr :
    (i : ℕ) (xs : List ℤ) → All IsInt64 xs → modify i decr_int64 (modify i incr_int64 xs) ≡ xs
modify-incr_decr i [] range = refl
modify-incr_decr zero (x ∷ xs) (range, _) = ap (λ a. a ∷ xs) (decr_int64-incr_int64 x range)
modify-incr_decr (suc i) (x ∷ xs) (_, ranges) = ap (λ rest. x ∷ rest) (modify-incr_decr i xs ranges)

modified_id :
    (i : ℕ) (here : Bool) (o : Option (List ℤ))
    → (if here then Option.map (modify i (λ a. a)) o else o) ≡ o
modified_id i true (some xs) = ap some (modify-id i xs)
modified_id i true none = refl
modified_id i false o = refl

module _ {F : Type 0} where
  abbrev inflights : Option (Pool F) → Option (List ℤ)
  inflights = Option.map (λ p. map (λ b. b.inflight) p.backends)

  -- The requests in flight at each backend of a service.
  unfoldable pub loads : Str → Map (Pool F) → Option (List ℤ)
  loads service pools = inflights (lookup service pools)

  map-modify :
      (i : ℕ) (f : Lb.Backend F → Lb.Backend F) (g : ℤ → ℤ) (xs : List (Lb.Backend F))
      → ((b : Lb.Backend F) → (f b).inflight ≡ g b.inflight)
      → map (λ b. b.inflight) (modify i f xs) ≡ modify i g (map (λ b. b.inflight) xs)
  map-modify i f g [] h = refl
  map-modify zero f g (x ∷ xs) h = ap (λ a. a ∷ map (λ b. b.inflight) xs) (h x)
  map-modify (suc i) f g (x ∷ xs) h = ap (λ rest. x.inflight ∷ rest) (map-modify i f g xs h)

  -- The loads after one backend of a pool changed, where the pool is and where it is not.
  loads-changed :
      (i : ℕ) (f : Lb.Backend F → Lb.Backend F) (g : ℤ → ℤ) (p : Pool F) (here : Bool)
      (found : Option (Pool F))
      → ((b : Lb.Backend F) → (f b).inflight ≡ g b.inflight)
      → (here ≡ true → found ≡ some p)
      → inflights (if here then some (record p { backends = modify i f p.backends }) else found)
        ≡ (if here then Option.map (modify i g) (inflights found) else inflights found)
  loads-changed i f g p true found h at =
      ap some (map-modify i f g p.backends h)
      ∙ ap (λ o. Option.map (modify i g) (inflights o)) (sym (at refl))
  loads-changed i f g p false found h at = refl

  loads-unchanged :
      (i : ℕ) (g : ℤ → ℤ) (here : Bool) (found : Option (Pool F))
      → (here ≡ true → found ≡ none)
      → inflights found
        ≡ (if here then Option.map (modify i g) (inflights found) else inflights found)
  loads-unchanged i g true found at =
      ap inflights (at refl) ∙ ap (λ o. Option.map (modify i g) (inflights o)) (sym (at refl))
  loads-unchanged i g false found at = refl

  same_key :
      (s service : Str) (pools : Map (Pool F)) (o : Option (Pool F))
      → lookup service pools ≡ o
      → s == service ≡ true
      → lookup s pools ≡ o
  same_key s service pools o found same = ground arith

module _ {F S : Type 0} where
  pub loads-on_backend :
      (s service : Str) (i : ℕ) (f : Lb.Backend F → Lb.Backend F) (g : ℤ → ℤ) (w : World F S)
      → ((b : Lb.Backend F) → (f b).inflight ≡ g b.inflight)
      → loads s (on_backend service i f w).pools
        ≡ (if s == service then Option.map (modify i g) (loads s w.pools) else loads s w.pools)
  unfolding loads on_backend
  loads-on_backend s service i f g w h = elim (Option-cases (lookup service w.pools)) [
    | inl missing ↦
        rw (missing, on_backend)
          (loads-unchanged i g (s == service) (lookup s w.pools)
            (same_key s service w.pools none missing))
    | inr (p, found) ↦
        rw (found, on_backend)
          (ap inflights
              (lookup-insert s service (record p { backends = modify i f p.backends }) w.pools)
            ∙ loads-changed i f g p (s == service) (lookup s w.pools) h
                (same_key s service w.pools (some p) found))
  ]

  pub loads-on_backend_same :
      (s service : Str) (i : ℕ) (f : Lb.Backend F → Lb.Backend F) (w : World F S)
      → ((b : Lb.Backend F) → (f b).inflight ≡ b.inflight)
      → loads s (on_backend service i f w).pools ≡ loads s w.pools
  loads-on_backend_same s service i f w h =
      loads-on_backend s service i f (λ a. a) w h ∙ modified_id i (s == service) (loads s w.pools)
