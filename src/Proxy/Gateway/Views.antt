-- ===== src/Proxy/Gateway/Views.antt =====
-- internal/proxy/handler.go: what forward leaves as it is of the backends, and where it finds them.
use mathlib.Core.Option
use secure_svc_gw.Prelude.{
  ℕ, zero, suc, ◌≡◌, refl, sym, ap, ◌∙◌, inl, inr, Bool, true, false, Option, some, List, [], ℤ,
  ◌∷◌, Str, ◌==◌, Map, lookup, lookup-insert, modify, map, get_elem?, Bool-cases, Option-cases,
  arith, if◌then◌else◌,
}
use secure_svc_gw.Lb
use secure_svc_gw.Lb.{Pool, acquire, release, record_latency, pick}
use secure_svc_gw.Lb.Draws.{pick-IsUp_any}
use secure_svc_gw.Lb.Floats.{Float}
use secure_svc_gw.Proxy.{RouteEntry, Request, target, is_retryable}
use secure_svc_gw.Proxy.Gateway.{
  Outgoing, close, do_called, World, Reply, Env, record_event, on_backend,
}
use secure_svc_gw.Proxy.Gateway.Serve.{
  receive, send, attempt, forward, pick_backend, other_than, alternative,
}
use secure_svc_gw.Proxy.Gateway.Replies.{Forwarded, is_writable, outgoing_header, write_response}
use secure_svc_gw.Proxy.Gateway.Forwarding.{Answer-cases}

module _ {F : Type 0} where
  abbrev view : Lb.Backend F → Str × Bool
  view b = (b.addr, b.healthy)

  abbrev view_all : Option (Pool F) → Option (List (Str × Bool))
  view_all = Option.map (λ p. map view p.backends)

  -- The address of each backend of a service, and whether it is healthy.
  unfoldable pub views : Str → Map (Pool F) → Option (List (Str × Bool))
  views service pools = view_all (lookup service pools)

  map-modify_same :
      (i : ℕ) (f : Lb.Backend F → Lb.Backend F) (xs : List (Lb.Backend F))
      → ((b : Lb.Backend F) → view (f b) ≡ view b)
      → map view (modify i f xs) ≡ map view xs
  map-modify_same i f [] h = refl
  map-modify_same zero f (x ∷ xs) h = ap (λ a. a ∷ map view xs) (h x)
  map-modify_same (suc i) f (x ∷ xs) h = ap (λ rest. view x ∷ rest) (map-modify_same i f xs h)

  view_all-changed :
      (i : ℕ) (f : Lb.Backend F → Lb.Backend F) (p : Pool F) (here : Bool) (found : Option (Pool F))
      → ((b : Lb.Backend F) → view (f b) ≡ view b)
      → (here ≡ true → found ≡ some p)
      → view_all (if here then some (record p { backends = modify i f p.backends }) else found)
        ≡ view_all found
  view_all-changed i f p true found h at =
      ap some (map-modify_same i f p.backends h) ∙ sym (ap view_all (at refl))
  view_all-changed i f p false found h at = refl

-- An address is that of a healthy one of the backends.
pub record IsUpAt (seen : Option (List (Str × Bool))) (addr : Str) : Type 0 where
  pub backends : List (Str × Bool)
  pub index : ℕ
  pub there : seen ≡ some backends
  pub up : get_elem? backends index ≡ some (addr, true)

get_elem?-map-view :
    {F : Type 0} (xs : List (Lb.Backend F)) (k : ℕ) (b : Lb.Backend F)
    → get_elem? xs k ≡ some b
    → b.healthy ≡ true
    → get_elem? (map view xs) k ≡ some (b.addr, true)
get_elem?-map-view [] k b at up = absurd (cc)
get_elem?-map-view (x ∷ xs) zero b at up =
    let same : x ≡ b = cc at in ap (λ y. some (view y)) same ∙ ap (λ u. some (b.addr, u)) up
get_elem?-map-view (x ∷ xs) (suc k) b at up = get_elem?-map-view xs k b at up

module _ {F S : Type 0} where
  pub views-on_backend :
      (s service : Str) (i : ℕ) (f : Lb.Backend F → Lb.Backend F) (w : World F S)
      → ((b : Lb.Backend F) → view (f b) ≡ view b)
      → views s (on_backend service i f w).pools ≡ views s w.pools
  unfolding views on_backend
  views-on_backend s service i f w h = elim (Option-cases (lookup service w.pools)) [
    | inl missing ↦ rw (missing, on_backend) refl
    | inr (p, found) ↦
        rw (found, on_backend)
          (ap view_all
              (lookup-insert s service (record p { backends = modify i f p.backends }) w.pools)
            ∙ view_all-changed i f p (s == service) (lookup s w.pools) h
                (λ same. ground (arith, found, same)))
  ]

module _ {F : Type 0} ⦃float : Float F⦄ where
  record_latency-view : (ms : ℤ) (b : Lb.Backend F) → view (record_latency ms b) ≡ view b
  unfolding record_latency
  record_latency-view ms b = elim (Bool-cases b.has_stats) [
    | inl known ↦ rw (known, record_latency) refl
    | inr fresh ↦ rw (fresh, record_latency) refl
  ]

  -- A backend that Pick gave is healthy, at its address.
  pub pick_backend-IsUpAt :
      (service : Str) (pools : Map (Pool F)) (draws : ℕ × ℕ) (p : Pool F) (k : ℕ) (b : Lb.Backend F)
      → lookup service pools ≡ some p
      → pick_backend draws p ≡ some (k, b)
      → IsUpAt (views service pools) b.addr
  unfolding pick_backend views
  pick_backend-IsUpAt service pools (i, j) p k b found h = elim (Option-cases (pick i j p)) [
    | inl nobody ↦ absurd (cc (rw (nobody, pick_backend) at h))
    | inr (m, picked) ↦
        let (x, at, up) = pick-IsUp_any p i j m picked in
        let same : some (m, x) ≡ some (k, b) = rw (picked, at, pick_backend) at h in
        let this : x ≡ b = cc same in
        record {
          backends = map view p.backends;
          index = m;
          there = ap view_all found;
          up =
              get_elem?-map-view p.backends m b (at ∙ ap some this)
                (ap (λ y. y.healthy) (sym this) ∙ up);
        }
  ]

module _ {F S : Type 0} ⦃float : Float F⦄ (env : Env) where
  receive-views :
      (service : Str) (i : ℕ) (id : Str) (reply : Reply) (w : World F S) (s : Str)
      → views s (receive env service i id reply w).1.pools ≡ views s w.pools
  unfolding receive record_event write_response
  receive-views service i id reply w s =
      let timed =
        views-on_backend s service i (record_latency reply.elapsed_ms) w
          (record_latency-view reply.elapsed_ms) in
      elim (Answer-cases reply.answer) [
        | inl (e, bad) ↦ rw (bad, receive) timed
        | inr (resp, good) ↦ elim (Bool-cases (is_writable resp.status_code)) [
          | inl fine ↦ rw (good, fine, receive) timed
          | inr bad ↦ rw (good, bad, receive) timed
        ]
      ]

  attempt-views :
      (r : Request) (route : RouteEntry) (i : ℕ) (b : Lb.Backend F) (rid sub : Str) (w : World F S)
      (s : Str)
      → views s (attempt env r route i b rid sub w).1.pools ≡ views s w.pools
  unfolding attempt send record_event
  attempt-views r route i b rid sub w s =
      let url = target b.addr route.prefix r in
      elim (Option-cases (env.new_request_error r.method url)) [
        | inr (e, bad) ↦ rw (bad, attempt) refl
        | inl good ↦
            let out : Outgoing = record {
              method = r.method;
              url = url;
              header = outgoing_header rid sub r.header;
              body = w.body;
            } in
            elim (Bool-cases (env.has_client route.service)) [
              | inl client ↦
                  rw (good, client, attempt)
                    (receive-views route.service i b.id (env.exchange w.trace route.service out)
                      (record (record_event (do_called route.service out) w) {
                        body = close (w.body);
                      })
                      s)
              | inr nil ↦ rw (good, nil, attempt) refl
            ]
      ]

  -- forward moves no backend, and makes none healthy or unhealthy.
  pub forward-views :
      (r : Request) (route : RouteEntry) (i : ℕ) (b : Lb.Backend F) (rid sub : Str) (w : World F S)
      (s : Str)
      → views s (forward env r route i b rid sub w).1.pools ≡ views s w.pools
  unfolding forward acquire release
  forward-views r route i b rid sub w s =
      let held = on_backend route.service i acquire w in
      views-on_backend s route.service i release (attempt env r route i b rid sub held).1
        (λ x. refl)
      ∙ attempt-views r route i b rid sub held s
      ∙ views-on_backend s route.service i acquire w (λ x. refl)

  -- The backend of a retry is healthy, at its address.
  pub alternative-IsUpAt :
      (service : Str) (b : Lb.Backend F) (result : Forwarded) (w : World F S) (k : ℕ)
      (alt : Lb.Backend F)
      → alternative env service b result w ≡ some (k, alt)
      → IsUpAt (views service w.pools) alt.addr
  unfolding alternative other_than
  alternative-IsUpAt service b result w k alt h = elim (Bool-cases (is_retryable result.error)) [
    | inr final ↦ absurd (cc (rw final at h))
    | inl passing ↦ elim (Option-cases (lookup service w.pools)) [
      | inl missing ↦ absurd (cc (rw (passing, missing) at h))
      | inr (p, found) ↦ elim (Option-cases (pick_backend (env.second) p)) [
        | inl nobody ↦ absurd (cc (rw (passing, found, nobody) at h))
        | inr ((m, x), picked) ↦ elim (Bool-cases (x.id == b.id)) [
          | inl same ↦ absurd (cc (rw (passing, found, picked, same) at h))
          | inr other ↦
              let this : some (m, x) ≡ some (k, alt) = rw (passing, found, picked, other) at h in
              pick_backend-IsUpAt service w.pools (env.second) p k alt found (picked ∙ this)
        ]
      ]
    ]
  ]
