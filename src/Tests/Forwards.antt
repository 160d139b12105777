-- ===== src/Tests/Forwards.antt =====
-- Runs of the handler.
use secure_svc_gw.Prelude.{
  ℕ, ◌≡◌, ◌≢◌, refl, subst, ◌==◌, Bool-cases, ◌⊎◌, inl, inr, Bool, true, false, Option, none, some,
  List, [], ◌∷◌, ◌++◌, map, ℤ, pos, arith, Str, codes, All, has_prefix, is_empty, lookup, to_lower,
  trim_space, IsInt64, Str-discrete, incr_int64, if◌then◌else◌,
}
use secure_svc_gw.Auth.Nonce.Memory.Guard.{memory_store}
use secure_svc_gw.Lb
use secure_svc_gw.Proxy.{
  RouteEntry, match_route, bearer, bearer_token, target, is_retryable, transport,
}
use secure_svc_gw.Proxy.Headers.{is_hop_by_hop, copy_headers}
use secure_svc_gw.Proxy.Routing.{IsFirstMatch, match_route-IsFirstMatch, target-matched}
use secure_svc_gw.Proxy.Gateway.{closed, World}
use secure_svc_gw.Proxy.Gateway.Serve.{
  alternative, other_than, pick_backend, forward, retry, serve_http,
}
use secure_svc_gw.Proxy.Gateway.Replies.{Forwarded, served}
use secure_svc_gw.Proxy.Gateway.Forwarding.{IsForward, forward-IsForward}
use secure_svc_gw.Proxy.Gateway.Safety.{sends, decisions}
use secure_svc_gw.Proxy.Gateway.Views.{views}
use secure_svc_gw.Proxy.Gateway.Gate.{IsPermitted, serve_http-sends}
use secure_svc_gw.Proxy.Gateway.Sending.{SendsAtMost}
use secure_svc_gw.Proxy.Gateway.Counts.{Ends, serve_http-Ends}
use secure_svc_gw.Proxy.Gateway.Retry.{retry-closed_body}
use secure_svc_gw.Proxy.Gateway.Load.{loads}
use secure_svc_gw.Proxy.Gateway.Load.Restored.{SameLoads, IsCounting, serve_http-SameLoads}
use secure_svc_gw.Tests.{tenths, library, near, route, request, env, world}

abbrev routes : List RouteEntry
routes = route ∷ []

serve_http-sends_example :
    SendsAtMost
      (IsPermitted library memory_store env
        (λ s. views s world.pools)
        routes
        request
        world.verifier)
      2
      (sends world.trace)
      (sends (serve_http library memory_store env routes request world).1.trace)
serve_http-sends_example = serve_http-sends library memory_store env routes request world

serve_http-Ends_example :
    Ends env routes request world.pools
      (decisions world.trace)
      (serve_http library memory_store env routes request world)
serve_http-Ends_example = serve_http-Ends library memory_store env routes request world

counting : IsCounting world.pools
unfolding loads lookup
counting s xs e = elim (Bool-cases (s == codes "s")) [
  | inl same ↦
      let h : some (pos 0 ∷ pos 3 ∷ []) ≡ some xs = rw same at e in
      let same_list : pos 0 ∷ pos 3 ∷ [] ≡ xs = cc h in
      subst (λ ys. All IsInt64 ys) same_list (ground arith, (ground arith, tt))
  | inr other ↦ absurd (cc (rw other at e))
]

serve_http-SameLoads_example :
    SameLoads world.pools (serve_http library memory_store env routes request world).1.pools
serve_http-SameLoads_example =
    serve_http-SameLoads library memory_store env request routes world counting

forward-IsForward_example :
    IsForward env
      (codes "s")
      near.id
      (codes "01ff")
      (codes "alice")
      request
      (target near.addr route.prefix request)
      world
      (forward env request route 0 near (codes "01ff") (codes "alice") world).0
      (forward env request route 0 near (codes "01ff") (codes "alice") world).1
forward-IsForward_example =
    forward-IsForward env request route 0 near (codes "01ff") (codes "alice") world

retry-closed_body_example :
    SendsAtMost
      (λ out. out.1.body ≡ closed)
      1
      (sends (forward env request route 0 near (codes "01ff") (codes "alice") world).1.trace)
      (sends
        (retry env request route near
          (codes "01ff")
          (codes "alice")
          (forward env request route 0 near (codes "01ff") (codes "alice") world).0
          (forward env request route 0 near (codes "01ff") (codes "alice") world).1).1.trace)
retry-closed_body_example =
    retry-closed_body env request route 0 near (codes "01ff") (codes "alice") (codes "data") world
      refl refl

match_route-IsFirstMatch_example :
    ((match_route (codes "/api/x") routes ≡ none)
      × All (λ e. has_prefix (codes "/api/x") e.prefix ≡ false) routes)
    ⊎ ((r : RouteEntry) × (match_route (codes "/api/x") routes ≡ some r)
        × IsFirstMatch (codes "/api/x") routes r)
match_route-IsFirstMatch_example = match_route-IsFirstMatch (codes "/api/x") routes

target-matched_example :
    (has_prefix request.path (codes "/api") ≡ true)
    × (target (codes "https://a") (codes "/api") request ≡ (
        if is_empty request.raw_query
        then codes "https://a" ++ codes "/x"
        else (codes "https://a" ++ codes "/x") ++ (codes "?" ++ request.raw_query)))
target-matched_example = target-matched (codes "https://a") (codes "/api") (codes "/x") request refl

-- The first send fails after a while, the second one, to the other backend, is answered.
retried_run :
    let (outcome, after) = serve_http library memory_store env routes request world in
    (outcome ≡ served)
    × (after.writer.status ≡ some (pos 200))
    × (decisions after.trace ≡ (codes "/api", codes "allow", codes "ok") ∷ [])
    × (map (λ out. out.1.url) (sends after.trace) ≡ codes "https://b/x" ∷ codes "https://a/x" ∷ [])
unfolding serve_http match_route has_prefix secure_svc_gw.Proxy.extract_bearer
    secure_svc_gw.Proxy.Headers.get lookup Str-discrete secure_svc_gw.Proxy.Headers.canonical
    to_lower trim_space secure_svc_gw.Auth.Verifier.verify secure_svc_gw.Auth.Verifier.admit
    secure_svc_gw.Auth.Verifier.read_token secure_svc_gw.Prelude.split
    secure_svc_gw.Proxy.Gateway.set_header secure_svc_gw.Auth.Verifier.check_claims
    secure_svc_gw.Prelude.unix secure_svc_gw.Auth.Verifier.spend
    secure_svc_gw.Auth.Nonce.Memory.check_and_store secure_svc_gw.Auth.has_scope Lb.acquire
    Lb.cheaper Lb.healthy Lb.pick Lb.record_latency Lb.release Lb.score Lb.second_index
    secure_svc_gw.Prelude.decr_int64 incr_int64 secure_svc_gw.Prelude.erase
    secure_svc_gw.Prelude.insert secure_svc_gw.Prelude.trim_prefix secure_svc_gw.Prelude.add
    alternative secure_svc_gw.Proxy.Gateway.Serve.attempt secure_svc_gw.Proxy.Gateway.Replies.finish
    secure_svc_gw.Proxy.Gateway.Replies.conclude secure_svc_gw.Proxy.Gateway.Replies.is_writable
    forward secure_svc_gw.Proxy.Gateway.Replies.log_retry other_than
    secure_svc_gw.Proxy.Gateway.Replies.outgoing_header pick_backend
    secure_svc_gw.Proxy.Gateway.Serve.proxy secure_svc_gw.Proxy.Gateway.Serve.authenticate
    secure_svc_gw.Proxy.Gateway.Serve.authorize secure_svc_gw.Proxy.Gateway.Serve.dispatch
    secure_svc_gw.Proxy.Gateway.Serve.receive retry secure_svc_gw.Proxy.Gateway.Serve.send
    secure_svc_gw.Proxy.Gateway.Replies.write_response secure_svc_gw.Proxy.Gateway.close
    secure_svc_gw.Proxy.Gateway.new_request_id secure_svc_gw.Proxy.Gateway.on_backend
    secure_svc_gw.Proxy.Gateway.record_event secure_svc_gw.Proxy.Headers.add
    secure_svc_gw.Proxy.Headers.add_all copy_headers secure_svc_gw.Proxy.Headers.del is_hop_by_hop
    secure_svc_gw.Proxy.Headers.set is_retryable target tenths sends decisions
retried_run = (refl, refl, refl, refl)
