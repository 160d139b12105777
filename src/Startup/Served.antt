-- ===== src/Startup/Served.antt =====
-- cmd/gateway/main.go with internal/proxy/handler.go: when every request is served, and when the
-- attempts to reach Redis are used up.
use secure_svc_gw.Prelude.{
  ℕ, zero, suc, ◌+◌, ◌<◌, ◌≤◌, ◌≡◌, ◌≢◌, subst, ◌∙◌, ◌⊎◌, inl, inr, Bool, true, false, ◌||◌, Option,
  none, some, List, [], ◌∷◌, Str, ◌==◌, Map, lookup, insert, lookup-insert, has_prefix, All,
  Bool-cases, Option-cases, arith,
}
use secure_svc_gw.Config.{Service}
use secure_svc_gw.Auth.Nonce.{NonceStore}
use secure_svc_gw.Auth.Verifier.{Library}
use secure_svc_gw.Lb.{Pool, new_pool}
use secure_svc_gw.Lb.Floats.{Float}
use secure_svc_gw.Proxy.{RouteEntry, Request, match_route}
use secure_svc_gw.Proxy.Gateway.{World, Env, Event, Outgoing, HttpResponse, responded}
use secure_svc_gw.Proxy.Gateway.Replies.{served, is_writable}
use secure_svc_gw.Proxy.Gateway.Serve.{serve_http}
use secure_svc_gw.Proxy.Gateway.Counts.{serve_http-Ends, Crashes, no_client, unwritable}
use secure_svc_gw.Proxy.Traffic.{Steps}
use secure_svc_gw.Proxy.Traffic.Pools.{Steps-keeps}
use secure_svc_gw.Startup.{connect_from, connect, pools_from, pools_of}

-- A service of the configuration has the name.
abbrev pub is_configured : Str → List Service → Bool
is_configured name [] = false
is_configured name (svc ∷ services) = name == svc.name || is_configured name services

pub match_route-All :
    (P : RouteEntry → Type 0) (path : Str) (routes : List RouteEntry) (r : RouteEntry)
    → All P routes
    → match_route path routes ≡ some r
    → P r
unfolding match_route
match_route-All P path [] r all h = absurd (cc)
match_route-All P path (e ∷ routes) r (p, all) h = elim (Bool-cases (has_prefix path e.prefix)) [
  | inl starts ↦
      let same : some e ≡ some r = rw starts at h in
      let same_route : e ≡ r = cc same in subst P same_route p
  | inr differs ↦ match_route-All P path routes r all (rw differs at h)
]

-- Do gives no response on whose status WriteHeader panics.
abbrev pub RespondsWell : Env → Type 0
RespondsWell env =
    (before : List Event) (service : Str) (out : Outgoing) (resp : HttpResponse)
    → (env.exchange before service out).answer ≡ responded resp
    → is_writable resp.status_code ≡ true

never-Crashes :
    (env : Env) (service : Str)
    → env.has_client service ≡ true
    → RespondsWell env
    → Crashes env service
    → ⊥
never-Crashes env service client well (no_client nil) = cc (client, nil)
never-Crashes env service client well (unwritable before out resp answer bad) =
    cc (well before service out resp answer, bad)

module _ {F : Type 0} ⦃float : Float F⦄ where
  pools_from-keeps :
      (services : List Service) (pools : Map (Pool F)) (name : Str) (p : Pool F)
      → lookup name pools ≡ some p
      → lookup name (pools_from services pools) ≢ none
  unfolding pools_from
  pools_from-keeps [] pools name p found = λ missing. cc (found, missing)
  pools_from-keeps (svc ∷ services) pools name p found =
      let made : Pool F = new_pool svc.name svc.backends in
      elim (Bool-cases (name == svc.name)) [
        | inl same ↦
            pools_from-keeps services (insert svc.name made pools) name made
              (rw same at (lookup-insert name svc.name made pools))
        | inr other ↦
            pools_from-keeps services (insert svc.name made pools) name p
              ((rw other at (lookup-insert name svc.name made pools)) ∙ found)
      ]

  pools_from-has :
      (services : List Service) (pools : Map (Pool F)) (name : Str)
      → is_configured name services ≡ true
      → lookup name (pools_from services pools) ≢ none
  unfolding pools_from
  pools_from-has [] pools name h = absurd (cc)
  pools_from-has (svc ∷ services) pools name h =
      let made : Pool F = new_pool svc.name svc.backends in
      elim (Bool-cases (name == svc.name)) [
        | inl same ↦
            pools_from-keeps services (insert svc.name made pools) name made
              (rw same at (lookup-insert name svc.name made pools))
        | inr other ↦ pools_from-has services (insert svc.name made pools) name (rw other at h)
      ]

  -- When the service of every route is configured and has a client, and the pools are those that main
  -- makes, after whatever steps of requests and checkers, ServeHTTP serves every request: it does not
  -- panic, provided that Do gives no response on whose status WriteHeader panics.
  pub serve_http-served :
      (L : Library) (N : NonceStore) (env : Env) (services : List Service)
      (routes : List RouteEntry) (r : Request) (w : World F N.State) (active : List (Str × ℕ))
      → All (λ e. is_configured e.service services ≡ true) routes
      → All (λ e. env.has_client e.service ≡ true) routes
      → RespondsWell env
      → Steps N.State
          (record { pools = pools_of services; active = [] })
          (record { pools = w.pools; active = active })
      → (serve_http L N env routes r w).0 ≡ served
  unfolding pools_of
  serve_http-served L N env services routes r w active configured clients well steps =
      elim (serve_http-Ends L N env routes r w) [
        | inl (good, _) ↦ good
        | inr (_, u) ↦
            let known =
              match_route-All (λ e. is_configured e.service services ≡ true) r.path routes u.route
                configured u.matched in
            let client =
              match_route-All (λ e. env.has_client e.service ≡ true) r.path routes u.route clients
                u.matched in
            absurd (elim (u.cause) [
              | inl no_pool ↦
                  Steps-keeps N.State (record { pools = pools_of services; active = [] })
                    (record { pools = w.pools; active = active }) u.route.service steps
                    (pools_from-has services [] u.route.service known) no_pool
              | inr crash ↦ never-Crashes env u.route.service client well crash
            ])
      ]

abbrev pub count_up : ℕ → ℕ → List ℕ
count_up zero n = []
count_up (suc left) n = n ∷ count_up left (n + 1)

connect_from-none :
    {A : Type 0} (dial : ℕ → Option A) (left attempt : ℕ)
    → connect_from dial left attempt ≡ none
    → All (λ k. dial k ≡ none) (count_up left attempt)
unfolding connect_from
connect_from-none dial zero attempt h = tt
connect_from-none dial (suc left) attempt h = elim (Option-cases (dial attempt)) [
  | inl failed ↦
      (failed, connect_from-none dial left (attempt + 1) (rw (failed, connect_from) at h))
  | inr (store, reached) ↦ absurd (cc (rw (reached, connect_from) at h))
]

connect_from-some :
    {A : Type 0} (dial : ℕ → Option A) (left attempt : ℕ) (store : A)
    → connect_from dial left attempt ≡ some store
    → (k : ℕ) × (attempt ≤ k) × (k < attempt + left) × (dial k ≡ some store)
unfolding connect_from
connect_from-some dial zero attempt store h = absurd (cc)
connect_from-some dial (suc left) attempt store h = elim (Option-cases (dial attempt)) [
  | inl failed ↦
      let (k, low, high, reached) =
        connect_from-some dial left (attempt + 1) store (rw (failed, connect_from) at h) in
      (k, omega arith, omega arith, reached)
  | inr (other, reached) ↦
      (attempt, omega arith, omega arith, reached ∙ (rw (reached, connect_from) at h))
]

-- main gives up on Redis only after the ten attempts 1 to 10 all failed; else it has the store of one
-- of these attempts.
pub connect-attempts :
    {A : Type 0} (dial : ℕ → Option A)
    → ((connect dial ≡ none) × All (λ k. dial k ≡ none) (count_up 10 1))
      ⊎ ((store : A) × (k : ℕ) × (connect dial ≡ some store)
          × (1 ≤ k)
          × (k ≤ 10)
          × (dial k ≡ some store))
unfolding connect
connect-attempts dial = elim (Option-cases (connect dial)) [
  | inl gave_up ↦ inl (gave_up, connect_from-none dial 10 1 gave_up)
  | inr (store, reached) ↦
      let (k, low, high, at) = connect_from-some dial 10 1 store reached in
      inr (store, k, reached, low, omega arith, at)
]
