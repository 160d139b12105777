-- ===== src/Metrics.antt =====
-- internal/metrics/metrics.go: the series, and what the events of the handler do to them. Of the
-- histogram only its counts are kept.
use secure_svc_gw.Prelude.{
  Option, none, some, inl, inr, Bool-cases, ℕ, suc, ◌≡◌, refl, sym, ap, ◌∙◌, Bool, true, false,
  ◌&&◌, List, [], ◌∷◌, ℤ, Str, ◌==◌, arith, if◌then◌else◌,
}
use secure_svc_gw.Controller.{decimal}
use secure_svc_gw.Proxy.Gateway.{Event, requests_total, auth_failure, observed, logged, do_called}

-- A vector of counters, by the values of its labels.
abbrev pub Counters : Type 0
Counters = List (List Str × ℕ)

abbrev same_labels : List Str → List Str → Bool
same_labels [] [] = true
same_labels (a ∷ xs) (b ∷ ys) = a == b && same_labels xs ys
same_labels _ _ = false

-- WithLabelValues(...).Inc()
unfoldable pub inc : List Str → Counters → Counters
inc labels [] = (labels, 1) ∷ []
inc labels ((l, n) ∷ counters) =
    let rest = inc labels counters in
    if same_labels labels l then (l, suc n) ∷ counters else (l, n) ∷ rest

-- The series that requests move.
pub record Metrics : Type 0 where
  pub requests : Counters
  pub upstream_requests : Counters
  pub upstream_latency : Counters
  pub auth_failures : Counters

unfoldable pub observe : Str → Str → ℤ → Metrics → Metrics
observe service backend status m = record m {
  upstream_requests = inc (service ∷ backend ∷ decimal status ∷ []) m.upstream_requests;
  upstream_latency = inc (service ∷ backend ∷ []) m.upstream_latency;
}

unfoldable pub count_event : Event → Metrics → Metrics
unfolding observe
count_event (requests_total route decision reason) m = record m {
  requests = inc (route ∷ decision ∷ reason ∷ []) m.requests;
}
count_event (auth_failure reason) m = record m { auth_failures = inc (reason ∷ []) m.auth_failures }
count_event (observed service backend status) m = observe service backend status m
count_event (logged level message fields) m = m
count_event (do_called service out) m = m

-- The series after a trace, the latest event first.
unfoldable pub meter : List Event → Metrics
unfolding count_event
meter [] = record {
  requests = [];
  upstream_requests = [];
  upstream_latency = [];
  auth_failures = [];
}
meter (e ∷ trace) = count_event e (meter trace)

-- What Prometheus reads of a counter: its value, 0 if it was never incremented.
pub value : List Str → Counters → ℕ
value labels [] = 0
value labels ((l, n) ∷ counters) =
    let rest = value labels counters in if same_labels labels l then n else rest

-- The labels that an event of each kind should be counted under.
abbrev pub request_labels : Event → Option (List Str)
request_labels (requests_total route decision reason) = some (route ∷ decision ∷ reason ∷ [])
request_labels _ = none

abbrev pub failure_labels : Event → Option (List Str)
failure_labels (auth_failure reason) = some (reason ∷ [])
failure_labels _ = none

abbrev pub upstream_labels : Event → Option (List Str)
upstream_labels (observed service backend status) = some (service ∷ backend ∷ decimal status ∷ [])
upstream_labels _ = none

abbrev pub latency_labels : Event → Option (List Str)
latency_labels (observed service backend status) = some (service ∷ backend ∷ [])
latency_labels _ = none

-- How many events of a trace have these labels.
pub times : (Event → Option (List Str)) → List Str → List Event → ℕ
times labels_of labels [] = 0
times labels_of labels (e ∷ trace) =
    let rest = times labels_of labels trace in
    elim (labels_of e) [ none ↦ rest | some l ↦ if same_labels labels l then suc rest else rest ]

same_labels-eq : (a b : List Str) → same_labels a b ≡ true → a ≡ b
same_labels-eq [] [] h = refl
same_labels-eq [] (y ∷ b) h = absurd (cc)
same_labels-eq (x ∷ a) [] h = absurd (cc)
same_labels-eq (x ∷ a) (y ∷ b) h = ground (arith, same_labels-eq a b)

same_labels_refl : (a : List Str) → same_labels a a ≡ true
same_labels_refl [] = refl
same_labels_refl (x ∷ a) = ground (arith, same_labels_refl a)

-- An increment of one counter is seen in that counter, and in no other.
value-inc :
    (labels ls : List Str) (counters : Counters)
    → value labels (inc ls counters)
      ≡ (let n = value labels counters in if same_labels labels ls then suc n else n)
unfolding value inc
value-inc labels ls [] = ground arith
value-inc labels ls ((l, n) ∷ counters) = elim (Bool-cases (same_labels ls l)) [
  | inl here ↦ let same : ls ≡ l = same_labels-eq ls l here in rw here (rw same (ground arith))
  | inr other ↦ elim (Bool-cases (same_labels labels l)) [
    | inl found ↦
        let this : labels ≡ l = same_labels-eq labels l found in
        let apart : same_labels labels ls ≡ false = elim (Bool-cases (same_labels labels ls)) [
          | inl both ↦
              let that : labels ≡ ls = same_labels-eq labels ls both in
              absurd (cc (other, ap (λ x. same_labels x l) (sym that) ∙ found))
          | inr differ ↦ differ
        ] in
        rw (other, found, apart) refl
    | inr missing ↦ rw (other, missing) (value-inc labels ls counters)
  ]
]

-- Whatever a trace of requests has: each counter of requests, by route, decision and reason, of
-- rejections, by reason, of upstream requests, by service, backend and status, and each count of the
-- latencies, by service and backend, is the number of the events of the trace with these labels.
pub value-meter :
    (labels : List Str) (trace : List Event)
    → (value labels (meter trace).requests ≡ times request_labels labels trace)
      × (value labels (meter trace).auth_failures ≡ times failure_labels labels trace)
      × (value labels (meter trace).upstream_requests ≡ times upstream_labels labels trace)
      × (value labels (meter trace).upstream_latency ≡ times latency_labels labels trace)
unfolding meter value times
value-meter labels [] = (refl, refl, refl, refl)
value-meter labels (requests_total route decision reason ∷ trace) =
    let (requests, failures, upstream, latency) = value-meter labels trace in
    let ls : List Str = route ∷ decision ∷ reason ∷ [] in
    (
      value-inc labels ls (meter trace).requests
          ∙ ap (λ n. if same_labels labels ls then suc n else n) requests,
      failures,
      upstream,
      latency,
    )
value-meter labels (auth_failure reason ∷ trace) =
    let (requests, failures, upstream, latency) = value-meter labels trace in
    let ls : List Str = reason ∷ [] in
    (
      requests,
      value-inc labels ls (meter trace).auth_failures
          ∙ ap (λ n. if same_labels labels ls then suc n else n) failures,
      upstream,
      latency,
    )
value-meter labels (observed service backend status ∷ trace) =
    let (requests, failures, upstream, latency) = value-meter labels trace in
    let by_code : List Str = service ∷ backend ∷ decimal status ∷ [] in
    let by_backend : List Str = service ∷ backend ∷ [] in
    (
      requests,
      failures,
      value-inc labels by_code (meter trace).upstream_requests
          ∙ ap (λ n. if same_labels labels by_code then suc n else n) upstream,
      value-inc labels by_backend (meter trace).upstream_latency
          ∙ ap (λ n. if same_labels labels by_backend then suc n else n) latency,
    )
value-meter labels (logged level message fields ∷ trace) = value-meter labels trace
value-meter labels (do_called s out ∷ trace) = value-meter labels trace
