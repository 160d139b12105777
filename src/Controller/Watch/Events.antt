-- ===== src/Controller/Watch/Events.antt =====
-- cmd/controller/main.go: what a watch has brought about when it ends.
use secure_svc_gw.Prelude.{
  ◌≡◌, ◌≢◌, refl, sym, ap, ◌∙◌, inl, inr, true, false, Option, List, [], ◌∷◌, ◌++◌, Str, arith, ok,
  All, length, length-append, Result-cases,
}
use secure_svc_gw.Controller.{GatewayConfig}
use secure_svc_gw.Controller.Cluster.{Client, Cluster, ApiRequest}
use secure_svc_gw.Controller.Reconcile.{reconcile}
use secure_svc_gw.Controller.Reconcile.Rollout.{IsRolledOut, reconcile-IsRolledOut}
use secure_svc_gw.Controller.Watch.{
  WatchError, decode_failed, Warning, Arrival, Stream, events, is_relevant, watch_request, on_event,
  handle_events, watch_and_reconcile,
}

-- What the cluster does by itself.
abbrev pub drift : {S : Type 0} → List (Arrival S) → S → S
drift [] s = s
drift (a ∷ rest) s = drift rest (a.since s)

longer : {A : Type 0} (xs : List A) (x : A) → xs ++ x ∷ [] ≢ xs
longer xs x same = absurd (omega (arith, length-append xs (x ∷ []), ap length same))

module _ {S : Type 0} (K : Cluster S) (c : Client) (marshal : GatewayConfig → Option Str)
    (sha256 : Str → Str) (ns cr_name : Str) where
  handle_events-append :
      (before after : List (Arrival S)) (state : List Warning × S)
      → handle_events K c marshal sha256 ns cr_name (before ++ after) state
        ≡ handle_events K c marshal sha256 ns cr_name after
            (handle_events K c marshal sha256 ns cr_name before state)
  unfolding handle_events
  handle_events-append [] after state = refl
  handle_events-append (a ∷ before) after state =
      handle_events-append before after (on_event K c marshal sha256 ns cr_name a state)

  handle_events_of_irrelevant :
      (after : List (Arrival S)) (log : List Warning) (s : S)
      → All (λ a. is_relevant a.kind ≡ false) after
      → handle_events K c marshal sha256 ns cr_name after (log, s) ≡ (log, drift after s)
  unfolding handle_events on_event
  handle_events_of_irrelevant [] log s all = refl
  handle_events_of_irrelevant (a ∷ after) log s (other, all) =
      rw (other, on_event) (handle_events_of_irrelevant after log (a.since s) all)

  -- One relevant event: without a warning, the reconcile succeeded.
  on_event-quiet :
      (a : Arrival S) (log : List Warning) (s : S)
      → is_relevant a.kind ≡ true
      → (on_event K c marshal sha256 ns cr_name a (log, s)).0 ≡ log
      → (on_event K c marshal sha256 ns cr_name a (log, s)
          ≡ (log, (reconcile K c marshal sha256 ns cr_name (a.since s)).1))
        × ((reconcile K c marshal sha256 ns cr_name (a.since s)).0 ≡ ok tt)
  unfolding on_event
  on_event-quiet a log s relevant quiet =
      elim (Result-cases (reconcile K c marshal sha256 ns cr_name (a.since s)).0) [
        | inl (e, failed) ↦ absurd (longer log _ (rw (relevant, failed, on_event) at quiet))
        | inr (done, worked) ↦ (rw (relevant, worked, on_event) refl, worked)
      ]

  -- After the last relevant event nothing is logged.
  handle_events_split :
      (before : List (Arrival S)) (a : Arrival S) (after : List (Arrival S)) (log : List Warning)
      (s : S)
      → All (λ b. is_relevant b.kind ≡ false) after
      → handle_events K c marshal sha256 ns cr_name (before ++ a ∷ after) (log, s) ≡ (
          let end =
            on_event K c marshal sha256 ns cr_name a
              (handle_events K c marshal sha256 ns cr_name before (log, s)) in
          (end.0, drift after end.1))
  unfolding handle_events
  handle_events_split before a after log s others =
      let (log', s') =
        on_event K c marshal sha256 ns cr_name a
          (handle_events K c marshal sha256 ns cr_name before (log, s)) in
      handle_events-append before (a ∷ after) (log, s)
      ∙ handle_events_of_irrelevant after log' s' others

  ran_of :
      (connect : ApiRequest → Stream S) (arrivals : List (Arrival S)) (state : List Warning × S)
      → K.new_request_fails (watch_request c ns cr_name).method (watch_request c ns cr_name).url
        ≡ false
      → connect (watch_request c ns cr_name) ≡ events arrivals
      → watch_and_reconcile K c marshal sha256 ns cr_name connect state
        ≡ (decode_failed, handle_events K c marshal sha256 ns cr_name arrivals state)
  unfolding watch_and_reconcile
  ran_of connect arrivals state good opened = rw (good, opened, watch_and_reconcile) refl

  -- The end of a watch in which `a` is the last ADDED or MODIFIED event, when no warning was logged
  -- since that event.
  pub record IsSettled (before : List (Arrival S)) (a : Arrival S) (after : List (Arrival S))
      (log : List Warning) (s : S) (end : WatchError × (List Warning × S)) : Type 0 where
    pub warnings : List Warning
    pub reached : S
    pub earlier : handle_events K c marshal sha256 ns cr_name before (log, s) ≡ (warnings, reached)
    pub rolled_out : IsRolledOut K c marshal sha256 ns cr_name (a.since reached)
    pub ends : end ≡ (
      decode_failed,
      (warnings, drift after (reconcile K c marshal sha256 ns cr_name (a.since reached)).1),
    )

  -- A watch whose last ADDED or MODIFIED event brought no warning has rolled out the configuration of
  -- the resource as it was after that event; the events after it changed nothing but what the
  -- cluster did by itself; and the watch ends with the error that main logs.
  pub watch_and_reconcile-IsSettled :
      (connect : ApiRequest → Stream S) (before : List (Arrival S)) (a : Arrival S)
      (after : List (Arrival S)) (log : List Warning) (s : S)
      → K.new_request_fails (watch_request c ns cr_name).method (watch_request c ns cr_name).url
        ≡ false
      → connect (watch_request c ns cr_name) ≡ events (before ++ a ∷ after)
      → is_relevant a.kind ≡ true
      → All (λ b. is_relevant b.kind ≡ false) after
      → (watch_and_reconcile K c marshal sha256 ns cr_name connect (log, s)).1.0
        ≡ (handle_events K c marshal sha256 ns cr_name before (log, s)).0
      → IsSettled before a after log s
          (watch_and_reconcile K c marshal sha256 ns cr_name connect (log, s))
  watch_and_reconcile-IsSettled connect before a after log s good opened relevant others quiet =
      let (warnings, reached) = handle_events K c marshal sha256 ns cr_name before (log, s) in
      let ran = ran_of connect (before ++ a ∷ after) (log, s) good opened in
      let split = handle_events_split before a after log s others in
      let (kept, worked) =
        on_event-quiet a warnings reached relevant
          (sym (ap (λ x. x.1.0) ran ∙ ap (λ x. x.0) split) ∙ quiet) in
      record {
        warnings = warnings;
        reached = reached;
        earlier = refl;
        rolled_out = reconcile-IsRolledOut K c marshal sha256 ns cr_name (a.since reached) worked;
        ends = ran ∙ ap (λ x. (decode_failed, x)) (split ∙ ap (λ x. (x.0, drift after x.1)) kept);
      }
