-- ===== src/Tests/Watches.antt =====
-- Runs of the watch of the controller, and the order of what it sends.
use secure_svc_gw.Prelude.{◌≡◌, refl, true, false, some, List, [], ◌∷◌, Str, Str-discrete, codes}
use secure_svc_gw.Controller.Cluster.{ApiRequest}
use secure_svc_gw.Controller.Cluster.Traces.{traced}
use secure_svc_gw.Controller.Reconcile.{reconcile}
use secure_svc_gw.Controller.Cluster.Operations.{
  fetch_cr, fetch_client_keys, patch_deployment_annotation, reconcile_network_policy,
  patch_config_map,
}
use secure_svc_gw.Controller.Reconcile.Stages.{IsStaged}
use secure_svc_gw.Controller.Reconcile.Order.{reconcile-IsStaged}
use secure_svc_gw.Controller.Watch.{
  Arrival, Stream, events, is_relevant, handle_events, watch_and_reconcile, trim_right_slash,
}
use secure_svc_gw.Controller.Watch.Events.{IsSettled, watch_and_reconcile-IsSettled}
use secure_svc_gw.Tests.Rollouts.{cluster, client}

reconcile-IsStaged_example :
    IsStaged client
      (codes "gw")
      0
      ([], [])
      (reconcile
        (traced cluster)
        client
        (λ config. some (codes "yaml"))
        (λ s. s)
        (codes "gw")
        (codes "main")
        ([], []))
reconcile-IsStaged_example =
    reconcile-IsStaged cluster client (λ config. some (codes "yaml")) (λ s. s) (codes "gw")
      (codes "main") ([], [])

abbrev added : Arrival (List Str)
added = record { kind = codes "ADDED"; since = λ s. s }

abbrev modified : Arrival (List Str)
modified = record { kind = codes "MODIFIED"; since = λ s. s }

abbrev deleted : Arrival (List Str)
deleted = record { kind = codes "DELETED"; since = λ s. s }

abbrev stream : ApiRequest → Stream (List Str)
stream request = events (added ∷ modified ∷ deleted ∷ [])

modified_counts : is_relevant (codes "MODIFIED") ≡ true
unfolding is_relevant Str-discrete
modified_counts = refl

deleted_does_not : is_relevant (codes "DELETED") ≡ false
unfolding is_relevant Str-discrete
deleted_does_not = refl

quiet :
    (watch_and_reconcile cluster client
      (λ config. some (codes "yaml"))
      (λ s. s)
      (codes "gw")
      (codes "main")
      stream
      ([], [])).1.0
    ≡ (handle_events cluster client
        (λ config. some (codes "yaml"))
        (λ s. s)
        (codes "gw")
        (codes "main")
        (added ∷ [])
        ([], [])).0
unfolding watch_and_reconcile handle_events is_relevant Str-discrete reconcile fetch_cr
    fetch_client_keys patch_config_map reconcile_network_policy patch_deployment_annotation
quiet = refl

watch_and_reconcile-IsSettled_example :
    IsSettled cluster client
      (λ config. some (codes "yaml"))
      (λ s. s)
      (codes "gw")
      (codes "main")
      (added ∷ [])
      modified
      (deleted ∷ [])
      []
      []
      (watch_and_reconcile cluster client
        (λ config. some (codes "yaml"))
        (λ s. s)
        (codes "gw")
        (codes "main")
        stream
        ([], []))
watch_and_reconcile-IsSettled_example =
    watch_and_reconcile-IsSettled cluster client (λ config. some (codes "yaml")) (λ s. s)
      (codes "gw") (codes "main") stream (added ∷ []) modified (deleted ∷ []) [] [] refl refl
      modified_counts (deleted_does_not, tt) quiet

slash_trimmed : trim_right_slash (codes "https://k//") ≡ codes "https://k"
unfolding trim_right_slash
slash_trimmed = refl
