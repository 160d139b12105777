-- ===== src/Proxy/Traffic/Pools.antt =====
-- internal/proxy/handler.go with internal/health/checker.go: no step of the traffic takes a pool away.
use secure_svc_gw.Prelude.{
  ℕ, ◌≢◌, sym, ◌∙◌, inl, inr, none, Str, ◌==◌, lookup, lookup-insert, modify, Bool-cases,
  Option-cases,
}
use secure_svc_gw.Lb
use secure_svc_gw.Lb.Floats.{Float}
use secure_svc_gw.Proxy.Gateway.{World, on_backend}
use secure_svc_gw.Proxy.Traffic.{
  Traffic, Step, acquired, timed, released, checked, Steps, none_yet, then_,
}

module _ {F S : Type 0} where
  lookup-on_backend :
      (s service : Str) (i : ℕ) (f : Lb.Backend F → Lb.Backend F) (w : World F S)
      → lookup s w.pools ≢ none
      → lookup s (on_backend service i f w).pools ≢ none
  unfolding on_backend
  lookup-on_backend s service i f w there = elim (Option-cases (lookup service w.pools)) [
    | inl missing ↦ rw (missing, on_backend) there
    | inr (p, found) ↦
        let p' : Lb.Pool F = record p { backends = modify i f p.backends } in
        let law = lookup-insert s service p' w.pools in
        rw (found, on_backend)
          (elim (Bool-cases (s == service)) [
            | inl same ↦ λ gone. cc (gone, (rw same at law))
            | inr other ↦ λ gone. there (sym (rw other at law) ∙ gone)
          ])
  ]

module _ {F : Type 0} ⦃float : Float F⦄ (S : Type 0) where
  Step-keeps :
      (a b : Traffic F) (s : Str) → Step S a b → lookup s a.pools ≢ none → lookup s b.pools ≢ none
  Step-keeps _ _ s (acquired w active service i few) there = lookup-on_backend s service i _ w there
  Step-keeps _ _ s (timed w active service i ms) there = lookup-on_backend s service i _ w there
  Step-keeps _ _ s (released w before after service i) there =
      lookup-on_backend s service i _ w there
  Step-keeps _ _ s (checked w active service i up) there = lookup-on_backend s service i _ w there

  pub Steps-keeps :
      (a b : Traffic F) (s : Str) → Steps S a b → lookup s a.pools ≢ none → lookup s b.pools ≢ none
  Steps-keeps a _ s none_yet there = there
  Steps-keeps a _ s (then_ {b} {c} steps step) there =
      Step-keeps b c s step (Steps-keeps a b s steps there)
