-- ===== src/Proxy/Traffic/Counters.antt =====
-- internal/lb/pool.go under the traffic of all requests: what the in-flight counters count.
use secure_svc_gw.Prelude.{
  Option-cases, inl, inr, ◌⊎◌, ℕ, suc, ◌≤◌, ◌≡◌, refl, sym, ap, ◌∙◌, Bool, true, false, ◌&&◌,
  Option, none, some, List, [], ◌∷◌, ◌++◌, ℤ, pos, Str, Map, ◌==◌, eqb, max_int64, incr_int64,
  decr_int64, incr_int64-pos, decr_int64-pos, length, length-append, get_elem?, modify,
  get_elem?-modify, if◌then◌else◌, arith,
}
use mathlib.Core.Option
use secure_svc_gw.Lb
use secure_svc_gw.Lb.{Pool, set_healthy, acquire, release, record_latency}
use secure_svc_gw.Lb.Floats.{Float}
use secure_svc_gw.Proxy.Gateway.{World, on_backend}
use secure_svc_gw.Proxy.Gateway.Load.{loads, loads-on_backend, loads-on_backend_same}
use secure_svc_gw.Proxy.Gateway.Load.Restored.{record_latency-inflight}
use secure_svc_gw.Proxy.Traffic.{
  Traffic, Step, acquired, timed, released, checked, Steps, none_yet, then_,
}

-- How many of the calls are to the backend.
unfoldable pub held : Str → ℕ → List (Str × ℕ) → ℕ
held s k [] = 0
held s k ((service, i) ∷ rest) =
    let more = held s k rest in if s == service && eqb k i then suc more else more

held-split :
    (s : Str) (k : ℕ) (before after : List (Str × ℕ)) (service : Str) (i : ℕ)
    → held s k (before ++ (service, i) ∷ after) ≡ (
        let rest = held s k (before ++ after) in if s == service && eqb k i then suc rest else rest)
unfolding held
held-split s k [] after service i = refl
held-split s k ((t, j) ∷ before) after service i =
    ground (arith, held-split s k before after service i)

held-le-length : (s : Str) (k : ℕ) (active : List (Str × ℕ)) → held s k active ≤ length active
unfolding held
held-le-length s k [] = omega arith
held-le-length s k ((t, j) ∷ active) = ground (arith, held-le-length s k active)

abbrev entry : ℕ → Option (List ℤ) → Option ℤ
entry k none = none
entry k (some xs) = get_elem? xs k

entry-changed :
    (k i : ℕ) (g : ℤ → ℤ) (here : Bool) (o : Option (List ℤ))
    → entry k (if here then Option.map (modify i g) o else o)
      ≡ (if here && eqb k i then Option.map g (entry k o) else entry k o)
entry-changed k i g true none = ground arith
entry-changed k i g true (some xs) = get_elem?-modify xs i k g
entry-changed k i g false o = refl

module _ {F : Type 0} where
  -- The in-flight counter of the backend at index `k` of the pool of a service.
  abbrev pub counter : Str → ℕ → Map (Pool F) → Option ℤ
  counter s k pools = entry k (loads s pools)

  -- Each counter is the number of the calls in flight to its backend.
  abbrev pub IsCounted : Traffic F → Type 0
  IsCounted t =
      (s : Str) (k : ℕ)
      → (counter s k t.pools ≡ none) ⊎ (counter s k t.pools ≡ some (pos (held s k t.active)))

  -- The same, of a counter that is there.
  abbrev pub Agrees : Traffic F → Type 0
  Agrees t = (s : Str) (k : ℕ) (x : ℤ) → counter s k t.pools ≡ some x → x ≡ pos (held s k t.active)

set_healthy-inflight :
    {F : Type 0} ⦃float : Float F⦄ (up : Bool) (b : Lb.Backend F)
    → (set_healthy up b).inflight ≡ b.inflight
unfolding set_healthy
set_healthy-inflight up b = ground arith

module _ {F S : Type 0} where
  counter-on_backend :
      (s service : Str) (k i : ℕ) (f : Lb.Backend F → Lb.Backend F) (g : ℤ → ℤ) (w : World F S)
      → ((b : Lb.Backend F) → (f b).inflight ≡ g b.inflight)
      → counter s k (on_backend service i f w).pools ≡ (
          if s == service && eqb k i
          then Option.map g (counter s k w.pools)
          else counter s k w.pools)
  counter-on_backend s service k i f g w h =
      ap (entry k) (loads-on_backend s service i f g w h)
      ∙ entry-changed k i g (s == service) (loads s w.pools)

  counter-on_backend_same :
      (s service : Str) (k i : ℕ) (f : Lb.Backend F → Lb.Backend F) (w : World F S)
      → ((b : Lb.Backend F) → (f b).inflight ≡ b.inflight)
      → counter s k (on_backend service i f w).pools ≡ counter s k w.pools
  counter-on_backend_same s service k i f w h =
      ap (entry k) (loads-on_backend_same s service i f w h)

-- A counter after it went up or down by one, or stayed.
changed_counter :
    (here : Bool) (g : ℤ → ℤ) (old : Option ℤ) (x : ℤ) (n m : ℕ)
    → (if here then Option.map g old else old) ≡ some x
    → ((y : ℤ) → old ≡ some y → y ≡ pos n)
    → (here ≡ true → g (pos n) ≡ pos m)
    → (here ≡ false → n ≡ m)
    → x ≡ pos m
changed_counter true g none x n m h was goes stays = absurd (cc)
changed_counter true g (some y) x n m h was goes stays =
    let made : g y ≡ x = cc h in sym made ∙ ap g (was y refl) ∙ goes refl
changed_counter false g old x n m h was goes stays = was x h ∙ ap pos (stays refl)

module _ {F : Type 0} ⦃float : Float F⦄ (S : Type 0) where
  Step-few :
      (a b : Traffic F) → Step S a b → length a.active ≤ max_int64 → length b.active ≤ max_int64
  Step-few _ _ (acquired w active service i few) bound = omega arith
  Step-few _ _ (timed w active service i ms) bound = bound
  Step-few _ _ (released w before after service i) bound =
      omega (arith, length-append before ((service, i) ∷ after), length-append before after)
  Step-few _ _ (checked w active service i up) bound = bound

  Step-Agrees : (a b : Traffic F) → Step S a b → length a.active ≤ max_int64 → Agrees a → Agrees b
  unfolding held acquire release
  Step-Agrees _ _ (acquired w active service i few) bound counted s k x h =
      changed_counter (s == service && eqb k i) incr_int64 (counter s k w.pools) x (held s k active)
        _ (sym (counter-on_backend s service k i acquire incr_int64 w (λ b. refl)) ∙ h)
        (λ y old. counted s k y old)
        (λ here.
          incr_int64-pos (held s k active) (omega (arith, held-le-length s k active))
          ∙ ap pos (ground (arith, here)))
        (λ there. ground (arith, there))
  Step-Agrees _ _ (timed w active service i ms) bound counted s k x h = counted s k x (
      sym (counter-on_backend_same s service k i (record_latency ms) w (record_latency-inflight ms))
      ∙ h)
  Step-Agrees _ _ (checked w active service i up) bound counted s k x h =
      counted s k x (
        sym (counter-on_backend_same s service k i (set_healthy up) w (set_healthy-inflight up))
        ∙ h)
  Step-Agrees _ _ (released w before after service i) bound counted s k x h =
      let split = held-split s k before after service i in
      let most = held-le-length s k (before ++ (service, i) ∷ after) in
      let m = held s k (before ++ after) in
      changed_counter (s == service && eqb k i) decr_int64 (counter s k w.pools) x
        (held s k (before ++ (service, i) ∷ after)) m
        (sym (counter-on_backend s service k i release decr_int64 w (λ b. refl)) ∙ h)
        (λ y old. counted s k y old)
        (λ here.
          let more : held s k (before ++ (service, i) ∷ after) ≡ suc m = rw here at split in
          ap (λ n. decr_int64 (pos n)) more ∙ decr_int64-pos m (omega arith))
        (λ there. rw there at split)

  -- What holds of the counters holds after any number of steps.
  pub Steps-Agrees :
      (a b : Traffic F)
      → Steps S a b
      → length a.active ≤ max_int64
      → Agrees a
      → (length b.active ≤ max_int64) × Agrees b
  Steps-Agrees a _ none_yet bound counted = (bound, counted)
  Steps-Agrees a _ (then_ {b} {c} steps step) bound counted =
      let (bound', counted') = Steps-Agrees a b steps bound counted in
      (Step-few b c step bound', Step-Agrees b c step bound' counted')

pub Agrees-IsCounted : {F : Type 0} (t : Traffic F) → Agrees t → IsCounted t
Agrees-IsCounted t agrees s k = elim (Option-cases (counter s k t.pools)) [
  | inl absent ↦ inl absent
  | inr (x, there) ↦ inr (there ∙ ap some (agrees s k x there))
]
