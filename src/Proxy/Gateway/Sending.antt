-- ===== src/Proxy/Gateway/Sending.antt =====
-- internal/proxy/handler.go: how many requests went out between two moments.
use secure_svc_gw.Prelude.{
  ℕ, ◌+◌, ◌≤◌, ◌≡◌, refl, sym, ap, ◌∙◌, List, [], ◌∷◌, ◌++◌, Str, length, length-append, All, arith,
}
use secure_svc_gw.Proxy.Gateway.{Outgoing}

-- At most `n` requests went out between two moments, each of them as `P` says.
pub record SendsAtMost (P : Str × Outgoing → Type 0) (n : ℕ) (before after : List (Str × Outgoing))
    : Type 0 where
  pub new : List (Str × Outgoing)
  pub latest : after ≡ new ++ before
  pub few : length new ≤ n
  pub each : All P new

pub All-append :
    {A : Type 0} (P : A → Type 0) (xs ys : List A) → All P xs → All P ys → All P (xs ++ ys)
All-append P [] ys _ h = h
All-append P (x ∷ xs) ys (p, ps) h = (p, All-append P xs ys ps h)

pub All-map :
    {A : Type 0} (P Q : A → Type 0) (xs : List A) → ((x : A) → P x → Q x) → All P xs → All Q xs
All-map P Q [] f _ = tt
All-map P Q (x ∷ xs) f (p, ps) = (f x p, All-map P Q xs f ps)

pub ++-assoc : {A : Type 0} (xs ys zs : List A) → (xs ++ ys) ++ zs ≡ xs ++ (ys ++ zs)
++-assoc [] ys zs = refl
++-assoc (x ∷ xs) ys zs = ap (λ rest. x ∷ rest) (++-assoc xs ys zs)

module _ (P : Str × Outgoing → Type 0) where
  pub SendsAtMost-same :
      (n : ℕ) (before after : List (Str × Outgoing)) → after ≡ before → SendsAtMost P n before after
  SendsAtMost-same n before after same = record {
    new = [];
    latest = same;
    few = omega arith;
    each = tt;
  }

  pub SendsAtMost-trans :
      (m n : ℕ) (a b c : List (Str × Outgoing))
      → SendsAtMost P m a b
      → SendsAtMost P n b c
      → SendsAtMost P (m + n) a c
  SendsAtMost-trans m n a b c first then_ = record {
    new = then_.new ++ first.new;
    latest =
        then_.latest
        ∙ ap (λ rest. then_.new ++ rest) first.latest
        ∙ sym (++-assoc then_.new first.new a);
    few = omega (arith, length-append then_.new first.new, first.few, then_.few);
    each = All-append P then_.new first.new then_.each first.each;
  }

pub SendsAtMost-map :
    (P Q : Str × Outgoing → Type 0) (n : ℕ) (before after : List (Str × Outgoing))
    → ((out : Str × Outgoing) → P out → Q out)
    → SendsAtMost P n before after
    → SendsAtMost Q n before after
SendsAtMost-map P Q n before after f s = record {
  new = s.new;
  latest = s.latest;
  few = s.few;
  each = All-map P Q s.new f s.each;
}
