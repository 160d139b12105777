-- ===== src/Prelude/Results.antt =====
-- Go's pairs of a value and an error, as a value of one of two kinds.
use mathlib.Core.Path.{◌≡◌, refl}
use mathlib.Core.Logic.{◌⊎◌, inl, inr}
use mathlib.Core.Bool.{Bool, true, false}
use mathlib.Core.Option.{Option, none, some}

pub data Result {ℓ κ} (E : Type ℓ) (A : Type κ) : Type (ℓ ⊔ κ) where
  ok : A → Result E A
  err : E → Result E A

infixl 5 ◌>>=◌ ◌>>◌
abbrev pub ◌>>=◌ {ℓ κ μ} :
    {E : Type ℓ} {A : Type κ} {B : Type μ} → Result E A → (A → Result E B) → Result E B
ok a >>= f = f a
err e >>= f = err e

abbrev pub ◌>>◌ {ℓ κ} : {E : Type ℓ} {B : Type κ} → Result E (Unit {0}) → Result E B → Result E B
m >> k = m >>= λ _. k

-- if !b { return e }
abbrev pub guard {ℓ} : {E : Type ℓ} → Bool → E → Result E (Unit {0})
guard true e = ok tt
guard false e = err e

-- if err != nil { return e }
abbrev pub or_else {ℓ κ} : {E : Type ℓ} {A : Type κ} → Option A → E → Result E A
or_else none e = err e
or_else (some a) e = ok a

-- A chain that succeeds went through each of its steps.
pub on_ok {ℓ κ μ ν} :
    {E : Type ℓ} {A : Type κ} {B : Type μ} {G : Type ν} (m : Result E A) (f : A → Result E B)
    {b : B}
    → (m >>= f) ≡ ok b
    → ((a : A) → m ≡ ok a → f a ≡ ok b → G)
    → G
on_ok (ok a) f h k = k a refl h
on_ok (err e) f h k = absurd (cc)

pub on_some {ℓ κ μ ν} :
    {E : Type ℓ} {A : Type κ} {B : Type μ} {G : Type ν} (o : Option A) (e : E) (f : A → Result E B)
    {b : B}
    → (or_else o e >>= f) ≡ ok b
    → ((a : A) → o ≡ some a → f a ≡ ok b → G)
    → G
on_some (some a) e f h k = k a refl h
on_some none e f h k = absurd (cc)

pub on_true {ℓ κ μ} :
    {E : Type ℓ} {A : Type κ} {G : Type μ} (test : Bool) (e : E) (m : Result E A) {a : A}
    → (guard test e >> m) ≡ ok a
    → (test ≡ true → m ≡ ok a → G)
    → G
on_true true e m h k = k refl h
on_true false e m h k = absurd (cc)

pub Result-cases {ℓ κ} :
    {E : Type ℓ} {A : Type κ} (r : Result E A) → ((e : E) × (r ≡ err e)) ⊎ ((a : A) × (r ≡ ok a))
Result-cases (err e) = inl (e, refl)
Result-cases (ok a) = inr (a, refl)

pub >>=-assoc {ℓ κ μ ν} :
    {E : Type ℓ} {A : Type κ} {B : Type μ} {C : Type ν} (m : Result E A) (f : A → Result E B)
    (g : B → Result E C)
    → ((m >>= f) >>= g) ≡ (m >>= λ a. f a >>= g)
>>=-assoc (ok a) f g = refl
>>=-assoc (err e) f g = refl
