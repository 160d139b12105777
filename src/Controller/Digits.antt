-- ===== src/Controller/Digits.antt =====
-- cmd/controller/main.go: the port as fmt prints it in an address.
use secure_svc_gw.Prelude.{
  ℕ, zero, suc, codes, refl, ◌++◌, ◌+◌, ◌-◌, ◌*◌, ◌/◌, ◌%◌, ◌<◌, ◌≡◌, ap, ◌∙◌, [], ◌∷◌, pos, arith,
  Str, All, is_empty, false, ◌≤◌, leb, Bool-cases, inl, inr,
}
use secure_svc_gw.Controller.{digits_from, decimal, address}

-- The number that a text of digits continues, read from the left.
pub value_from : ℕ → Str → ℕ
value_from n [] = n
value_from n (c ∷ s) = value_from (n * 10 + (c - b'0')) s

digits_from-value :
    (fuel n : ℕ) (rest : Str)
    → n < fuel
    → value_from 0 (digits_from fuel n rest) ≡ value_from n rest
unfolding digits_from value_from
digits_from-value zero n rest h = elim h [ ]
digits_from-value (suc fuel) n rest h = elim (Bool-cases (leb n 9)) [
  | inl short ↦ rw short (ap (λ m. value_from m rest) (ground arith))
  | inr long ↦ rw long (
      digits_from-value fuel (n / 10) ((n % 10 + b'0') ∷ rest) (ground arith)
      ∙ ap (λ m. value_from m rest) (omega arith))
]

-- The fuel of the digits is enough.
pub value_from-decimal : (n : ℕ) → value_from 0 (decimal (pos n)) ≡ n
unfolding decimal value_from
value_from-decimal n = digits_from-value (suc n) n [] (omega arith)

abbrev pub IsDigit : ℕ → Type 0
IsDigit c = (b'0' ≤ c) × (c ≤ b'9')

digits_from-IsDigit :
    (fuel n : ℕ) (rest : Str) → All IsDigit rest → All IsDigit (digits_from fuel n rest)
unfolding digits_from
digits_from-IsDigit zero n rest all = all
digits_from-IsDigit (suc fuel) n rest all =
    let digit : IsDigit (n % 10 + b'0') = (omega arith, ground arith) in
    elim (Bool-cases (leb n 9)) [
      | inl short ↦ rw short (digit, all)
      | inr long ↦ rw long (digits_from-IsDigit fuel (n / 10) ((n % 10 + b'0') ∷ rest) (digit, all))
    ]

digits_from-full : (fuel n c : ℕ) (rest : Str) → is_empty (digits_from fuel n (c ∷ rest)) ≡ false
unfolding digits_from
digits_from-full zero n c rest = refl
digits_from-full (suc fuel) n c rest = elim (Bool-cases (leb n 9)) [
  | inl short ↦ rw short refl
  | inr long ↦ rw long (digits_from-full fuel (n / 10) (n % 10 + b'0') (c ∷ rest))
]

decimal-full : (n : ℕ) → is_empty (decimal (pos n)) ≡ false
unfolding decimal digits_from
decimal-full n = elim (Bool-cases (leb n 9)) [
  | inl short ↦ rw short refl
  | inr long ↦ rw long (digits_from-full n (n / 10) (n % 10 + b'0') [])
]

decimal-IsDigit : (n : ℕ) → All IsDigit (decimal (pos n))
unfolding decimal
decimal-IsDigit n = digits_from-IsDigit (suc n) n [] tt

-- The address of a backend is https://, its ID, its namespace, the domain and then one or more decimal
-- digits, which read as its port.
pub address-port :
    (namespace id : Str) (port : ℕ)
    → (digits : Str) × (address namespace (pos port) id
        ≡ codes "https://" ++ id ++ codes "." ++ namespace ++ codes ".svc.cluster.local:" ++ digits)
      × (is_empty digits ≡ false)
      × All IsDigit digits
      × (value_from 0 digits ≡ port)
unfolding address
address-port namespace id port =
    (decimal (pos port), refl, decimal-full port, decimal-IsDigit port, value_from-decimal port)
