-- ===== src/Auth/Nonce/Memory.antt =====
-- internal/auth/nonce.go: the nonceCache. The mutex makes each operation one step.
pub mod Guard
pub mod Race
use secure_svc_gw.Prelude.{
  ◌≡◌, refl, Bool, true, false, Option, none, some, List, [], ◌∷◌, ℤ, pos, leb_ℤ, Str, Map, lookup,
  insert, Time, after, add, is_zero, second, ◌*◌, if◌then◌else◌,
}

-- ttl is a time.Duration: an int64 of nanoseconds.
pub record NonceCache : Type 0 where
  pub items : Map Time
  pub ttl : ℤ

-- 5 * time.Minute
abbrev pub five_minutes : ℤ
five_minutes = pos (300 * second)

unfoldable pub new_nonce_cache : ℤ → NonceCache
new_nonce_cache ttl = record { items = []; ttl = if leb_ℤ ttl (pos 0) then five_minutes else ttl }

-- NewInMemoryNonceStore
unfoldable pub new_in_memory_nonce_store : ℤ → NonceCache
unfolding new_nonce_cache
new_in_memory_nonce_store ttl = new_nonce_cache ttl

unfoldable pub check_and_store : Time → Str → Time → NonceCache → Bool × NonceCache
check_and_store now jti exp c = elim (lookup jti c.items) [
  | some seen ↦ (false, c)
  | none ↦
      let exp' = if is_zero exp then add now c.ttl else exp in
      (true, record c { items = insert jti exp' c.items })
]

-- One round of the loop of sweep: the entries whose expiry has passed go.
sweep_items : Time → Map Time → Map Time
sweep_items now [] = []
sweep_items now ((jti, exp) ∷ items) =
    let rest = sweep_items now items in if after now exp then rest else (jti, exp) ∷ rest

unfoldable pub sweep : Time → NonceCache → NonceCache
unfolding sweep_items
sweep now c = record c { items = sweep_items now c.items }
