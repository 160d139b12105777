-- ===== src/Auth/Nonce/Memory/Guard.antt =====
-- The nonceCache keeps the contract of a replay guard, and its sweeper drops only what has expired.
use secure_svc_gw.Prelude.{
  ◌≡◌, false, some, [], ◌∷◌, arith, Str, Map, lookup, lookup-insert, Time, NotAfter, after,
  NotAfter-refl, NotAfter-trans, is_zero_of_NotAfter, is_zero, add, if◌then◌else◌,
}
use secure_svc_gw.Auth.Nonce.{NonceStore, IsReplayGuard}
use secure_svc_gw.Auth.Nonce.Memory.{NonceCache, check_and_store, sweep_items, sweep}

abbrev pub memory_store : NonceStore
memory_store = record { State = NonceCache; check_and_store = check_and_store; pass = sweep }

-- The entry of a key is there with an expiry at or after the instant.
abbrev pub Held : Str → Time → Map Time → Type 0
Held jti until items = (exp : Time) × (lookup jti items ≡ some exp) × NotAfter until exp

lookup-sweep_items_kept :
    (now : Time) (jti : Str) (exp : Time) (items : Map Time)
    → after now exp ≡ false
    → lookup jti items ≡ some exp
    → lookup jti (sweep_items now items) ≡ some exp
unfolding lookup sweep_items
lookup-sweep_items_kept now jti exp [] live found = cc
lookup-sweep_items_kept now jti exp ((k, e) ∷ items) live found =
    ground (arith, lookup-sweep_items_kept now jti exp items live)

-- The nonceCache keeps the contract of a replay guard: it refuses a jti that it accepted with an
-- expiry until that expiry, whatever it stores and however often it sweeps between.
pub memory_store-IsReplayGuard : IsReplayGuard memory_store
unfolding check_and_store sweep
memory_store-IsReplayGuard = record {
  Seen = λ jti until c. Held jti until c.items;
  refuses = λ now jti exp until c live (e, found, later). ground arith;
  remembers = λ now jti exp c modern live fresh. (
    exp,
    ground (arith, is_zero_of_NotAfter now exp modern live, lookup-insert jti jti exp c.items),
    NotAfter-refl exp,
  );
  keeps = λ now other exp jti until c live (e, found, later). (
    e,
    ground (arith, lookup-insert jti other (if is_zero exp then add now c.ttl else exp) c.items),
    later,
  );
  keeps_passing = λ now jti until c live (e, found, later). (
    e,
    lookup-sweep_items_kept now jti e c.items (NotAfter-trans now until e live later) found,
    later,
  );
}
