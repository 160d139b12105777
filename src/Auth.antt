-- ===== src/Auth.antt =====
-- internal/auth: the reasons, the claims and keys, and the scope test.
pub mod Nonce
pub mod Verifier
use secure_svc_gw.Prelude.{
  ℕ, ◌≡◌, refl, Bool, true, false, ◌||◌, List, [], ◌∷◌, ℤ, Str, codes, is_empty, ◌==◌, Map,
  if◌then◌else◌,
}

-- The constants Reason..., and their texts.
pub data Reason : Type 0 where
  no_token unknown_kid bad_signature bad_claims expired not_yet_valid replay missing_scope : Reason
  wrong_audience wrong_issuer : Reason

unfoldable pub reason_text : Reason → Str
reason_text no_token = codes "no_token"
reason_text unknown_kid = codes "unknown_kid"
reason_text bad_signature = codes "bad_signature"
reason_text bad_claims = codes "bad_claims"
reason_text expired = codes "expired"
reason_text not_yet_valid = codes "not_yet_valid"
reason_text replay = codes "replay"
reason_text missing_scope = codes "missing_scope"
reason_text wrong_audience = codes "wrong_audience"
reason_text wrong_issuer = codes "wrong_issuer"

-- if reason == auth.ReasonMissingScope
abbrev pub is_missing_scope : Reason → Bool
is_missing_scope missing_scope = true
is_missing_scope _ = false

pub record JwtHeader : Type 0 where
  pub alg : Str
  pub typ : Str
  pub kid : Str

-- iat and exp are int64.
pub record Claims : Type 0 where
  pub iss : Str
  pub sub : Str
  pub aud : Str
  pub iat : ℤ
  pub exp : ℤ
  pub jti : Str
  pub scope : List Str

-- registeredKey
pub record RegisteredKey : Type 0 where
  pub public_key : Str
  pub sub : Str
  pub scopes : Map (Unit {0})

pub record KeyRegistration : Type 0 where
  pub kid : Str
  pub pub_base64 : Str
  pub subject : Str
  pub scopes : List Str

-- The loop of HasScope.
scope_among : List Str → Str → Bool
scope_among [] required = false
scope_among (s ∷ scopes) required = s == required || scope_among scopes required

unfoldable pub has_scope : Claims → Str → Bool
unfolding scope_among
has_scope c required = if is_empty required then true else scope_among c.scope required
