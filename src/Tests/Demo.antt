-- ===== src/Tests/Demo.antt =====
-- Runs of the generator of the demo.
use secure_svc_gw.Prelude.{
  ℕ, zero, suc, ◌≡◌, refl, false, some, [], ◌∷◌, Str, Str-discrete, codes, ◌==◌, All, arith,
}
use secure_svc_gw.Artifacts.{services, clients, Random}
use secure_svc_gw.Artifacts.Files.{artifacts, rogue_draw}
use secure_svc_gw.Artifacts.Quoting.{IsPlain, join_quoted, read_quoted, read_quoted-join_quoted}
use secure_svc_gw.Artifacts.Names.{IsNamedBy, artifacts-IsNamedBy}

abbrev zeros : ℕ → Str
zeros zero = []
zeros (suc n) = 0 ∷ zeros n

-- A source that numbers its keys, and gives one Ed25519 key only.
abbrev random : Random ℕ
random = record { ec_key = λ n. n; serial = λ n. n; ed25519 = λ n. (zeros 32, zeros 64) }

services_named : All (λ s. codes "llm-4" == s.name ≡ false) services
unfolding Str-discrete
services_named = (refl, (refl, tt))

artifacts-IsNamedBy_example :
    All
      (λ f. IsNamedBy (random.ec_key (rogue_draw services)) f.content)
      (artifacts random services clients)
artifacts-IsNamedBy_example = artifacts-IsNamedBy random services clients services_named

letter-IsPlain : IsPlain b'a'
letter-IsPlain = ground arith

read_quoted-join_quoted_example :
    read_quoted (join_quoted (codes "a" ∷ codes "aa" ∷ [])) ≡ some (codes "a" ∷ codes "aa" ∷ [])
read_quoted-join_quoted_example =
    read_quoted-join_quoted (codes "a" ∷ codes "aa" ∷ [])
      ((letter-IsPlain, tt), ((letter-IsPlain, (letter-IsPlain, tt)), tt))

joined : join_quoted (codes "a" ∷ codes "b" ∷ []) ≡ codes "\"a\", \"b\""
unfolding join_quoted
joined = refl
