-- ===== src/Tests/Encoding.antt =====
-- An encoding of configurations that stands for the YAML library: it reads what it wrote.
use mathlib.Core.Option
use secure_svc_gw.Prelude.{
  ℕ, zero, suc, ◌≡◌, refl, ap, ◌∙◌, Option, none, some, List, [], ◌∷◌, Str, ℤ, length,
}
use secure_svc_gw.Config.{Config, Backend, Service, Route, ClientKey}
use secure_svc_gw.Controller.{GatewayConfig}
use secure_svc_gw.Startup.Deployed.{config_of}

-- Writes a value in front of a text, and reads it back with the rest of the text.
pub record Codec (A : Type 0) : Type 0 where
  pub write : A → Str → Str
  pub read : Str → Option (A × Str)
  pub law : (a : A) (rest : Str) → read (write a rest) ≡ some (a, rest)

abbrev read_number : Str → Option (ℕ × Str)
read_number [] = none
read_number (n ∷ rest) = some (n, rest)

abbrev number : Codec ℕ
number = record { write = λ n rest. n ∷ rest; read = read_number; law = λ n rest. refl }

abbrev both_or : {A B : Type 0} → A → Option (B × Str) → Option ((A × B) × Str)
both_or a none = none
both_or a (some (b, rest)) = some ((a, b), rest)

abbrev then_read :
    {A B : Type 0} → (Str → Option (B × Str)) → Option (A × Str) → Option ((A × B) × Str)
then_read next none = none
then_read next (some (a, rest)) = both_or a (next rest)

abbrev both : {A B : Type 0} → Codec A → Codec B → Codec (A × B)
both x y = record {
  write = λ p rest. x.write p.0 (y.write p.1 rest);
  read = λ text. then_read y.read (x.read text);
  law = λ p rest.
      ap (then_read y.read) (x.law p.0 (y.write p.1 rest)) ∙ ap (both_or p.0) (y.law p.1 rest);
}

abbrev write_all : {A : Type 0} → (A → Str → Str) → List A → Str → Str
write_all write [] rest = rest
write_all write (a ∷ items) rest = write a (write_all write items rest)

abbrev cons_or : {A : Type 0} → A → Option (List A × Str) → Option (List A × Str)
cons_or a none = none
cons_or a (some (rest, text)) = some (a ∷ rest, text)

abbrev then_cons :
    {A : Type 0} → (Str → Option (List A × Str)) → Option (A × Str) → Option (List A × Str)
then_cons next none = none
then_cons next (some (a, text)) = cons_or a (next text)

abbrev read_all : {A : Type 0} → (Str → Option (A × Str)) → ℕ → Str → Option (List A × Str)
read_all read zero text = some ([], text)
read_all read (suc n) text = then_cons (read_all read n) (read text)

pub read_all-write_all :
    {A : Type 0} (x : Codec A) (items : List A) (rest : Str)
    → read_all x.read (length items) (write_all x.write items rest) ≡ some (items, rest)
read_all-write_all x [] rest = refl
read_all-write_all x (a ∷ items) rest =
    ap (then_cons (read_all x.read (length items))) (x.law a (write_all x.write items rest))
    ∙ ap (cons_or a) (read_all-write_all x items rest)

abbrev counted : {A : Type 0} → (Str → Option (A × Str)) → Str → Option (List A × Str)
counted read [] = none
counted read (n ∷ text) = read_all read n text

abbrev list : {A : Type 0} → Codec A → Codec (List A)
list x = record {
  write = λ items rest. length items ∷ write_all x.write items rest;
  read = counted x.read;
  law = λ items rest. read_all-write_all x items rest;
}

abbrev first_by : {A B : Type 0} → (A → B) → Option (A × Str) → Option (B × Str)
first_by f none = none
first_by f (some (a, rest)) = some (f a, rest)

-- A value that is made of another one.
abbrev made :
    {A B : Type 0} (to : A → B) (back : B → A) → ((b : B) → to (back b) ≡ b) → Codec A → Codec B
made to back same x = record {
  write = λ b rest. x.write (back b) rest;
  read = λ text. first_by to (x.read text);
  law = λ b rest. ap (first_by to) (x.law (back b) rest) ∙ ap (λ v. some (v, rest)) (same b);
}

abbrev string : Codec Str
string = list number

abbrev backend : Codec Backend
backend =
    made (λ p. record { id = p.0; addr = p.1 }) (λ b. (b.id, b.addr)) (λ b. refl)
      (both string string)

abbrev service : Codec Service
service =
    made (λ p. record { name = p.0.0; health_path = p.0.1; backends = p.1 })
      (λ s. ((s.name, s.health_path), s.backends)) (λ s. refl)
      (both (both string string) (list backend))

abbrev route : Codec Route
route =
    made (λ p. record { prefix = p.0.0; service = p.0.1; required_scope = p.1 })
      (λ r. ((r.prefix, r.service), r.required_scope)) (λ r. refl)
      (both (both string string) string)

abbrev client_key : Codec ClientKey
client_key =
    made (λ p. record { kid = p.0.0; pub_base64 = p.0.1; subject = p.1.0; scopes = p.1.1 })
      (λ k. ((k.kid, k.pub_base64), (k.subject, k.scopes))) (λ k. refl)
      (both (both string string) (both string (list string)))

abbrev config_codec : Codec GatewayConfig
config_codec =
    made
      (λ p. record {
        listen_addr = p.0.0.0.0;
        metrics_addr = p.0.0.0.1;
        issuer = p.0.0.1.0;
        audience = p.0.0.1.1;
        nonce_ttl = p.0.1.0.0;
        redis_url = p.0.1.0.1;
        listen_cert = p.0.1.1.0;
        listen_key = p.0.1.1.1;
        ca_cert = p.1.0.0.0;
        gateway_cert = p.1.0.0.1;
        gateway_key = p.1.0.1;
        client_keys = p.1.1.0;
        services = p.1.1.1.0;
        routes = p.1.1.1.1;
      })
      (λ g. (
        (
          ((g.listen_addr, g.metrics_addr), (g.issuer, g.audience)),
          ((g.nonce_ttl, g.redis_url), (g.listen_cert, g.listen_key)),
        ),
        (((g.ca_cert, g.gateway_cert), g.gateway_key), (g.client_keys, (g.services, g.routes))),
      ))
      (λ g. refl)
      (both
        (both (both (both string string) (both string string))
          (both (both string string) (both string string)))
        (both (both (both string string) string)
          (both (list client_key) (both (list service) (list route)))))

abbrev pub marshal : GatewayConfig → Option Str
marshal g = some (config_codec.write g [])

abbrev loaded_by : (Str → Option ℤ) → Option (GatewayConfig × Str) → Option Config
loaded_by parse_duration none = none
loaded_by parse_duration (some (g, rest)) = Option.map (config_of g) (parse_duration g.nonce_ttl)

abbrev pub unmarshal : (Str → Option ℤ) → Str → Option Config
unmarshal parse_duration text = loaded_by parse_duration (config_codec.read text)

pub unmarshal-marshal :
    (parse_duration : Str → Option ℤ) (g : GatewayConfig) (t : Str)
    → marshal g ≡ some t
    → unmarshal parse_duration t ≡ Option.map (config_of g) (parse_duration g.nonce_ttl)
unmarshal-marshal parse_duration g t h =
    let same : t ≡ config_codec.write g [] = cc h in
    ap (unmarshal parse_duration) same ∙ ap (loaded_by parse_duration) (config_codec.law g [])
