-- ===== src/Controller/Cluster.antt =====
-- cmd/controller/main.go: the client of the Kubernetes API and the operations on it. The API server,
-- and the decoding of what it answers, are arguments; json.Marshal of a body is the body as a value.
pub mod Bodies
pub mod Operations
pub mod Statuses
pub mod Traces
use secure_svc_gw.Prelude.{
  Bool, true, false, Option, none, some, List, [], ◌∷◌, ◌++◌, ℤ, pos, eqb_ℤ, Str, codes, is_empty,
  Map, Result, ok, err, if◌then◌else◌,
}
use secure_svc_gw.Config.{ClientKey}
use secure_svc_gw.Controller.{Spec}

mutual
  pub data Json : Type 0 where
    text : Str → Json
    number : ℤ → Json
    array : Items → Json
    object : Fields → Json

  pub data Items : Type 0 where
    no_items : Items
    item : Json → Items → Items

  pub data Fields : Type 0 where
    no_fields : Fields
    field : Str → Json → Fields → Fields

abbrev fields_of : List (Str × Json) → Fields
fields_of [] = no_fields
fields_of ((k, v) ∷ rest) = field k v (fields_of rest)

abbrev pub object_of : List (Str × Json) → Json
object_of entries = object (fields_of entries)

abbrev items_of : List Json → Items
items_of [] = no_items
items_of (v ∷ rest) = item v (items_of rest)

abbrev pub array_of : List Json → Json
array_of values = array (items_of values)

-- k8sClient, without the http.Client.
pub record Client : Type 0 where
  pub base : Str
  pub token : Str

pub record ApiRequest : Type 0 where
  pub method : Str
  pub url : Str
  pub header : Map Str
  pub body : Option Json

-- The API server with its state, `none` for an error of http.Client.Do; the error of
-- http.NewRequestWithContext; and json.Unmarshal into the custom resource, a Secret and a client key.
pub record Cluster (S : Type 0) : Type 0 where
  pub new_request_fails : Str → Str → Bool
  pub respond : ApiRequest → S → Option (Str × ℤ) × S
  pub unmarshal_cr : Str → Option Spec
  pub unmarshal_secret : Str → Option (Map Str)
  pub unmarshal_key : Str → Option ClientKey

-- The errors of the operations: of the request, a status, of the JSON, a missing key of a Secret, and
-- the two statuses of a PATCH and of the POST after it.
pub data OperationError : Type 0 where
  request_failed bad_json missing_key : OperationError
  bad_status : ℤ → OperationError
  not_created : ℤ → ℤ → OperationError

abbrev pub is_ok : ℤ → Bool
is_ok status = eqb_ℤ status (pos 200)

module _ {S : Type 0} (K : Cluster S) (c : Client) where
  -- do: the status and the body, `none` on an error.
  unfoldable pub call : Str → Str → Option Json → S → Option (Str × ℤ) × S
  call method path body s =
      let authorization : Map Str =
        if is_empty c.token then [] else (codes "Authorization", codes "Bearer " ++ c.token) ∷ [] in
      let content_type : Map Str = elim body [
        | none ↦ []
        | some value ↦ (codes "Content-Type", codes "application/strategic-merge-patch+json") ∷ []
      ] in
      if K.new_request_fails method (c.base ++ path)
      then (none, s)
      else K.respond
          (record {
            method = method;
            url = c.base ++ path;
            header = authorization ++ content_type;
            body = body;
          })
          s

  -- A GET whose answer must have the status 200.
  unfoldable pub get_ok : Str → S → Result OperationError Str × S
  unfolding call
  get_ok path s =
      let (answer, s') = call (codes "GET") path none s in
      elim answer [
        | none ↦ (err request_failed, s')
        | some (data_, status) ↦ (if is_ok status then ok data_ else err (bad_status status), s')
      ]
