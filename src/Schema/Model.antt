-- ===== src/Schema/Model.antt =====
-- The model of a schema, redpanda/models/schema/resource_model.go, and GetEffectivePassword of
-- redpanda/utils/utils.go. Decoding and encoding JSON and parsing protobuf are parameters.
pub mod Body
use terraform_provider_redpa.Base.{
  ℕ, zero, suc, ◌+◌, ◌-◌, ◌*◌, ◌/◌, ◌%◌, ◌^◌, ◌≤◌, ◌<◌, ◌≡◌, refl, sym, ap, ◌∙◌, ◌≢◌, ◌↔◌, ◌⊎◌, inl,
  inr, Bool, true, false, not, ◌&&◌, ◌||◌, Option, none, some, List, [], ◌∷◌, ◌++◌, map, arith, ltb,
  leb, ◌==◌, if◌then◌else◌, ltb→lt, ==_iff, ==_refl, Bool-cases, is_some, Option-cases, length,
  drop, length-append, length-drop, drop-append, All, All-append, Text, codes, same, is_empty,
  strip, has_prefix, or_else, trim_prefix, trim_suffix, contains, to_lower, cut, split, trim_func,
  trim_space, trim_quotes, join, same_sound, same_refl, same_iff, strip-append, strip_sound,
  has_prefix-append, trim_prefix-append, contains-append_middle, to_lower-append, Dict, lookup,
  insert, delete, lookup-insert, lookup-delete, HasDistinctKeys, ℤ, pos, negsuc, atoi,
  insert-HasDistinctKeys, delete-HasDistinctKeys,
}
use terraform_provider_redpa.Values.{
  TfValue, null, unknown, known, is_null, is_unknown, value_string,
}
use terraform_provider_redpa.Avro.{Json, avro_bodies_equivalent}
use terraform_provider_redpa.Protobuf.{protobuf_bodies_equivalent}
use terraform_provider_redpa.Protobuf.Syntax.{Elements}

pub data SchemaKind : Type 0 where
  avro json protobuf : SchemaKind

-- A reference of the model, and one of a request or an answer.
pub record ModelReference : Type 0 where
  pub name : TfValue Text
  pub subject : TfValue Text
  pub version : TfValue ℤ

pub record SchemaReference : Type 0 where
  pub name : Text
  pub subject : Text
  pub version : ℤ

pub record SchemaRequest : Type 0 where
  pub schema : Text
  pub kind : SchemaKind
  pub references : List SchemaReference

-- What the registry answers.
pub record SubjectSchema : Type 0 where
  pub id : ℤ
  pub version : ℤ
  pub content : SchemaRequest

pub record SchemaModel : Type 0 where
  pub allow_deletion : TfValue Bool
  pub cluster_id : TfValue Text
  pub compatibility : TfValue Text
  pub id : TfValue ℤ
  pub password : TfValue Text
  pub password_wo : TfValue Text
  pub references : TfValue (List ModelReference)
  pub schema : TfValue Text
  pub schema_type : TfValue Text
  pub subject : TfValue Text
  pub username : TfValue Text
  pub version : TfValue ℤ

-- `strings.ToUpper` on ASCII.
abbrev pub upper : ℕ → ℕ
upper c = if leb 97 c && leb c 122 then c - 32 else c

abbrev pub to_upper : Text → Text
to_upper s = map upper s

abbrev pub value_int : TfValue ℤ → ℤ
value_int (known n) = n
value_int null = pos 0
value_int unknown = pos 0

unfoldable pub get_effective_password : (password password_wo : TfValue Text) → Text
get_effective_password password (known p) = p
get_effective_password password null = value_string password
get_effective_password password unknown = value_string password

unfoldable pub convert_schema_type : SchemaModel → SchemaKind
convert_schema_type r =
    let t = to_upper (value_string r.schema_type) in
    if same t (codes "AVRO") || same t (codes "SCHEMA_TYPE_AVRO")
    then avro
    else if same t (codes "JSON") || same t (codes "SCHEMA_TYPE_JSON")
    then json
    else if same t (codes "PROTOBUF") || same t (codes "SCHEMA_TYPE_PROTOBUF")
    then protobuf
    else avro

abbrev parsed_reference : ModelReference → SchemaReference
parsed_reference r = record {
  name = value_string r.name;
  subject = value_string r.subject;
  version = value_int r.version;
}

unfoldable pub parse_schema_references : TfValue (List ModelReference) → List SchemaReference
parse_schema_references null = []
parse_schema_references unknown = []
parse_schema_references (known refs) = map parsed_reference refs

unfoldable pub to_schema_request : SchemaModel → SchemaRequest
unfolding parse_schema_references convert_schema_type
to_schema_request r = record {
  schema = value_string r.schema;
  kind = convert_schema_type r;
  references = parse_schema_references r.references;
}

abbrev model_reference : SchemaReference → ModelReference
model_reference r = record {
  name = known r.name;
  subject = known r.subject;
  version = known r.version;
}

unfoldable pub convert_references_to_terraform :
    List SchemaReference → TfValue (List ModelReference) → TfValue (List ModelReference)
convert_references_to_terraform [] (known refs) = known []
convert_references_to_terraform [] null = null
convert_references_to_terraform [] unknown = null
convert_references_to_terraform (r ∷ refs) prior = known (map model_reference (r ∷ refs))

-- The parsers and encoders. `json_form` decodes a body and encodes it again; `type_text` is
-- `String` of a schema type.
pub record Bodies : Type 0 where
  pub parse_protobuf : Text → Option Elements
  pub decode : Text → Option Json
  pub encode : Json → Option Text
  pub json_form : Text → Option Text
  pub type_text : SchemaKind → Text

module _ (bodies : Bodies) where
  abbrev pub is_of_type : Text → TfValue Text → Bool
  is_of_type t schema_type = same (to_upper (value_string schema_type)) t

  abbrev pub same_protobuf : (a b : Text) → Bool
  same_protobuf a b = protobuf_bodies_equivalent bodies.parse_protobuf a b

  abbrev pub same_avro : (a b : Text) → Bool
  same_avro a b = avro_bodies_equivalent bodies.decode bodies.encode a b

  abbrev preserved_json : SchemaModel → (current registry : Text) → Option Text → Option Text → Text
  preserved_json r current registry none q = []
  preserved_json r current registry (some p) none = []
  preserved_json r current registry (some p) (some q) =
      if same p q
      then current
      else if is_of_type (codes "AVRO") r.schema_type && same_avro current registry
      then current
      else []

  abbrev preserved_body : SchemaModel → (current registry : Text) → Text
  preserved_body r current registry =
      if is_of_type (codes "PROTOBUF") r.schema_type
      then (if same_protobuf current registry then current else [])
      else preserved_json r current registry (bodies.json_form current) (bodies.json_form registry)

  unfoldable pub preserve_user_schema_body : SchemaModel → (registry_schema : Text) → Text
  preserve_user_schema_body r registry =
      if is_null r.schema || is_unknown r.schema
      then []
      else preserved_body r (value_string r.schema) registry

  abbrev pub or_registry : Text → Text → Text
  or_registry preserved registry = if is_empty preserved then registry else preserved

  unfoldable pub update_from_schema : SubjectSchema → SchemaModel → SchemaModel
  update_from_schema answer r = record r {
    id = known answer.id;
    version = known answer.version;
    schema =
        known
          (or_registry (preserve_user_schema_body r answer.content.schema) answer.content.schema);
    schema_type = known (to_upper (bodies.type_text answer.content.kind));
    references = convert_references_to_terraform answer.content.references r.references;
  }
