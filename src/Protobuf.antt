-- ===== src/Protobuf.antt =====
-- redpanda/models/schema/protobuf_canonicalize.go: when two protobuf schemas count as the same. The
-- parser is a parameter. An error makes two bodies different, whatever it says, and is `none`.
pub mod Order
pub mod Syntax
pub mod Reordering
pub mod Names
mod Tests
use terraform_provider_redpa.Base.{
  ℕ, zero, suc, ◌+◌, ◌-◌, ◌*◌, ◌/◌, ◌%◌, ◌^◌, ◌≤◌, ◌<◌, ◌≡◌, refl, sym, ap, ◌∙◌, ◌≢◌, ◌↔◌, ◌⊎◌, inl,
  inr, Bool, true, false, not, ◌&&◌, ◌||◌, Option, none, some, List, [], ◌∷◌, ◌++◌, map, arith, ltb,
  leb, ◌==◌, if◌then◌else◌, ltb→lt, ==_iff, ==_refl, Bool-cases, is_some, Option-cases, length,
  drop, length-append, length-drop, drop-append, All, All-append, Text, codes, same, is_empty,
  strip, has_prefix, or_else, trim_prefix, trim_suffix, contains, to_lower, cut, split, trim_func,
  trim_space, trim_quotes, join, same_sound, same_refl, same_iff, strip-append, strip_sound,
  has_prefix-append, trim_prefix-append, contains-append_middle, to_lower-append, Dict, lookup,
  insert, delete, lookup-insert, lookup-delete, HasDistinctKeys, ℤ, pos, negsuc, atoi,
  insert-HasDistinctKeys, delete-HasDistinctKeys,
}
use terraform_provider_redpa.Protobuf.Order.{sort_strings}
use terraform_provider_redpa.Protobuf.Syntax.{
  Literal, literal, Entries, no_entries, entry, Literals, no_literals, item, OptionDecl, Label,
  Field, Range, Element, comment, syntax_decl, package_decl, import_decl, option_decl, message,
  enum_decl, enum_field, normal_field, map_field, oneof_decl, oneof_field, reserved, unsupported,
  Elements, finish, element,
}

-- The verb %d. The fuel is above the number of digits.
abbrev digits_from : ℕ → ℕ → Text → Text
digits_from zero n acc = acc
digits_from (suc fuel) n acc =
    let rest = digits_from fuel (n / 10) ((48 + n % 10) ∷ acc) in
    if ltb n 10 then (48 + n) ∷ acc else rest

abbrev pub decimal : ℤ → Text
decimal (pos n) = digits_from (suc n) n []
decimal (negsuc n) = codes "-" ++ digits_from (suc (suc n)) (suc n) []

unfoldable mutual
  pub render_proto_literal : Literal → Text
  render_proto_literal (literal source no_entries no_literals) = source
  render_proto_literal (literal source no_entries (item l ls)) =
      codes "[" ++ (join (render_proto_literal l ∷ render_items ls) (codes ",") ++ codes "]")
  render_proto_literal (literal source (entry n l es) ls) =
      codes "{"
      ++ (join (sort_strings ((n ++ (codes ":" ++ render_proto_literal l)) ∷ render_entries es))
            (codes ",")
          ++ codes "}")

  pub render_entries : Entries → List Text
  render_entries no_entries = []
  render_entries (entry n l es) = (n ++ (codes ":" ++ render_proto_literal l)) ∷ render_entries es

  pub render_items : Literals → List Text
  render_items no_literals = []
  render_items (item l ls) = render_proto_literal l ∷ render_items ls

-- A type reference, relative to the package.
unfoldable pub norm_proto_type : (pkg typ : Text) → Text
unfolding trim_prefix
norm_proto_type pkg typ =
    let t = trim_prefix typ (codes ".") in
    if is_empty pkg then t else trim_prefix t (pkg ++ codes ".")

abbrev pub render_option : OptionDecl → Text
render_option o = o.name ++ (codes "=" ++ render_proto_literal o.constant)

unfoldable pub render_field_options : List OptionDecl → Text
render_field_options options =
    if is_empty options
    then []
    else codes "[" ++ (join (sort_strings (map render_option options)) (codes ",") ++ codes "]")

abbrev pub render_range : Range → Text
render_range r =
    if r.is_max
    then decimal r.from ++ codes "-max"
    else decimal r.from ++ (codes "-" ++ decimal r.to)

unfoldable pub render_reserved : List Range → List Text → Text
render_reserved ranges names =
    codes "reserved:" ++ join (sort_strings (map render_range ranges ++ names)) (codes ",")

abbrev pub label_text : Label → Text
label_text l =
    if l.repeated
    then codes "repeated "
    else if l.optional
    then codes "optional "
    else if l.required
    then codes "required "
    else []

-- What the three kinds of field have in common, from the type on.
abbrev pub field_text : Text → Text → Text → ℤ → Text → Text
field_text before typ name sequence options =
    before ++ (typ ++ (codes " " ++ (name ++ (codes "=" ++ (decimal sequence ++ options)))))

abbrev pub map_field_text : Text → Text → Text → ℤ → Text → Text
map_field_text key typ name sequence options =
    codes "map:<"
    ++ (key
        ++ (codes ","
            ++ (typ ++ (codes "> " ++ (name ++ (codes "=" ++ (decimal sequence ++ options)))))))

abbrev pub block_text : Text → Text → List Text → Text
block_text kind name inner =
    kind ++ (codes " " ++ (name ++ (codes "{" ++ (join inner (codes ";") ++ codes "}"))))

-- The texts of a block, sorted.
abbrev pub sorted : Option (List Text) → Option (List Text)
sorted none = none
sorted (some texts) = some (sort_strings texts)

abbrev pub block : Text → Text → Option (List Text) → Option (List Text)
block kind name none = none
block kind name (some inner) = some (block_text kind name inner ∷ [])

abbrev pub appended : Option (List Text) → Option (List Text) → Option (List Text)
appended none more = none
appended (some texts) none = none
appended (some texts) (some more) = some (texts ++ more)

module _ (pkg : Text) where
  unfoldable mutual
    -- What one element adds to the list.
    pub render_element : Element → Option (List Text)
    render_element (comment text) = some []
    render_element (syntax_decl value) = some ((codes "syntax=" ++ value) ∷ [])
    render_element (package_decl name) = some ((codes "package=" ++ name) ∷ [])
    render_element (import_decl kind filename) =
        some ((codes "import=" ++ (kind ++ (codes ":" ++ filename))) ∷ [])
    render_element (option_decl o) = some ((codes "option=" ++ render_option o) ∷ [])
    render_element (message is_extend name elements) =
        block (if is_extend then codes "extend" else codes "message") name
          (sorted (render_elements elements))
    render_element (enum_decl name elements) =
        block (codes "enum") name (sorted (render_elements elements))
    render_element (enum_field name integer elements) =
        some ((codes "enumvalue:" ++ (name ++ (codes "=" ++ decimal integer))) ∷ [])
    render_element (normal_field label f) = some (
        field_text (codes "field:" ++ label_text label) (norm_proto_type pkg f.type_name) f.name
          f.sequence (render_field_options f.options)
        ∷ [])
    render_element (map_field key_type f) = some (
        map_field_text key_type (norm_proto_type pkg f.type_name) f.name f.sequence
          (render_field_options f.options)
        ∷ [])
    render_element (oneof_decl name elements) =
        block (codes "oneof") name (sorted (render_elements elements))
    render_element (oneof_field f) = some (
        field_text (codes "field:") (norm_proto_type pkg f.type_name) f.name f.sequence
          (render_field_options f.options)
        ∷ [])
    render_element (reserved ranges names) = some (render_reserved ranges names ∷ [])
    render_element (unsupported kind) = none

    pub render_elements : Elements → Option (List Text)
    render_elements finish = some []
    render_elements (element e elements) = appended (render_element e) (render_elements elements)

  unfoldable pub canon_proto_elements : Elements → Option (List Text)
  canon_proto_elements elements = sorted (render_elements elements)

-- The first package declaration.
abbrev pub package_or : Element → Text → Text
package_or (package_decl name) rest = name
package_or e rest = rest

unfoldable pub proto_package_name : Elements → Text
proto_package_name finish = []
proto_package_name (element e elements) = package_or e (proto_package_name elements)

module _ (parse : Text → Option Elements) where
  abbrev pub canon_file : Option Elements → Option Text
  canon_file none = none
  canon_file (some elements) = elim (canon_proto_elements (proto_package_name elements) elements) [
    | none ↦ none
    | some parts ↦ some (join parts (codes "\n"))
  ]

  unfoldable pub canonicalize_protobuf : Text → Option Text
  canonicalize_protobuf src = canon_file (parse src)

  abbrev pub same_canon : Option Text → Option Text → Bool
  same_canon none cb = false
  same_canon (some ca) none = false
  same_canon (some ca) (some cb) = same ca cb

  unfoldable pub protobuf_bodies_equivalent : (a b : Text) → Bool
  protobuf_bodies_equivalent a b =
      if same a b then true else same_canon (canonicalize_protobuf a) (canonicalize_protobuf b)
