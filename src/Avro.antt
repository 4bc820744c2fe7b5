-- ===== src/Avro.antt =====
-- redpanda/models/schema/avro_canonicalize.go: when two Avro schemas count as the same. The decoder and
-- the encoder of encoding/json are parameters; the members of an object have different keys.
pub mod Slack
mod Tests
use terraform_provider_redpa.Base.{
  ℕ, zero, suc, ◌+◌, ◌-◌, ◌*◌, ◌/◌, ◌%◌, ◌^◌, ◌≤◌, ◌<◌, ◌≡◌, refl, sym, ap, ◌∙◌, ◌≢◌, ◌↔◌, ◌⊎◌, inl,
  inr, Bool, true, false, not, ◌&&◌, ◌||◌, Option, none, some, List, [], ◌∷◌, ◌++◌, map, arith, ltb,
  leb, ◌==◌, if◌then◌else◌, ltb→lt, ==_iff, ==_refl, Bool-cases, is_some, Option-cases, length,
  drop, length-append, length-drop, drop-append, All, All-append, Text, codes, same, is_empty,
  strip, has_prefix, or_else, trim_prefix, trim_suffix, contains, to_lower, cut, split, trim_func,
  trim_space, trim_quotes, join, same_sound, same_refl, same_iff, strip-append, strip_sound,
  has_prefix-append, trim_prefix-append, contains-append_middle, to_lower-append, Dict, lookup,
  insert, delete, lookup-insert, lookup-delete, HasDistinctKeys, ℤ, pos, negsuc, atoi,
  insert-HasDistinctKeys, delete-HasDistinctKeys,
}

-- A decoded value. What is neither a string, nor an array, nor an object is a `scalar`.
mutual
  pub data Json : Type 0 where
    scalar : Text → Json
    string_value : Text → Json
    array : Items → Json
    object : Members → Json

  pub data Items : Type 0 where
    no_items : Items
    item : Json → Items → Items

  pub data Members : Type 0 where
    no_members : Members
    member : Text → Json → Members → Members

abbrev pub is_one_of : Text → List Text → Bool
is_one_of s [] = false
is_one_of s (t ∷ ts) = same s t || is_one_of s ts

abbrev avro_primitives : List Text
avro_primitives =
    codes "null"
    ∷ codes "boolean"
    ∷ codes "int"
    ∷ codes "long"
    ∷ codes "float"
    ∷ codes "double"
    ∷ codes "bytes"
    ∷ codes "string"
    ∷ codes "record"
    ∷ codes "enum"
    ∷ codes "array"
    ∷ codes "map"
    ∷ codes "union"
    ∷ codes "fixed"
    ∷ codes "error"
    ∷ []

unfoldable pub is_non_essential : Text → Bool
is_non_essential key =
    is_one_of key (codes "doc" ∷ codes "aliases" ∷ codes "default" ∷ codes "order" ∷ [])

unfoldable pub is_type_key : Text → Bool
is_type_key key = is_one_of key (codes "type" ∷ codes "items" ∷ codes "values" ∷ [])

unfoldable pub resolve_type_name : (ref ns : Text) → Text
resolve_type_name ref ns =
    if is_one_of ref avro_primitives
    then ref
    else if contains ref (codes ".") || is_empty ns
    then ref
    else ns ++ (codes "." ++ ref)

-- What stands before the last dot.
abbrev before_last_dot : Text → Option Text
before_last_dot [] = none
before_last_dot (c ∷ s) = elim (before_last_dot s) [
  | some p ↦ some (c ∷ p)
  | none ↦ if c == 46 then some [] else none
]

abbrev string_at : Text → Members → Option Text
string_at k no_members = none
string_at k (member j (string_value s) ms) =
    let rest = string_at k ms in if same j k then some s else rest
string_at k (member j v ms) = let rest = string_at k ms in if same j k then none else rest

abbrev namespace_by_name : Text → Option Text → Text
namespace_by_name ns none = ns
namespace_by_name ns (some name) = elim (before_last_dot name) [
  | none ↦ ns
  | some p ↦ if is_empty p then ns else p
]

-- The namespace inside an object.
unfoldable pub current_namespace : Text → Members → Text
current_namespace ns ms = elim (string_at (codes "namespace") ms) [
  | none ↦ namespace_by_name ns (string_at (codes "name") ms)
  | some n ↦ if is_empty n then namespace_by_name ns (string_at (codes "name") ms) else n
]

-- A string in the place of a type is a type's name.
abbrev pub as_reference : Text → Json → Json → Json
as_reference ns (string_value s) resolved = string_value (resolve_type_name s ns)
as_reference ns (scalar s) resolved = resolved
as_reference ns (array xs) resolved = resolved
as_reference ns (object ms) resolved = resolved

unfoldable mutual
  pub resolve_type_refs : Text → Json → Json
  resolve_type_refs ns (object ms) = object (resolve_members (current_namespace ns ms) ms)
  resolve_type_refs ns (array xs) = array (resolve_items ns xs)
  resolve_type_refs ns (string_value s) = string_value s
  resolve_type_refs ns (scalar s) = scalar s

  pub resolve_members : Text → Members → Members
  resolve_members current no_members = no_members
  resolve_members current (member k v ms) =
      let rest = resolve_members current ms in
      let value = resolve_type_refs current v in
      if is_non_essential k
      then rest
      else member k (if is_type_key k then as_reference current v value else value) rest

  pub resolve_items : Text → Items → Items
  resolve_items ns no_items = no_items
  resolve_items ns (item v xs) =
      item (as_reference ns v (resolve_type_refs ns v)) (resolve_items ns xs)

-- `strings.TrimRight(s, "\n")`.
abbrev pub trim_newlines : Text → Text
trim_newlines [] = []
trim_newlines (c ∷ s) =
    let rest = trim_newlines s in if c == 10 && is_empty rest then [] else c ∷ rest

module _ (decode : Text → Option Json) (encode : Json → Option Text) where
  abbrev pub encoded : Option Text → Option Text
  encoded none = none
  encoded (some s) = some (trim_newlines s)

  abbrev pub canon_root : Option Json → Option Text
  canon_root none = none
  canon_root (some root) = encoded (encode (resolve_type_refs [] root))

  unfoldable pub canonicalize_avro_body : Text → Option Text
  canonicalize_avro_body [] = some []
  canonicalize_avro_body (c ∷ s) = canon_root (decode (c ∷ s))

  abbrev pub same_form : Option Text → Option Text → Bool
  same_form none cb = false
  same_form (some ca) none = false
  same_form (some ca) (some cb) = same ca cb

  unfoldable pub avro_bodies_equivalent : (a b : Text) → Bool
  avro_bodies_equivalent a b =
      if same a b then true else same_form (canonicalize_avro_body a) (canonicalize_avro_body b)
