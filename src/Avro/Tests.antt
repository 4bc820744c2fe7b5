-- ===== src/Avro/Tests.antt =====
-- A record as its author wrote it, and with a documented field and a qualified type.
use terraform_provider_redpa.Base.{
  ◌≡◌, refl, true, Option, none, some, [], ◌∷◌, ◌++◌, Text, codes, same, contains,
}
use terraform_provider_redpa.Avro.{
  Json, scalar, string_value, array, object, Items, no_items, item, Members, no_members, member,
  is_non_essential, is_type_key, resolve_type_name, current_namespace, resolve_type_refs,
  avro_bodies_equivalent,
}
use terraform_provider_redpa.Avro.Slack.{
  Slack, in_object, keep, same_value, rename, drop_right, no_more, avro_bodies_equivalent-Slack,
}

unfoldable mutual
  printed : Json → Text
  printed (scalar s) = s
  printed (string_value s) = codes "\"" ++ (s ++ codes "\"")
  printed (array xs) = codes "[" ++ (printed_items xs ++ codes "]")
  printed (object ms) = codes "{" ++ (printed_members ms ++ codes "}")

  printed_items : Items → Text
  printed_items no_items = []
  printed_items (item v xs) = printed v ++ (codes "," ++ printed_items xs)

  printed_members : Members → Text
  printed_members no_members = []
  printed_members (member k v ms) =
      k ++ (codes ":" ++ (printed v ++ (codes "," ++ printed_members ms)))

abbrev encode : Json → Option Text
encode v = some (printed v ++ codes "\n")

abbrev order_with : Text → Members → Json
order_with typ more = object (
    member (codes "namespace") (string_value (codes "shop"))
      (member (codes "type") (string_value typ) more))

abbrev written : Json
written = order_with (codes "Kind") no_members

abbrev returned : Json
returned =
    order_with (codes "shop.Kind") (member (codes "doc") (string_value (codes "x")) no_members)

abbrev decode : Text → Option Json
decode [] = none
decode (c ∷ []) = some written
decode (c ∷ d ∷ s) = some returned

returned-Slack : Slack [] written returned
unfolding current_namespace resolve_type_name is_type_key is_non_essential same contains
returned-Slack = in_object refl (
    keep same_value (
      rename {k = codes "type"} {s = codes "Kind"} {t = codes "shop.Kind"} refl refl
        (drop_right {k = codes "doc"} refl no_more)))

avro_bodies_equivalent-Slack_example :
    avro_bodies_equivalent decode encode (codes "a") (codes "bb") ≡ true
avro_bodies_equivalent-Slack_example =
    avro_bodies_equivalent-Slack decode encode (codes "a") (codes "bb") refl refl refl refl
      returned-Slack refl

-- A field whose default changes.
abbrev field_with : Text → Json
field_with value = object (
    member (codes "name") (string_value (codes "count")) (
      member (codes "type") (string_value (codes "int"))
        (member (codes "default") (scalar value) no_members)))

changed_default_test :
    resolve_type_refs [] (field_with (codes "1")) ≡ resolve_type_refs [] (field_with (codes "2"))
unfolding resolve_type_refs is_non_essential is_type_key current_namespace same
changed_default_test = refl
