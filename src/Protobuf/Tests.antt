-- ===== src/Protobuf/Tests.antt =====
-- A file as its author wrote it, and as Schema Registry gives it back.
use mathlib.Core.List.Perm
use terraform_provider_redpa.Base.{
  ◌≡◌, refl, true, false, Option, none, some, [], ◌∷◌, Text, codes, pos,
}
use terraform_provider_redpa.Protobuf.{
  norm_proto_type, canon_proto_elements, render_elements, protobuf_bodies_equivalent,
  proto_package_name,
}
use terraform_provider_redpa.Protobuf.Reordering.{
  IsSameField, Reordered, keep, exchange, drop_comment, followed, nothing_left, same_element,
  in_message, of_normal, protobuf_bodies_equivalent-Reordered,
}
use terraform_provider_redpa.Protobuf.Syntax.{
  literal, no_entries, no_literals, Label, Field, Element, comment, package_decl, message,
  enum_decl, enum_field, normal_field, Elements, finish, element, option_decl,
}

abbrev plain : Label
plain = record { repeated = false; optional = false; required = false }

abbrev kind_field : Text → Field
kind_field typ = record { type_name = typ; name = codes "kind"; sequence = pos 1; options = [] }

abbrev kinds : Element
kinds = enum_decl (codes "Kind") (element (enum_field (codes "NEW") (pos 0) finish) finish)

abbrev order : Text → Element
order typ = message false (codes "Order") (element (normal_field plain (kind_field typ)) finish)

abbrev written : Elements
written =
    element (comment (codes "orders")) (
      element (package_decl (codes "shop")) (element (order (codes "Kind")) (element kinds finish)))

abbrev returned : Elements
returned =
    element (package_decl (codes "shop"))
      (element kinds (element (order (codes ".shop.Kind")) finish))

abbrev parse : Text → Option Elements
parse [] = none
parse (c ∷ []) = some written
parse (c ∷ d ∷ s) = some returned

same_kind : IsSameField (codes "shop") (kind_field (codes "Kind")) (kind_field (codes ".shop.Kind"))
unfolding norm_proto_type
same_kind = record {
  same_name = refl;
  same_sequence = refl;
  same_type = kind_type;
  same_options = Perm.nil;
}
  where
    kind_type :
        norm_proto_type (codes "shop") (codes "Kind")
        ≡ norm_proto_type (codes "shop") (codes ".shop.Kind")
    kind_type = refl

returned-Reordered : Reordered (codes "shop") written returned
returned-Reordered = followed drop_comment (
    keep same_element (
      followed exchange (
        keep same_element
          (keep (in_message (keep (of_normal same_kind) nothing_left)) nothing_left))))

protobuf_bodies_equivalent-Reordered_example :
    protobuf_bodies_equivalent parse (codes "a") (codes "bb") ≡ true
unfolding proto_package_name canon_proto_elements render_elements
protobuf_bodies_equivalent-Reordered_example =
    protobuf_bodies_equivalent-Reordered parse (codes "a") (codes "bb") refl refl refl
      returned-Reordered refl

-- The options of the values of an enum are not looked at.
abbrev value_with : Elements → Elements
value_with inner =
    element (enum_decl (codes "Kind") (element (enum_field (codes "OLD") (pos 1) inner) finish))
      finish

abbrev deprecated : Elements
deprecated =
    element
      (option_decl (record {
        name = codes "deprecated";
        constant = literal (codes "true") no_entries no_literals;
      }))
      finish

enum_value_options_test :
    canon_proto_elements [] (value_with deprecated) ≡ canon_proto_elements [] (value_with finish)
unfolding canon_proto_elements render_elements
enum_value_options_test = refl
