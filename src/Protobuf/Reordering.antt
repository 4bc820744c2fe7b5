-- ===== src/Protobuf/Reordering.antt =====
-- What Schema Registry may change about a protobuf file, and that the canonical form of
-- redpanda/models/schema/protobuf_canonicalize.go stays.
use mathlib.Core.List.{Perm, foldr}
use mathlib.Core.List.Perm
use terraform_provider_redpa.Base.{
  ◌≡◌, refl, sym, ap, ◌∙◌, Bool, true, false, Option, none, some, List, [], ◌∷◌, ◌++◌,
  if◌then◌else◌, Text, codes, same, is_empty, join, same_refl,
}
use terraform_provider_redpa.Protobuf.{
  render_element, render_elements, canon_proto_elements, sorted, block, appended, norm_proto_type,
  render_option, render_field_options, render_range, render_reserved, proto_package_name,
  canonicalize_protobuf, protobuf_bodies_equivalent, canon_file,
}
use terraform_provider_redpa.Protobuf.Order.{
  sort_strings-append, insert_all, insert_all_comm, sort_strings-Perm,
}
use terraform_provider_redpa.Protobuf.Syntax.{
  OptionDecl, Label, Field, Range, Element, comment, message, enum_decl, normal_field, map_field,
  oneof_decl, oneof_field, reserved, Elements, finish, element,
}
use terraform_provider_redpa.Base.{subst}

-- The same field, but for the order of its options and for how its type is qualified.
pub record IsSameField (pkg : Text) (f g : Field) : Type 0 where
  pub same_name : f.name ≡ g.name
  pub same_sequence : f.sequence ≡ g.sequence
  pub same_type : norm_proto_type pkg f.type_name ≡ norm_proto_type pkg g.type_name
  pub same_options : Perm f.options g.options

-- Declarations are put into another order, comments come and go, and fields stay the same, at every
-- depth.
mutual
  pub data Alike (pkg : Text) : Element → Element → Type 0 where
    same_element : {e : Element} → Alike pkg e e
    in_message :
        {x : Bool} {n : Text} {es fs : Elements}
        → Reordered pkg es fs
        → Alike pkg (message x n es) (message x n fs)
    in_enum :
        {n : Text} {es fs : Elements}
        → Reordered pkg es fs
        → Alike pkg (enum_decl n es) (enum_decl n fs)
    in_oneof :
        {n : Text} {es fs : Elements}
        → Reordered pkg es fs
        → Alike pkg (oneof_decl n es) (oneof_decl n fs)
    of_normal :
        {l : Label} {f g : Field}
        → IsSameField pkg f g
        → Alike pkg (normal_field l f) (normal_field l g)
    of_map :
        {k : Text} {f g : Field} → IsSameField pkg f g → Alike pkg (map_field k f) (map_field k g)
    of_oneof : {f g : Field} → IsSameField pkg f g → Alike pkg (oneof_field f) (oneof_field g)
    of_reserved :
        {rs qs : List Range} {ns ms : List Text}
        → Perm rs qs
        → Perm ns ms
        → Alike pkg (reserved rs ns) (reserved qs ms)

  pub data Reordered (pkg : Text) : Elements → Elements → Type 0 where
    nothing_left : Reordered pkg finish finish
    keep :
        {e f : Element} {es fs : Elements}
        → Alike pkg e f
        → Reordered pkg es fs
        → Reordered pkg (element e es) (element f fs)
    exchange :
        {e f : Element} {es : Elements}
        → Reordered pkg (element e (element f es)) (element f (element e es))
    drop_comment : {t : Text} {es : Elements} → Reordered pkg (element (comment t) es) es
    add_comment : {t : Text} {es : Elements} → Reordered pkg es (element (comment t) es)
    followed :
        {es fs gs : Elements} → Reordered pkg es fs → Reordered pkg fs gs → Reordered pkg es gs

-- The texts of an element, put among sorted ones.
abbrev put : Option (List Text) → Option (List Text) → Option (List Text)
put none more = none
put (some texts) none = none
put (some texts) (some more) = some (insert_all texts more)

sorted-appended : (r more : Option (List Text)) → sorted (appended r more) ≡ put r (sorted more)
sorted-appended none more = refl
sorted-appended (some texts) none = refl
sorted-appended (some texts) (some more) = ap some (sort_strings-append texts more)

put_comm : (q r more : Option (List Text)) → put q (put r more) ≡ put r (put q more)
put_comm none none more = refl
put_comm none (some ys) none = refl
put_comm none (some ys) (some l) = refl
put_comm (some xs) none more = refl
put_comm (some xs) (some ys) none = refl
put_comm (some xs) (some ys) (some l) = ap some (insert_all_comm xs ys l)

appended_comm :
    (q r more : Option (List Text))
    → sorted (appended q (appended r more)) ≡ sorted (appended r (appended q more))
appended_comm q r more =
    rw
      (
        sorted-appended q (appended r more),
        sorted-appended r (appended q more),
        sorted-appended r more,
        sorted-appended q more,
      )
      (put_comm q r (sorted more))

appended-nil : (more : Option (List Text)) → sorted (appended (some []) more) ≡ sorted more
appended-nil none = refl
appended-nil (some texts) = refl

Bool-set : IsSet Bool
Bool-set = hlevel

is_empty-foldr : {A : Type 0} (xs : List A) → is_empty xs ≡ foldr (λ x (b : Bool). false) true xs
is_empty-foldr [] = refl
is_empty-foldr (x ∷ xs) = refl

is_empty-Perm : {A : Type 0} {xs ys : List A} → Perm xs ys → is_empty xs ≡ is_empty ys
is_empty-Perm {xs = xs} {ys = ys} p =
    is_empty-foldr xs
    ∙ Perm.foldr-eq Bool-set (λ x b. false) (λ a b x. refl) p true
    ∙ sym (is_empty-foldr ys)

render_field_options-Perm :
    {os ps : List OptionDecl} → Perm os ps → render_field_options os ≡ render_field_options ps
unfolding render_field_options
render_field_options-Perm {os} {ps} p =
    rw (is_empty-Perm p, sort_strings-Perm (Perm.map render_option p)) refl

render_reserved-Perm :
    {rs qs : List Range} {ns ms : List Text}
    → Perm rs qs
    → Perm ns ms
    → render_reserved rs ns ≡ render_reserved qs ms
unfolding render_reserved
render_reserved-Perm p q =
    ap (λ ts. codes "reserved:" ++ join ts (codes ","))
      (sort_strings-Perm (Perm.append (Perm.map render_range p) q))

module _ (pkg : Text) where
  mutual
    unfolding render_element render_elements

    render_element-Alike :
        {e f : Element} → Alike pkg e f → render_element pkg e ≡ render_element pkg f
    render_element-Alike same_element = refl
    render_element-Alike (in_message {x} {n} r) =
        ap (block (if x then codes "extend" else codes "message") n) (render_elements-Reordered r)
    render_element-Alike (in_enum {n} r) = ap (block (codes "enum") n) (render_elements-Reordered r)
    render_element-Alike (in_oneof {n} r) =
        ap (block (codes "oneof") n) (render_elements-Reordered r)
    render_element-Alike (of_normal s) =
        rw (s.same_name, s.same_sequence, s.same_type, render_field_options-Perm s.same_options)
          refl
    render_element-Alike (of_map s) =
        rw (s.same_name, s.same_sequence, s.same_type, render_field_options-Perm s.same_options)
          refl
    render_element-Alike (of_oneof s) =
        rw (s.same_name, s.same_sequence, s.same_type, render_field_options-Perm s.same_options)
          refl
    render_element-Alike (of_reserved p q) = rw (render_reserved-Perm p q) refl

    render_elements-Reordered :
        {es fs : Elements}
        → Reordered pkg es fs
        → sorted (render_elements pkg es) ≡ sorted (render_elements pkg fs)
    render_elements-Reordered nothing_left = refl
    render_elements-Reordered (keep {e} {f} {es} {fs} a r) =
        sorted-appended (render_element pkg e) (render_elements pkg es)
        ∙ ap (λ q. put q (sorted (render_elements pkg es))) (render_element-Alike a)
        ∙ ap (put (render_element pkg f)) (render_elements-Reordered r)
        ∙ sym (sorted-appended (render_element pkg f) (render_elements pkg fs))
    render_elements-Reordered (exchange {e} {f} {es}) =
        appended_comm (render_element pkg e) (render_element pkg f) (render_elements pkg es)
    render_elements-Reordered (drop_comment {t} {es}) = appended-nil (render_elements pkg es)
    render_elements-Reordered (add_comment {t} {es}) = sym (appended-nil (render_elements pkg es))
    render_elements-Reordered (followed r s) =
        render_elements-Reordered r ∙ render_elements-Reordered s

-- A file of whose canonical form something is known, and another one like it.
pub canon_proto_elements-Reordered :
    (pkg : Text) {es fs : Elements}
    → Reordered pkg es fs
    → canon_proto_elements pkg es ≡ canon_proto_elements pkg fs
unfolding canon_proto_elements
canon_proto_elements-Reordered pkg r = render_elements-Reordered pkg r

module _ (parse : Text → Option Elements) where
  -- Two bodies that parse, without an element of an unsupported kind, and whose declarations differ
  -- only in their order, in comments, in the order of the options of fields and of reserved parts,
  -- and in how types of fields are qualified by the package, the same for both, are equivalent.
  pub protobuf_bodies_equivalent-Reordered :
      (a b : Text) {es fs : Elements} {parts : List Text}
      → parse a ≡ some es
      → parse b ≡ some fs
      → proto_package_name es ≡ proto_package_name fs
      → Reordered (proto_package_name es) es fs
      → canon_proto_elements (proto_package_name es) es ≡ some parts
      → protobuf_bodies_equivalent parse a b ≡ true
  unfolding protobuf_bodies_equivalent canonicalize_protobuf
  protobuf_bodies_equivalent-Reordered a b {es} {fs} {parts} parsed_a parsed_b same_package r ok =
      let kept : canon_proto_elements (proto_package_name fs) fs ≡ some parts =
        subst (λ n. canon_proto_elements n fs ≡ some parts) same_package
          (sym (canon_proto_elements-Reordered (proto_package_name es) r) ∙ ok) in
      rw (parsed_a, parsed_b, filed es ok, filed fs kept, same_refl (join parts (codes "\n")))
        (either (same a b))
    where
      filed :
          (gs : Elements)
          → canon_proto_elements (proto_package_name gs) gs ≡ some parts
          → canon_file parse (some gs) ≡ some (join parts (codes "\n"))
      filed gs e = rw (canon_file, e) refl

      either : (c : Bool) → (if c then true else true) ≡ true
      either true = refl
      either false = refl
