-- ===== src/Avro/Slack.antt =====
-- What redpanda/models/schema/avro_canonicalize.go does not tell apart.
use terraform_provider_redpa.Base.{
  ◌≡◌, refl, sym, ap, ◌∙◌, Bool, true, false, Option, some, [], ◌∷◌, if◌then◌else◌, Text, same,
  is_empty, same_refl,
}
use terraform_provider_redpa.Avro.{
  Json, string_value, array, object, Items, no_items, item, Members, no_members, member,
  is_non_essential, is_type_key, resolve_type_name, current_namespace, as_reference,
  resolve_type_refs, resolve_members, resolve_items, canon_root, canonicalize_avro_body,
  avro_bodies_equivalent, trim_newlines,
}

-- Members that are not essential come and go, and names of types are written in any way that means
-- the same in their namespace, at every depth.
mutual
  pub data Slack : (ns : Text) → Json → Json → Type 0 where
    same_value : {ns : Text} {v : Json} → Slack ns v v
    in_object :
        {ns : Text} {ms os : Members}
        → current_namespace ns ms ≡ current_namespace ns os
        → SlackMembers (current_namespace ns ms) ms os
        → Slack ns (object ms) (object os)
    in_array : {ns : Text} {xs ys : Items} → SlackItems ns xs ys → Slack ns (array xs) (array ys)

  pub data SlackMembers : (ns : Text) → Members → Members → Type 0 where
    no_more : {ns : Text} → SlackMembers ns no_members no_members
    keep :
        {ns k : Text} {v w : Json} {ms os : Members}
        → Slack ns v w
        → SlackMembers ns ms os
        → SlackMembers ns (member k v ms) (member k w os)
    rename :
        {ns k s t : Text} {ms os : Members}
        → is_type_key k ≡ true
        → resolve_type_name s ns ≡ resolve_type_name t ns
        → SlackMembers ns ms os
        → SlackMembers ns (member k (string_value s) ms) (member k (string_value t) os)
    drop_left :
        {ns k : Text} {v : Json} {ms os : Members}
        → is_non_essential k ≡ true
        → SlackMembers ns ms os
        → SlackMembers ns (member k v ms) os
    drop_right :
        {ns k : Text} {v : Json} {ms os : Members}
        → is_non_essential k ≡ true
        → SlackMembers ns ms os
        → SlackMembers ns ms (member k v os)

  pub data SlackItems : (ns : Text) → Items → Items → Type 0 where
    no_more_items : {ns : Text} → SlackItems ns no_items no_items
    keep_item :
        {ns : Text} {v w : Json} {xs ys : Items}
        → Slack ns v w
        → SlackItems ns xs ys
        → SlackItems ns (item v xs) (item w ys)
    rename_item :
        {ns s t : Text} {xs ys : Items}
        → resolve_type_name s ns ≡ resolve_type_name t ns
        → SlackItems ns xs ys
        → SlackItems ns (item (string_value s) xs) (item (string_value t) ys)

-- One member of the canonical object, from what its name and its value give.
abbrev put : (gone type_key : Bool) → Text → (reference value : Json) → Members → Members
put gone type_key k reference value rest =
    if gone then rest else member k (if type_key then reference else value) rest

put-reference :
    (gone type_key : Bool) (k : Text) {a b : Json} (v w : Json) {ms os : Members}
    → type_key ≡ true
    → a ≡ b
    → ms ≡ os
    → put gone type_key k a v ms ≡ put gone type_key k b w os
put-reference gone true k v w h e r = λ i. put gone true k (e i) v (r i)
put-reference gone false k v w h e r = cc

as_reference-Slack :
    {ns : Text} {v w : Json}
    → Slack ns v w
    → resolve_type_refs ns v ≡ resolve_type_refs ns w
    → as_reference ns v (resolve_type_refs ns v) ≡ as_reference ns w (resolve_type_refs ns w)
as_reference-Slack same_value e = refl
as_reference-Slack (in_object same_ns r) e = e
as_reference-Slack (in_array r) e = e

mutual
  unfolding resolve_type_refs resolve_members resolve_items

  resolve_type_refs-Slack :
      {ns : Text} {v w : Json} → Slack ns v w → resolve_type_refs ns v ≡ resolve_type_refs ns w
  resolve_type_refs-Slack same_value = refl
  resolve_type_refs-Slack (in_object {ns} {ms} {os} same_ns r) =
      ap object (resolve_members-Slack r ∙ ap (λ n. resolve_members n os) same_ns)
  resolve_type_refs-Slack (in_array r) = ap array (resolve_items-Slack r)

  resolve_members-Slack :
      {ns : Text} {ms os : Members}
      → SlackMembers ns ms os
      → resolve_members ns ms ≡ resolve_members ns os
  resolve_members-Slack no_more = refl
  resolve_members-Slack (keep {ns} {k} {v} {w} {ms} {os} s r) =
      let value = resolve_type_refs-Slack s in
      let reference = as_reference-Slack s value in
      let rest = resolve_members-Slack r in
      λ i. put (is_non_essential k) (is_type_key k) k (reference i) (value i) (rest i)
  resolve_members-Slack (rename {ns} {k} {s} {t} type_key e r) =
      put-reference (is_non_essential k) (is_type_key k) k (string_value s) (string_value t)
        type_key (ap string_value e) (resolve_members-Slack r)
  resolve_members-Slack (drop_left gone r) = rw gone (resolve_members-Slack r)
  resolve_members-Slack (drop_right gone r) = rw gone (resolve_members-Slack r)

  resolve_items-Slack :
      {ns : Text} {xs ys : Items} → SlackItems ns xs ys → resolve_items ns xs ≡ resolve_items ns ys
  resolve_items-Slack no_more_items = refl
  resolve_items-Slack (keep_item {ns} s r) =
      rw (as_reference-Slack s (resolve_type_refs-Slack s), resolve_items-Slack r) refl
  resolve_items-Slack (rename_item e r) = rw (e, resolve_items-Slack r) refl

module _ (decode : Text → Option Json) (encode : Json → Option Text) where
  -- Two bodies that are not empty and are decoded, and that differ only in members that are not
  -- essential and in how names of types are written in their namespaces, are equivalent, where the
  -- canonical value of the first can be encoded.
  pub avro_bodies_equivalent-Slack :
      (a b : Text) {v w : Json} {text : Text}
      → is_empty a ≡ false
      → is_empty b ≡ false
      → decode a ≡ some v
      → decode b ≡ some w
      → Slack [] v w
      → encode (resolve_type_refs [] v) ≡ some text
      → avro_bodies_equivalent decode encode a b ≡ true
  unfolding avro_bodies_equivalent canonicalize_avro_body
  avro_bodies_equivalent-Slack [] b one two decoded_a decoded_b s ok = cc
  avro_bodies_equivalent-Slack (c ∷ a) [] one two decoded_a decoded_b s ok = cc
  avro_bodies_equivalent-Slack (c ∷ a) (d ∷ b) {v} {w} {text} one two decoded_a decoded_b s ok =
      let other : encode (resolve_type_refs [] w) ≡ some text =
        ap encode (sym (resolve_type_refs-Slack s)) ∙ ok in
      rw (decoded_a, decoded_b, rooted v ok, rooted w other, same_refl (trim_newlines text))
        (either (same (c ∷ a) (d ∷ b)))
    where
      rooted :
          (u : Json)
          → encode (resolve_type_refs [] u) ≡ some text
          → canon_root decode encode (some u) ≡ some (trim_newlines text)
      rooted u e = rw (canon_root, e) refl

      either : (x : Bool) → (if x then true else true) ≡ true
      either true = refl
      either false = refl
