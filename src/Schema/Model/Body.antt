-- ===== src/Schema/Model/Body.antt =====
-- UpdateFromSchema of redpanda/models/schema/resource_model.go: which body the state gets.
use terraform_provider_redpa.Base.{
  ◌≡◌, refl, sym, ap, ◌∙◌, ◌⊎◌, inl, inr, true, false, ◌||◌, Option, none, some, List, [], arith,
  if◌then◌else◌, Bool-cases, Text, codes, same, is_empty, same_sound,
}
use terraform_provider_redpa.Values.{
  TfValue, null, unknown, known, value_string, is_null, is_unknown,
}
use terraform_provider_redpa.Protobuf.{proto_package_name, canon_proto_elements}
use terraform_provider_redpa.Protobuf.Syntax.{Elements}
use terraform_provider_redpa.Protobuf.Reordering.{Reordered, protobuf_bodies_equivalent-Reordered}
use terraform_provider_redpa.Schema.Model.{
  SchemaModel, SubjectSchema, Bodies, is_of_type, same_protobuf, same_avro, preserved_json,
  preserved_body, preserve_user_schema_body, or_registry, update_from_schema,
}

module _ (bodies : Bodies) where
  -- Why a body counts as the registry's.
  abbrev pub MeansSame : SchemaModel → (current registry : Text) → Type 0
  MeansSame r current registry =
      ((is_of_type bodies (codes "PROTOBUF") r.schema_type ≡ true)
        × (same_protobuf bodies current registry ≡ true))
      ⊎ ((form : Text) × (bodies.json_form current ≡ some form)
          × (bodies.json_form registry ≡ some form))
      ⊎ ((is_of_type bodies (codes "AVRO") r.schema_type ≡ true)
          × (same_avro bodies current registry ≡ true))

  -- The body of the state: the user's if it means the same, or else the registry's.
  abbrev pub BodyExplained : SchemaModel → (registry : Text) → TfValue Text → Type 0
  BodyExplained r registry body =
      ((current : Text) × (r.schema ≡ known current)
        × (body ≡ known current)
        × MeansSame r current registry)
      ⊎ (body ≡ known registry)

  preserved_json-MeansSame :
      (r : SchemaModel) (current registry : Text) (p q : Option Text)
      → bodies.json_form current ≡ p
      → bodies.json_form registry ≡ q
      → (preserved_json bodies r current registry p q ≡ [])
        ⊎ ((preserved_json bodies r current registry p q ≡ current) × MeansSame r current registry)
  preserved_json-MeansSame r current registry none q e f = inl refl
  preserved_json-MeansSame r current registry (some p) none e f = inl refl
  preserved_json-MeansSame r current registry (some p) (some q) e f = elim (Bool-cases (same p q)) [
    | inl one ↦ rw one (inr (refl, inr (inl (p, e, f ∙ ap some (sym (same_sound p q one))))))
    | inr two ↦ elim (Bool-cases (is_of_type bodies (codes "AVRO") r.schema_type)) [
      | inr other ↦ inl (ground (arith, two, other))
      | inl avro ↦ elim (Bool-cases (same_avro bodies current registry)) [
        | inl one ↦ inr (ground (arith, two, avro, one), inr (inr (avro, one)))
        | inr other ↦ inl (ground (arith, two, avro, other))
      ]
    ]
  ]

  preserved_body-MeansSame :
      (r : SchemaModel) (current registry : Text)
      → (preserved_body bodies r current registry ≡ [])
        ⊎ ((preserved_body bodies r current registry ≡ current) × MeansSame r current registry)
  preserved_body-MeansSame r current registry =
      elim (Bool-cases (is_of_type bodies (codes "PROTOBUF") r.schema_type)) [
        | inr other ↦
            let plain : preserved_body bodies r current registry
                ≡ preserved_json bodies r current registry (bodies.json_form current)
                    (bodies.json_form registry) =
              ground (arith, other) in
            elim (preserved_json-MeansSame r current registry (bodies.json_form current)
              (bodies.json_form registry) refl refl) [
                | inl e ↦ inl (plain ∙ e)
                | inr (e, h) ↦ inr (plain ∙ e, h)
              ]
        | inl proto ↦ elim (Bool-cases (same_protobuf bodies current registry)) [
          | inl one ↦ inr (ground (arith, proto, one), inl (proto, one))
          | inr two ↦ inl (ground (arith, proto, two))
        ]
      ]

  by_schema :
      (r : SchemaModel) (registry : Text) (s : TfValue Text)
      → r.schema ≡ s
      → preserve_user_schema_body bodies r registry ≡ (
          if is_null s || is_unknown s
          then []
          else preserved_body bodies r (value_string s) registry)
  unfolding preserve_user_schema_body
  by_schema r registry s e =
      ap
        (λ q.
          if is_null q || is_unknown q
          then []
          else preserved_body bodies r (value_string q) registry)
        e

  -- After an answer of the registry the state holds the registry's body, or the one that it held; and
  -- then the type is PROTOBUF and the two are equivalent protobuf bodies, or they have one JSON form,
  -- or the type is AVRO and the two are equivalent Avro bodies.
  pub update_from_schema-BodyExplained :
      (r : SchemaModel) (answer : SubjectSchema)
      → BodyExplained r answer.content.schema (update_from_schema bodies answer r).schema
  unfolding update_from_schema
  update_from_schema-BodyExplained r answer = explained r.schema refl
    where
      registry : Text
      registry = answer.content.schema

      explained :
          (s : TfValue Text)
          → r.schema ≡ s
          → BodyExplained r answer.content.schema (update_from_schema bodies answer r).schema
      explained null e =
          inr (ap (λ q. known (or_registry bodies q registry)) (by_schema r registry null e))
      explained unknown e =
          inr (ap (λ q. known (or_registry bodies q registry)) (by_schema r registry unknown e))
      explained (known current) e = elim (preserved_body-MeansSame r current registry) [
        | inl lost ↦ inr (
            ap (λ q. known (or_registry bodies q registry))
              (by_schema r registry (known current) e ∙ lost))
        | inr (kept, h) ↦
            let body =
              ap (λ q. known (or_registry bodies q registry))
                (by_schema r registry (known current) e ∙ kept) in
            elim (Bool-cases (is_empty current)) [
              | inl hollow ↦ inr (body ∙ (rw hollow refl))
              | inr filled ↦ inl (current, e, body ∙ (rw filled refl), h)
            ]
      ]

module _ (bodies : Bodies) (r : SchemaModel) (answer : SubjectSchema) where
  -- A protobuf body that the user wrote stays in the state, where it is not empty and the registry
  -- answers one that differs only in the order of declarations, options and reserved parts, in
  -- comments and in how types of fields are qualified by the package, and both parse without an
  -- element of an unsupported kind.
  pub update_from_schema-Reordered :
      (current : Text) {es fs : Elements} {parts : List Text}
      → r.schema ≡ known current
      → is_empty current ≡ false
      → is_of_type bodies (codes "PROTOBUF") r.schema_type ≡ true
      → bodies.parse_protobuf current ≡ some es
      → bodies.parse_protobuf answer.content.schema ≡ some fs
      → proto_package_name es ≡ proto_package_name fs
      → Reordered (proto_package_name es) es fs
      → canon_proto_elements (proto_package_name es) es ≡ some parts
      → (update_from_schema bodies answer r).schema ≡ known current
  unfolding update_from_schema
  update_from_schema-Reordered current written filled proto parsed parsed_answer same_package order
        ok =
      let equivalent =
        protobuf_bodies_equivalent-Reordered bodies.parse_protobuf current answer.content.schema
          parsed parsed_answer same_package order ok in
      let kept : preserved_body bodies r current answer.content.schema ≡ current =
        ground (arith, proto, equivalent) in
      let body =
        ap (λ q. known (or_registry bodies q answer.content.schema))
          (by_schema bodies r answer.content.schema (known current) written ∙ kept) in
      body ∙ (rw filled refl)
