-- ===== src/Schema/Update.antt =====
-- Schema.Update of redpanda/resources/schema/resource_schema.go.
use terraform_provider_redpa.Base.{
  ◌≡◌, refl, ◌≢◌, ◌⊎◌, inl, inr, Bool, true, false, not, ◌&&◌, Option, none, some, List, [], ◌∷◌,
  ◌++◌, ◌==◌, if◌then◌else◌, Text, codes, same, ℤ, pos, negsuc,
}
use terraform_provider_redpa.Errors.{GoError, Reply, reply, refused}
use terraform_provider_redpa.Values.{is_null, is_unknown, value_string}
use terraform_provider_redpa.Removal.Laws.{errors}
use terraform_provider_redpa.Schema.Model.{
  SchemaKind, avro, json, protobuf, SchemaReference, SchemaModel, SubjectSchema, to_schema_request,
  update_from_schema, value_int, is_of_type, same_protobuf, same_avro,
}
use terraform_provider_redpa.Schema.Registry.{
  Registry, untouched, stored, SchemaResponse, refusal, connect, no_client,
  set_subject_compatibility, store_with_level, store_with_level-cases, IsLeveled,
}

abbrev same_kind : SchemaKind → SchemaKind → Bool
same_kind avro avro = true
same_kind json json = true
same_kind protobuf protobuf = true
same_kind avro json = false
same_kind avro protobuf = false
same_kind json avro = false
same_kind json protobuf = false
same_kind protobuf avro = false
same_kind protobuf json = false

abbrev pub same_int : ℤ → ℤ → Bool
same_int (pos m) (pos n) = m == n
same_int (negsuc m) (negsuc n) = m == n
same_int (pos m) (negsuc n) = false
same_int (negsuc m) (pos n) = false

abbrev same_reference : SchemaReference → SchemaReference → Bool
same_reference r q = same r.name q.name && same r.subject q.subject && same_int r.version q.version

-- As many references, and each the same as the other's.
unfoldable pub same_references : List SchemaReference → List SchemaReference → Bool
same_references [] [] = true
same_references [] (q ∷ qs) = false
same_references (r ∷ rs) [] = false
same_references (r ∷ rs) (q ∷ qs) = same_reference r q && same_references rs qs

module _ {W : Type 0} (registry : Registry W) (plan state : SchemaModel) where
  abbrev subject : Text
  subject = value_string plan.subject

  unfoldable pub bodies_equal : Bool
  bodies_equal =
      let a = value_string plan.schema in
      let b = value_string state.schema in
      if same a b
      then true
      else if is_of_type registry.bodies (codes "AVRO") plan.schema_type
      then same_avro registry.bodies a b
      else if is_of_type registry.bodies (codes "PROTOBUF") plan.schema_type
      then same_protobuf registry.bodies a b
      else false

  unfoldable pub is_unchanged : Bool
  unfolding bodies_equal
  is_unchanged =
      bodies_equal
      && same_kind (to_schema_request plan).kind (to_schema_request state).kind
      && same_references (to_schema_request plan).references (to_schema_request state).references

  abbrev level_changes : SchemaModel → Bool
  level_changes m =
      not (same (value_string m.compatibility) (value_string state.compatibility))
      && not (is_null m.compatibility)
      && not (is_unknown m.compatibility)

  abbrev level_sent : SchemaModel → W × Option GoError → SchemaResponse W
  level_sent m (o, some err) =
      refusal (codes "Failed to update compatibility level")
        (codes "Unable to update compatibility level for subject "
          ++ (subject ++ (codes ": " ++ err.text)))
        o
  level_sent m (o, none) = store_with_level registry subject m o

  -- The end of both branches: the level is sent if it changed, and read again.
  abbrev releveled : SchemaModel → W → SchemaResponse W
  releveled m o =
      if level_changes m
      then level_sent m
          (set_subject_compatibility registry subject (value_string m.compatibility) o)
      else store_with_level registry subject m o

  -- The state's schema under the plan's request.
  abbrev pub carried_over : SubjectSchema
  carried_over = record {
    id = value_int state.id;
    version = value_int state.version;
    content = to_schema_request plan;
  }

  abbrev pub updated : SubjectSchema → SchemaModel
  updated answer = update_from_schema registry.bodies answer plan

  abbrev version_made : Reply SubjectSchema × W → SchemaResponse W
  version_made (refused err, o) =
      refusal (codes "Failed to update schema")
        (codes "Unable to create new version of schema for subject "
          ++ (subject ++ (codes ": " ++ err.text)))
        o
  version_made (reply answer, o) = releveled (updated answer) o

  abbrev update_connected : W × Option GoError → SchemaResponse W
  update_connected (o, some err) = no_client registry plan err o
  update_connected (o, none) =
      if is_unchanged
      then releveled (updated carried_over) o
      else version_made (registry.create_schema subject (to_schema_request plan) o)

  -- Update, of a plan that has the password of the configuration.
  unfoldable pub update_schema_resource : W → SchemaResponse W
  update_schema_resource o = update_connected (connect registry plan o)

  -- What the stored state comes from, between `o` and `u`: the state's own numbers exactly if nothing
  -- changed, and a new version of the plan's request otherwise.
  abbrev pub IsCurrent : W → SubjectSchema → W → Type 0
  IsCurrent o answer u =
      ((is_unchanged ≡ true) × (answer ≡ carried_over) × (o ≡ u))
      ⊎ ((is_unchanged ≡ false)
          × (registry.create_schema subject (to_schema_request plan) o ≡ (reply answer, u)))

  -- Between `o` and `u` the level was sent, exactly if it changed.
  abbrev pub IsLevelSent : W → SchemaModel → W → Type 0
  IsLevelSent o m u =
      ((level_changes m ≡ false) × (o ≡ u))
      ⊎ ((level_changes m ≡ true)
          × (set_subject_compatibility registry subject (value_string m.compatibility) o
              ≡ (u, none)))

  -- The client was made in `o`; then the version, then the level, and then the level was asked for.
  abbrev pub IsUpdated : W → SchemaModel → W → Type 0
  IsUpdated o m s =
      (o₁ : W) × (answer : SubjectSchema) × (o₂ : W) × (o₃ : W) × (connect registry plan o
        ≡ (o₁, none))
      × IsCurrent o₁ answer o₂
      × IsLevelSent o₂ (updated answer) o₃
      × IsLeveled registry subject (updated answer) m o₃ s

  -- How Update ends that began in `o`.
  abbrev pub SchemaUpdateExplained : W → SchemaResponse W → Type 0
  SchemaUpdateExplained o (ds, kept, s) =
      ((errors ds ≢ 0) × (kept ≡ untouched))
      ⊎ ((ds ≡ []) × (m : SchemaModel) × (kept ≡ stored m) × IsUpdated o m s)

  module _ (o o₁ : W) (made : connect registry plan o ≡ (o₁, none)) where
    module _ (answer : SubjectSchema) (o₂ : W) (current : IsCurrent o₁ answer o₂) where
      stored-Explained :
          (o₃ : W)
          → IsLevelSent o₂ (updated answer) o₃
          → SchemaUpdateExplained o (store_with_level registry subject (updated answer) o₃)
      stored-Explained o₃ sent =
          elim (store_with_level-cases registry subject (updated answer) o₃) [
            | inl (some_error, kept) ↦ inl (some_error, kept)
            | inr (no_error, m, kept, leveled) ↦
                inr (no_error, m, kept, (o₁, answer, o₂, o₃, made, current, sent, leveled))
          ]

      level_sent-Explained :
          (q : W × Option GoError)
          → level_changes (updated answer) ≡ true
          → set_subject_compatibility registry subject
              (value_string (updated answer).compatibility)
              o₂
            ≡ q
          → SchemaUpdateExplained o (level_sent (updated answer) q)
      level_sent-Explained (s, some err) changes e = inl ((λ d. cc), refl)
      level_sent-Explained (s, none) changes e = stored-Explained s (inr (changes, e))

      releveled-Explained : SchemaUpdateExplained o (releveled (updated answer) o₂)
      releveled-Explained = branch (level_changes (updated answer)) refl
        where
          branch :
              (b : Bool)
              → level_changes (updated answer) ≡ b
              → SchemaUpdateExplained o (
                  if b
                  then level_sent (updated answer) (
                      set_subject_compatibility registry subject
                        (value_string (updated answer).compatibility)
                        o₂)
                  else store_with_level registry subject (updated answer) o₂)
          branch true e = level_sent-Explained _ e refl
          branch false e = stored-Explained o₂ (inl (e, refl))

    version_made-Explained :
        (q : Reply SubjectSchema × W)
        → is_unchanged ≡ false
        → registry.create_schema subject (to_schema_request plan) o₁ ≡ q
        → SchemaUpdateExplained o (version_made q)
    version_made-Explained (refused err, s) changed e = inl ((λ d. cc), refl)
    version_made-Explained (reply answer, s) changed e =
        releveled-Explained answer s (inr (changed, e))

    changed-Explained :
        (b : Bool)
        → is_unchanged ≡ b
        → SchemaUpdateExplained o (
            if b
            then releveled (updated carried_over) o₁
            else version_made (registry.create_schema subject (to_schema_request plan) o₁))
    changed-Explained true e = releveled-Explained carried_over o₁ (inl (e, refl, refl))
    changed-Explained false e =
        version_made-Explained (registry.create_schema subject (to_schema_request plan) o₁) e refl

  -- Update reports an error and leaves the state alone; or it reports nothing, and stores the plan,
  -- updated from the state's own number and version if the body is equivalent to that of the state
  -- and the type and the references are the same, and from a new version that the registry made of
  -- the plan's request if not; after that the plan's level was sent, exactly if it is given and is
  -- not that of the state, and the level stored is that which the registry answered after that.
  pub update_schema_resource-Explained :
      (o : W) → SchemaUpdateExplained o (update_schema_resource o)
  unfolding update_schema_resource
  update_schema_resource-Explained o = connected (connect registry plan o) refl
    where
      connected :
          (r : W × Option GoError)
          → connect registry plan o ≡ r
          → SchemaUpdateExplained o (update_connected r)
      connected (s, some err) made = inl ((λ d. cc), refl)
      connected (s, none) made = changed-Explained o s made is_unchanged refl
