-- ===== src/Schema/Create.antt =====
-- Schema.Create of redpanda/resources/schema/resource_schema.go.
use terraform_provider_redpa.Base.{
  ◌≡◌, refl, ◌≢◌, ◌⊎◌, inl, inr, Option, none, some, [], ◌++◌, Text, codes,
}
use terraform_provider_redpa.Errors.{GoError, Reply, reply, refused}
use terraform_provider_redpa.Values.{TfValue, null, unknown, known, value_string}
use terraform_provider_redpa.Removal.Laws.{errors}
use terraform_provider_redpa.Schema.Model.{SchemaModel, SubjectSchema, to_schema_request}
use terraform_provider_redpa.Schema.Registry.{
  Registry, untouched, stored, SchemaResponse, refusal, connect, no_client,
  set_subject_compatibility, store_with_level, store_with_level-cases, IsLeveled,
}

-- The plan, with the write-only password of the configuration.
abbrev pub with_password_wo : SchemaModel → TfValue Text → SchemaModel
with_password_wo plan p = record plan { password_wo = p }

module _ {W : Type 0} (registry : Registry W) (plan : SchemaModel) where
  abbrev pub subject : Text
  subject = value_string plan.subject

  abbrev pub numbered : SubjectSchema → SchemaModel
  numbered answer = record plan { id = known answer.id; version = known answer.version }

  abbrev level_sent : SchemaModel → W × Option GoError → SchemaResponse W
  level_sent m (o, some err) =
      refusal (codes "Failed to set compatibility level")
        (codes "Unable to set compatibility level for subject "
          ++ (subject ++ (codes ": " ++ err.text)))
        o
  level_sent m (o, none) = ([], stored m, o)

  -- A level that the plan gives is set, and any other is asked for.
  abbrev registered : TfValue Text → SchemaModel → W → SchemaResponse W
  registered (known level) m o = level_sent m (set_subject_compatibility registry subject level o)
  registered null m o = store_with_level registry subject m o
  registered unknown m o = store_with_level registry subject m o

  abbrev schema_created : Reply SubjectSchema × W → SchemaResponse W
  schema_created (refused err, o) =
      refusal (codes "Failed to create schema")
        (codes "Unable to create schema for subject " ++ (subject ++ (codes ": " ++ err.text))) o
  schema_created (reply answer, o) = registered plan.compatibility (numbered answer) o

  abbrev creation_connected : W × Option GoError → SchemaResponse W
  creation_connected (o, some err) = no_client registry plan err o
  creation_connected (o, none) =
      schema_created (registry.create_schema subject (to_schema_request plan) o)

  -- Create, of a plan that has the password of the configuration.
  unfoldable pub create_schema_resource : W → SchemaResponse W
  create_schema_resource o = creation_connected (connect registry plan o)

  -- The client was made in `o`, the registry then answered the plan's request, and then the plan's
  -- level was set, or else the registry answered one, in the state `s`.
  abbrev pub IsRegistered : W → SchemaModel → W → Type 0
  IsRegistered o m s =
      (o₁ : W) × (answer : SubjectSchema) × (o₂ : W) × (connect registry plan o ≡ (o₁, none))
      × (registry.create_schema subject (to_schema_request plan) o₁ ≡ (reply answer, o₂))
      × (((level : Text) × (plan.compatibility ≡ known level)
            × (set_subject_compatibility registry subject level o₂ ≡ (s, none))
            × (m ≡ numbered answer))
          ⊎ (((plan.compatibility ≡ null) ⊎ (plan.compatibility ≡ unknown))
              × IsLeveled registry subject (numbered answer) m o₂ s))

  -- How Create ends that began in `o`.
  abbrev pub SchemaCreationExplained : W → SchemaResponse W → Type 0
  SchemaCreationExplained o (ds, kept, s) =
      ((errors ds ≢ 0) × (kept ≡ untouched))
      ⊎ ((ds ≡ []) × (m : SchemaModel) × (kept ≡ stored m) × IsRegistered o m s)

  module _ (o o₁ o₂ : W) (answer : SubjectSchema) (made : connect registry plan o ≡ (o₁, none))
      (got : registry.create_schema subject (to_schema_request plan) o₁ ≡ (reply answer, o₂)) where
    level_sent-Explained :
        (level : Text) (q : W × Option GoError)
        → plan.compatibility ≡ known level
        → set_subject_compatibility registry subject level o₂ ≡ q
        → SchemaCreationExplained o (level_sent (numbered answer) q)
    level_sent-Explained level (s, some err) e h = inl ((λ d. cc), refl)
    level_sent-Explained level (s, none) e h =
        inr (refl, numbered answer, refl, (o₁, answer, o₂, made, got, inl (level, e, h, refl)))

    asked-Explained :
        (plan.compatibility ≡ null) ⊎ (plan.compatibility ≡ unknown)
        → SchemaCreationExplained o (store_with_level registry subject (numbered answer) o₂)
    asked-Explained e = elim (store_with_level-cases registry subject (numbered answer) o₂) [
      | inl (some_error, kept) ↦ inl (some_error, kept)
      | inr (no_error, m, kept, leveled) ↦
          inr (no_error, m, kept, (o₁, answer, o₂, made, got, inr (e, leveled)))
    ]

    registered-Explained :
        (c : TfValue Text)
        → plan.compatibility ≡ c
        → SchemaCreationExplained o (registered c (numbered answer) o₂)
    registered-Explained (known level) e = level_sent-Explained level _ e refl
    registered-Explained null e = asked-Explained (inl e)
    registered-Explained unknown e = asked-Explained (inr e)

  -- Create reports an error and stores nothing; or it reports nothing and stores a state, that of a
  -- schema that the registry answered to the plan's request, with the plan's level if it gives one,
  -- and that was set after the answer, or else with the level that the registry answered then.
  pub create_schema_resource-Explained :
      (o : W) → SchemaCreationExplained o (create_schema_resource o)
  unfolding create_schema_resource
  create_schema_resource-Explained o = connected (connect registry plan o) refl
    where
      created :
          (o₁ : W) (q : Reply SubjectSchema × W)
          → connect registry plan o ≡ (o₁, none)
          → registry.create_schema subject (to_schema_request plan) o₁ ≡ q
          → SchemaCreationExplained o (schema_created q)
      created o₁ (refused err, s) made e = inl ((λ d. cc), refl)
      created o₁ (reply answer, o₂) made e =
          registered-Explained o o₁ o₂ answer made e plan.compatibility refl

      connected :
          (r : W × Option GoError)
          → connect registry plan o ≡ r
          → SchemaCreationExplained o (creation_connected r)
      connected (s, some err) made = inl ((λ d. cc), refl)
      connected (s, none) made =
          created s (registry.create_schema subject (to_schema_request plan) s) made refl
