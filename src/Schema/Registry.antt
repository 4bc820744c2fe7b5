-- ===== src/Schema/Registry.antt =====
-- What the handlers of redpanda/resources/schema/resource_schema.go share: the registry's client, the
-- response, fetchSchema, setSubjectCompatibility and getCompatibility.
use terraform_provider_redpa.Base.{
  ◌≡◌, refl, ◌≢◌, ◌⊎◌, inl, inr, ◌||◌, Option, none, some, List, [], ◌∷◌, ◌++◌, if◌then◌else◌, Text,
  codes, is_empty, ℤ,
}
use terraform_provider_redpa.Errors.{GoError, plain_error, Reply, reply, refused}
use terraform_provider_redpa.Values.{known, is_null, is_unknown, value_string}
use terraform_provider_redpa.Lookup.{quote}
use terraform_provider_redpa.Removal.{Diagnostic, error_diag}
use terraform_provider_redpa.Removal.Laws.{errors}
use terraform_provider_redpa.Schema.Model.{
  Bodies, SchemaModel, SchemaRequest, SubjectSchema, to_upper, value_int, get_effective_password,
}

-- The outside of the handlers: `get_client` is getClient, with the cluster, the username and the
-- password; `level_error` is what UnmarshalText says of a level; `wrap` is `fmt.Errorf` with %w.
pub record Registry (W : Type 0) : Type 0 where
  pub bodies : Bodies
  pub wrap : Text → GoError → GoError
  pub level_error : Text → Option GoError
  pub get_client : (cluster_id username password : Text) → W → W × Option GoError
  pub create_schema : (subject : Text) → SchemaRequest → W → Reply SubjectSchema × W
  pub schema_by_version : (subject : Text) → ℤ → W → Reply SubjectSchema × W
  pub schemas : (subject : Text) → W → Reply (List SubjectSchema) × W
  pub delete_subject : (subject : Text) → W → W × Option GoError
  pub set_compatibility : (level subject : Text) → W → List (Option GoError) × W
  pub compatibility : (subject : Text) → W → List (Reply Text) × W

-- What becomes of the resource in the state.
pub data SchemaKept : Type 0 where
  untouched removed : SchemaKept
  stored : SchemaModel → SchemaKept

-- The diagnostics, the state and the outside after a handler.
abbrev pub SchemaResponse : Type 0 → Type 0
SchemaResponse W = List Diagnostic × SchemaKept × W

abbrev pub refusal : {W : Type 0} → (summary detail : Text) → W → SchemaResponse W
refusal summary detail o = (error_diag summary detail ∷ [], untouched, o)

module _ {W : Type 0} (registry : Registry W) where
  abbrev pub connect : SchemaModel → W → W × Option GoError
  connect m o =
      registry.get_client (value_string m.cluster_id) (value_string m.username)
        (get_effective_password m.password m.password_wo) o

  abbrev pub no_client : SchemaModel → GoError → W → SchemaResponse W
  no_client m err o =
      refusal (codes "Failed to create Schema Registry client")
        (codes "Unable to create client for cluster "
          ++ (value_string m.cluster_id ++ (codes ": " ++ err.text)))
        o

  abbrev pub last_of : Text → List SubjectSchema → Reply SubjectSchema
  last_of subject [] = refused (plain_error (codes "no schemas found for subject " ++ subject))
  last_of subject (s ∷ []) = reply s
  last_of subject (s ∷ t ∷ ss) = last_of subject (t ∷ ss)

  abbrev pub last_reply : Text → Reply (List SubjectSchema) × W → Reply SubjectSchema × W
  last_reply subject (refused err, o) = (refused err, o)
  last_reply subject (reply ss, o) = (last_of subject ss, o)

  -- The schema of a version, or the last one.
  unfoldable pub fetch_schema : (subject : Text) → Option ℤ → W → Reply SubjectSchema × W
  fetch_schema subject (some version) o = registry.schema_by_version subject version o
  fetch_schema subject none o = last_reply subject (registry.schemas subject o)

  abbrev pub get_version : SchemaModel → Option ℤ
  get_version m =
      if is_null m.version || is_unknown m.version then none else some (value_int m.version)

  abbrev pub first_error : List (Option GoError) → Option GoError
  first_error [] = none
  first_error (some err ∷ rs) = some err
  first_error (none ∷ rs) = first_error rs

  abbrev pub sent_level : List (Option GoError) × W → W × Option GoError
  sent_level (results, o) = (o, first_error results)

  unfoldable pub set_subject_compatibility : (subject compatibility : Text) → W → W × Option GoError
  set_subject_compatibility subject compatibility o =
      if is_empty compatibility
      then (o, none)
      else elim (registry.level_error (to_upper compatibility)) [
        | some err ↦ (
          o,
          some (
              registry.wrap
                (codes "invalid compatibility level " ++ (quote compatibility ++ codes ": ")) err),
        )
        | none ↦ sent_level (registry.set_compatibility (to_upper compatibility) subject o)
      ]

  abbrev pub first_level : Text → List (Reply Text) → Reply Text
  first_level subject [] =
      refused (plain_error (codes "no compatibility results returned for subject " ++ subject))
  first_level subject (reply level ∷ rs) = reply level
  first_level subject (refused err ∷ rs) = refused (
      registry.wrap (codes "failed to get compatibility for subject " ++ (subject ++ codes ": "))
        err)

  abbrev pub got_level : Text → List (Reply Text) × W → Reply Text × W
  got_level subject (results, o) = (first_level subject results, o)

  unfoldable pub get_compatibility : (subject : Text) → W → Reply Text × W
  get_compatibility subject o = got_level subject (registry.compatibility subject o)

  abbrev pub no_level : (subject : Text) → GoError → W → SchemaResponse W
  no_level subject err o =
      refusal (codes "Failed to get compatibility level")
        (codes "Unable to get compatibility level for subject "
          ++ (subject ++ (codes ": " ++ err.text)))
        o

  -- The end of the handlers: the state with the level that the registry answers.
  abbrev pub with_level : SchemaModel → Text → SchemaModel
  with_level m level = record m { compatibility = known level }

  abbrev pub leveled : (subject : Text) → SchemaModel → Reply Text × W → SchemaResponse W
  leveled subject m (refused err, o) = no_level subject err o
  leveled subject m (reply level, o) = ([], stored (with_level m level), o)

  unfoldable pub store_with_level : (subject : Text) → SchemaModel → W → SchemaResponse W
  store_with_level subject m o = leveled subject m (get_compatibility subject o)

  -- What holds of a stored state whose level was asked for in `o`, with `s` the state after it.
  abbrev pub IsLeveled : (subject : Text) → SchemaModel → SchemaModel → W → W → Type 0
  IsLeveled subject m n o s =
      (level : Text) × (get_compatibility subject o ≡ (reply level, s)) × (n ≡ with_level m level)

  -- An error and an untouched state, or a stored one with its level.
  abbrev pub IsStored : (subject : Text) → SchemaModel → W → SchemaResponse W → Type 0
  IsStored subject m o r =
      ((errors r.0 ≢ 0) × (r.1 ≡ untouched))
      ⊎ ((r.0 ≡ []) × (n : SchemaModel) × (r.1 ≡ stored n) × IsLeveled subject m n o r.2)

  pub store_with_level-cases :
      (subject : Text) (m : SchemaModel) (o : W)
      → IsStored subject m o (store_with_level subject m o)
  unfolding store_with_level
  store_with_level-cases subject m o = answered (get_compatibility subject o) refl
    where
      answered :
          (r : Reply Text × W)
          → get_compatibility subject o ≡ r
          → IsStored subject m o (leveled subject m r)
      answered (refused err, s) e = inl ((λ h. cc), refl)
      answered (reply level, s) e = inr (refl, with_level m level, refl, (level, e, refl))
