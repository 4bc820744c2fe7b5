-- ===== src/Schema/Delete.antt =====
-- Schema.Delete of redpanda/resources/schema/resource_schema.go.
use terraform_provider_redpa.Base.{
  ◌≡◌, refl, ◌≢◌, ◌⊎◌, inl, inr, Bool, true, false, not, ◌&&◌, ◌||◌, Option, none, some, [], ◌++◌,
  arith, if◌then◌else◌, Bool-cases, Text, codes,
}
use terraform_provider_redpa.Errors.{
  GoError, is_not_found, is_permission_denied, is_cluster_unreachable,
}
use terraform_provider_redpa.Values.{TfValue, is_null, value_bool, value_string}
use terraform_provider_redpa.Removal.Laws.{errors}
use terraform_provider_redpa.Schema.Model.{SchemaModel}
use terraform_provider_redpa.Schema.Registry.{
  Registry, untouched, removed, SchemaResponse, refusal, connect, no_client,
}

-- The cluster cannot be reached, or may not be used.
abbrev pub is_blocked : GoError → Bool
is_blocked err = is_permission_denied (some err) || is_cluster_unreachable (some err)

abbrev pub is_kept : TfValue Bool → Bool
is_kept allow = not (is_null allow) && not (value_bool allow)

module _ {W : Type 0} (registry : Registry W) (state : SchemaModel) where
  abbrev subject : Text
  subject = value_string state.subject

  abbrev deleted : W → SchemaResponse W
  deleted o = ([], removed, o)

  abbrev client_failed : GoError → W → SchemaResponse W
  client_failed err o =
      if is_blocked err
      then (if is_kept state.allow_deletion
          then refusal (codes "Cannot delete schema - permission denied or cluster unreachable")
              (codes
                  "Unable to delete schema because of permission error or cluster is unreachable. Set allow_deletion=true to force removal from state. Error: "
                ++ err.text)
              o
          else deleted o)
      else no_client registry state err o

  abbrev deletion_failed : GoError → W → SchemaResponse W
  deletion_failed err o =
      if is_not_found (some err)
      then deleted o
      else if is_blocked err
      then (if is_kept state.allow_deletion
          then refusal (codes "Cannot delete schema - cluster unreachable or permission denied")
              (codes "Unable to delete schema subject "
                ++ (subject
                    ++ (codes ". Set allow_deletion=true to force removal from state. Error: "
                        ++ err.text)))
              o
          else deleted o)
      else refusal (codes "Failed to delete schema")
          (codes "Unable to delete schema subject " ++ (subject ++ (codes ": " ++ err.text))) o

  abbrev requested : W × Option GoError → SchemaResponse W
  requested (o, none) = deleted o
  requested (o, some err) = deletion_failed err o

  abbrev deletion_connected : W × Option GoError → SchemaResponse W
  deletion_connected (o, some err) = client_failed err o
  deletion_connected (o, none) = requested (registry.delete_subject subject o)

  unfoldable pub delete_schema_resource : W → SchemaResponse W
  delete_schema_resource o = deletion_connected (connect registry state o)

  -- The registry's answer lets the resource go.
  abbrev pub IsDeleted : W × Option GoError → Type 0
  IsDeleted (s, none) = Unit
  IsDeleted (s, some err) =
      (is_not_found (some err) ≡ true)
      ⊎ ((is_blocked err ≡ true) × (is_kept state.allow_deletion ≡ false))

  -- Why the resource is removed.
  abbrev pub RemovalExplained : W × Option GoError → Type 0
  RemovalExplained (o, some err) = (is_blocked err ≡ true) × (is_kept state.allow_deletion ≡ false)
  RemovalExplained (o, none) = IsDeleted (registry.delete_subject subject o)

  abbrev Decides : Type 0 → SchemaResponse W → Type 0
  Decides P r = ((r.1 ≡ removed) × (r.0 ≡ []) × P) ⊎ ((r.1 ≡ untouched) × (errors r.0 ≢ 0) × ¬ P)

  -- What Delete does, by what there is of a client.
  abbrev pub IsDecided : W × Option GoError → SchemaResponse W → Type 0
  IsDecided client r =
      ((r.1 ≡ removed) × (r.0 ≡ []) × RemovalExplained client)
      ⊎ ((r.1 ≡ untouched) × (errors r.0 ≢ 0) × ¬ RemovalExplained client)

  -- Delete removes the resource, without a diagnostic, exactly if there is no client because of a
  -- refused permission or an unreachable cluster, and allow_deletion is null or true; or the registry
  -- deletes the subject, whatever allow_deletion is; or its error reads as not found; or it reads as a
  -- refused permission or an unreachable cluster, and allow_deletion is null or true. Otherwise it
  -- leaves the resource alone and reports an error.
  pub delete_schema_resource-IsDecided :
      (o : W) → IsDecided (connect registry state o) (delete_schema_resource o)
  unfolding delete_schema_resource
  delete_schema_resource-IsDecided o = connected (connect registry state o)
    where
      answered : (q : W × Option GoError) → Decides (IsDeleted q) (requested q)
      answered (s, none) = inl (refl, refl, tt)
      answered (s, some err) = elim (Bool-cases (is_not_found (some err))) [
        | inl gone ↦ rw gone (inl (refl, refl, inl refl))
        | inr there ↦ elim (Bool-cases (is_blocked err)) [
          | inl blocked ↦ elim (Bool-cases (is_kept state.allow_deletion)) [
            | inl kept ↦ rw (there, blocked, kept) (inr (refl, (λ h. cc), λ h. ground arith))
            | inr free ↦ rw (there, blocked, free) (inl (refl, refl, inr (refl, refl)))
          ]
          | inr other ↦ rw (there, other) (inr (refl, (λ h. cc), λ h. ground arith))
        ]
      ]

      connected : (r : W × Option GoError) → Decides (RemovalExplained r) (deletion_connected r)
      connected (s, none) = answered (registry.delete_subject subject s)
      connected (s, some err) = elim (Bool-cases (is_blocked err)) [
        | inl blocked ↦ elim (Bool-cases (is_kept state.allow_deletion)) [
          | inl kept ↦ rw (blocked, kept) (inr (refl, (λ h. cc), λ h. ground arith))
          | inr free ↦ rw (blocked, free) (inl (refl, refl, (refl, refl)))
        ]
        | inr other ↦ rw other (inr (refl, (λ h. cc), λ h. ground arith))
      ]
