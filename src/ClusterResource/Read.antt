-- ===== src/ClusterResource/Read.antt =====
-- Cluster.Read of redpanda/resources/cluster/resource_cluster.go: what a refresh makes of the
-- control plane's answer.
use terraform_provider_redpa.Base.{
  ◌≡◌, refl, ◌≢◌, ◌⊎◌, inl, inr, true, false, some, List, [], ◌∷◌, ◌++◌, if◌then◌else◌, Bool-cases,
  Text, codes,
}
use terraform_provider_redpa.Errors.{
  GoError, Reply, reply, refused, is_not_found, deserialize_grpc_error,
}
use terraform_provider_redpa.Removal.{Diagnostic, error_diag, warning_diag}
use terraform_provider_redpa.Removal.Laws.{errors, warnings, errors-append}
use terraform_provider_redpa.Lookup.{quote}
use terraform_provider_redpa.ClusterResource.{ClusterState, state_text}
use terraform_provider_redpa.ClusterResource.Delete.{is_going}
use terraform_provider_redpa.ClusterResource.Create.{Failure, diagnostics}

-- What Read sees of a cluster.
pub record View (C M : Type 0) : Type 0 where
  pub id_of : C → Text
  pub state_of : C → ClusterState
  pub flatten : C → M ⊎ Failure

-- What becomes of the resource in the state.
pub data Refreshed (M : Type 0) : Type 0 where
  dropped untouched : Refreshed M
  minimal : Text → Refreshed M
  whole : M → Refreshed M

module _ {C M : Type 0} (view : View C M) (model_id : Text) where
  abbrev pub flattened : M ⊎ Failure → List Diagnostic × Refreshed M
  flattened (inl m) = ([], whole m)
  flattened (inr failure) = (
    diagnostics failure
        ++ error_diag (codes "failed to generate model for state during cluster.Read") [] ∷ [],
    untouched,
  )

  abbrev going_warning : C → Diagnostic
  going_warning cl =
      warning_diag
        (codes "cluster " ++ (model_id ++ (codes " is in state " ++ state_text (view.state_of cl))))
        []

  -- Read, from the reply of ClusterForID on.
  unfoldable pub read_resource : Reply C → List Diagnostic × Refreshed M
  read_resource (refused err) = if is_not_found (some err) then ([], dropped) else (
    error_diag (codes "failed to read cluster " ++ quote model_id)
          (deserialize_grpc_error (some err))
        ∷ [],
    untouched,
  )
  read_resource (reply cl) =
      if is_going (view.state_of cl)
      then (going_warning cl ∷ [], minimal (view.id_of cl))
      else flattened (view.flatten cl)

  -- Why a refresh has its outcome.
  abbrev pub Justified : Reply C → List Diagnostic × Refreshed M → Type 0
  Justified answer (ds, dropped) =
      (err : GoError) × (answer ≡ refused err) × (is_not_found (some err) ≡ true) × (ds ≡ [])
  Justified answer (ds, untouched) =
      (errors ds ≢ 0)
      × (((err : GoError) × (answer ≡ refused err) × (is_not_found (some err) ≡ false))
          ⊎ ((cl : C) × (failure : Failure) × (answer ≡ reply cl)
              × (view.flatten cl ≡ inr failure)))
  Justified answer (ds, minimal id) =
      (cl : C) × (answer ≡ reply cl)
      × (is_going (view.state_of cl) ≡ true)
      × (id ≡ view.id_of cl)
      × (errors ds ≡ 0)
      × (warnings ds ≡ 1)
  Justified answer (ds, whole m) =
      (cl : C) × (answer ≡ reply cl)
      × (is_going (view.state_of cl) ≡ false)
      × (view.flatten cl ≡ inl m)
      × (ds ≡ [])

  flattened-Justified :
      (cl : C) (f : M ⊎ Failure)
      → is_going (view.state_of cl) ≡ false
      → view.flatten cl ≡ f
      → Justified (reply cl) (flattened f)
  flattened-Justified cl (inl m) there e = (cl, refl, there, e, refl)
  flattened-Justified cl (inr failure) there e =
      (errors-append (diagnostics failure) _ _ [], inr (cl, failure, refl, e))

  -- A refresh drops the resource exactly after an error that reads as not found; it leaves it alone,
  -- with an error, after any other error and for a cluster that gives no model; it keeps the ID
  -- alone, with one warning and no error, of a cluster that is being deleted; and it stores the model of any other.
  pub read_resource-Justified : (answer : Reply C) → Justified answer (read_resource answer)
  unfolding read_resource
  read_resource-Justified (refused err) = elim (Bool-cases (is_not_found (some err))) [
    | inl gone ↦ rw gone (err, refl, gone, refl)
    | inr other_error ↦ rw other_error ((λ none. cc), inl (err, refl, other_error))
  ]
  read_resource-Justified (reply cl) = elim (Bool-cases (is_going (view.state_of cl))) [
    | inl going ↦ rw going (cl, refl, going, refl, refl, refl)
    | inr there ↦ rw there (flattened-Justified cl (view.flatten cl) there refl)
  ]
