-- ===== src/Removal/Laws.antt =====
-- When a resource leaves the state, when it stays, and what the user is told.
use terraform_provider_redpa.Base.{
  ℕ, suc, ◌≡◌, ◌≢◌, ◌↔◌, ◌⊎◌, Bool, true, Option, none, List, [], ◌∷◌, ◌++◌, arith, Text,
}
use terraform_provider_redpa.Errors.{
  GoError, is_not_found, is_cluster_unreachable, is_permission_denied,
}
use terraform_provider_redpa.Values.{TfValue, null, known}
use terraform_provider_redpa.Removal.{
  RemovalAction, remove_from_state, Diagnostic, error_diag, warning_diag, removal_reason,
  handle_graceful_removal, keep_in_state,
}

-- The errors after which a resource counts as gone.
abbrev pub IsGone : Option GoError → Type 0
IsGone err =
    (err ≡ none)
    ⊎ (is_not_found err ≡ true)
    ⊎ (is_cluster_unreachable err ≡ true)
    ⊎ (is_permission_denied err ≡ true)

abbrev pub MayLeave : TfValue Bool → Type 0
MayLeave allow = (allow ≡ null) ⊎ (allow ≡ known true)

abbrev pub errors : List Diagnostic → ℕ
errors [] = 0
errors (error_diag s d ∷ ds) = suc (errors ds)
errors (warning_diag s d ∷ ds) = errors ds

-- Diagnostics with an error among them have an error.
pub errors-append :
    (before : List Diagnostic) (s d : Text) (after : List Diagnostic)
    → errors (before ++ error_diag s d ∷ after) ≢ 0
errors-append [] s d after = λ e. cc
errors-append (error_diag s' d' ∷ before) s d after = λ e. cc
errors-append (warning_diag s' d' ∷ before) s d after = errors-append before s d after

abbrev pub warnings : List Diagnostic → ℕ
warnings [] = 0
warnings (error_diag s d ∷ ds) = warnings ds
warnings (warning_diag s d ∷ ds) = suc (warnings ds)

module _ (resource_type resource_id : Text) (allow : TfValue Bool) (err : Option GoError)
    (operation : Text) where
  abbrev outcome : RemovalAction × List Diagnostic
  outcome = handle_graceful_removal resource_type resource_id allow err operation

  -- A resource leaves the state exactly if there was no error, or one that reads as not found, as
  -- an unreachable cluster or as a refused permission, and allow_deletion is null or true.
  pub remove_iff : (outcome.0 ≡ remove_from_state) ↔ (IsGone err × MayLeave allow)
  unfolding handle_graceful_removal removal_reason
  remove_iff = ground arith

  -- A resource is kept in the state as a blocked removal exactly if there was no error, or one that
  -- reads as not found, as an unreachable cluster or as a refused permission, and allow_deletion is
  -- neither null nor true.
  pub keep_iff : (outcome.0 ≡ keep_in_state) ↔ (IsGone err × ¬ MayLeave allow)
  unfolding handle_graceful_removal removal_reason
  keep_iff = ground arith

  -- A removal reports no error, and a warning unless there was no error or the resource was not
  -- found; any other outcome is reported as one error.
  pub error_iff_kept :
      ((outcome.0 ≡ remove_from_state)
        × (errors outcome.1 ≡ 0)
        × ((warnings outcome.1 ≡ 0) ↔ ((err ≡ none) ⊎ (is_not_found err ≡ true))))
      ⊎ ((outcome.0 ≢ remove_from_state) × (errors outcome.1 ≡ 1) × (warnings outcome.1 ≡ 0))
  unfolding handle_graceful_removal removal_reason
  error_iff_kept = ground arith
