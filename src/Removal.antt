-- ===== src/Removal.antt =====
-- redpanda/utils/graceful_removal.go: what to do with a resource that cannot be accessed.
pub mod Laws
mod Tests
use terraform_provider_redpa.Base.{
  ℕ, zero, suc, ◌+◌, ◌-◌, ◌*◌, ◌/◌, ◌%◌, ◌^◌, ◌≤◌, ◌<◌, ◌≡◌, refl, sym, ap, ◌∙◌, ◌≢◌, ◌↔◌, ◌⊎◌, inl,
  inr, Bool, true, false, not, ◌&&◌, ◌||◌, Option, none, some, List, [], ◌∷◌, ◌++◌, map, arith, ltb,
  leb, ◌==◌, if◌then◌else◌, ltb→lt, ==_iff, ==_refl, Bool-cases, is_some, Option-cases, length,
  drop, length-append, length-drop, drop-append, All, All-append, Text, codes, same, is_empty,
  strip, has_prefix, or_else, trim_prefix, trim_suffix, contains, to_lower, cut, split, trim_func,
  trim_space, trim_quotes, join, same_sound, same_refl, same_iff, strip-append, strip_sound,
  has_prefix-append, trim_prefix-append, contains-append_middle, to_lower-append, Dict, lookup,
  insert, delete, lookup-insert, lookup-delete,
}
use terraform_provider_redpa.Errors.{
  GoError, is_not_found, is_cluster_unreachable, is_permission_denied, deserialize_grpc_error,
}
use terraform_provider_redpa.Values.{TfValue, is_null, value_bool}

pub data RemovalAction : Type 0 where
  remove_from_state keep_in_state error_not_handled : RemovalAction

pub data Diagnostic : Type 0 where
  error_diag warning_diag : (summary detail : Text) → Diagnostic

-- The `switch` on the kind of error: the reason, or `none` for its default case.
unfoldable pub removal_reason : Option GoError → Option Text
removal_reason none = some (codes "no error")
removal_reason (some err) =
    if is_not_found (some err)
    then some (codes "not found")
    else if is_cluster_unreachable (some err)
    then some (codes "cluster unreachable")
    else if is_permission_denied (some err)
    then some (codes "permission denied")
    else none

abbrev is_clean : Option GoError → Bool
is_clean none = true
is_clean (some err) = is_not_found (some err)

-- `detail += " Error: " + errMsg` where there is a message.
abbrev with_error : Text → Text → Text
with_error detail message =
    if is_empty message then detail else detail ++ (codes " Error: " ++ message)

module _ (resource_type resource_id : Text) where
  blocked_detail : Text → Text → Text
  blocked_detail reason message =
      with_error
        (resource_type
          ++ (codes " "
              ++ (resource_id
                  ++ (codes " cannot be removed ("
                      ++ (reason
                          ++ codes
                              ") and allow_deletion is false. Set allow_deletion = true to remove from state.")))))
        message

  removed_detail : Text → Text → Text
  removed_detail reason message =
      with_error
        (resource_type
          ++ (codes " "
              ++ (resource_id
                  ++ (codes ": "
                      ++ (reason
                          ++ codes
                              ". Resource removed from Terraform state but may still exist.")))))
        message

  -- What follows the `switch`, once the reason is known.
  settle : TfValue Bool → Option GoError → Text → RemovalAction × List Diagnostic
  settle allow_deletion err reason =
      let message = deserialize_grpc_error err in
      if not (is_null allow_deletion) && not (value_bool allow_deletion)
      then (
        keep_in_state,
        error_diag (codes "Cannot Remove " ++ resource_type) (blocked_detail reason message) ∷ [],
      )
      else (
        remove_from_state,
        if is_clean err
            then []
            else warning_diag (codes "Removing " ++ (resource_type ++ codes " From State"))
                (removed_detail reason message)
              ∷ [],
      )

  unfoldable pub handle_graceful_removal :
      TfValue Bool → Option GoError → Text → RemovalAction × List Diagnostic
  unfolding settle blocked_detail removed_detail
  handle_graceful_removal allow_deletion err operation = elim (removal_reason err) [
    | none ↦ (
      error_not_handled,
      error_diag (codes "Failed to " ++ operation)
            (codes "failed to " ++ (operation ++ (codes ": " ++ deserialize_grpc_error err)))
          ∷ [],
    )
    | some reason ↦ settle allow_deletion err reason
  ]
