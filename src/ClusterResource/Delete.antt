-- ===== src/ClusterResource/Delete.antt =====
-- Cluster.Delete of redpanda/resources/cluster/resource_cluster.go.
use terraform_provider_redpa.Retry.Attempt.{timeout_error}
use terraform_provider_redpa.Base.{
  ℕ, ◌⊎◌, inl, inr, Bool, true, false, not, Option, none, some, List, [], ◌∷◌, ◌++◌, if◌then◌else◌,
  Text, codes,
}
use terraform_provider_redpa.Errors.{
  GoError, Reply, reply, refused, is_not_found, deserialize_grpc_error,
}
use terraform_provider_redpa.Values.{TfValue, value_bool}
use terraform_provider_redpa.Removal.{Diagnostic, error_diag}
use terraform_provider_redpa.Lookup.{quote}
use terraform_provider_redpa.Retry.{RetryResult, succeeded, gave_up, timed_out, cancelled, panicked}
use terraform_provider_redpa.ClusterWait.{Watch, retry_get_cluster}
use terraform_provider_redpa.ClusterResource.{
  ClusterState, creating, creating_agent, ready, deleting, deleting_agent, failed, other, Cloud,
  deletion_client,
}

-- What `Delete` leaves behind; without an error among the diagnostics Terraform drops the resource.
pub data Handled (W : Type 0) : Type 0 where
  finished : List Diagnostic → W → Handled W
  crashed : Handled W

-- What Delete reads of the resource's model. A timeout that cannot be read is the summary and the
-- detail of an error.
pub record Doomed : Type 0 where
  pub id : Text
  pub allow_deletion : TfValue Bool
  pub delete_timeout : ℕ ⊎ (Text × Text)

abbrev pub is_going : ClusterState → Bool
is_going deleting = true
is_going deleting_agent = true
is_going creating = false
is_going creating_agent = false
is_going ready = false
is_going failed = false
is_going (other name) = false

module _ {C W : Type 0} (cloud : Cloud C W) (doomed : Doomed) (initial most fuel : ℕ) where
  -- An error counts as a deletion if it reads as not found.
  abbrev pub unless_gone : Text → GoError → W → Handled W
  unless_gone summary err o =
      if is_not_found (some err)
      then finished [] o
      else finished (error_diag summary (deserialize_grpc_error (some err)) ∷ []) o

  abbrev undeleted : Text
  undeleted = codes "failed to delete cluster " ++ quote doomed.id

  abbrev pub concluded : RetryResult → W → Handled W
  concluded succeeded o = finished [] o
  concluded (gave_up err) o = unless_gone undeleted err o
  concluded (timed_out t err) o =
      unless_gone undeleted (timeout_error (cloud.duration_text t) err) o
  concluded (cancelled err) o = unless_gone undeleted err o
  concluded panicked o = crashed

  abbrev pub waited : Option (RetryResult × Watch C (Bool × W)) → Option (Handled W)
  waited none = none
  waited (some (r, p)) = some (concluded r p.outside.1)

  abbrev pub awaited : ℕ ⊎ (Text × Text) → W → Option (Handled W)
  awaited (inr (summary, detail)) o = some (finished (error_diag summary detail ∷ []) o)
  awaited (inl timeout) o = waited (
      retry_get_cluster (deletion_client cloud doomed.id) doomed.id timeout initial most fuel
        (false, o))

  abbrev pub requested : W × Option GoError → Option (Handled W)
  requested (o, some err) = some (
      finished
        (error_diag (codes "failed to delete cluster") (deserialize_grpc_error (some err)) ∷ []) o)
  requested (o, none) = awaited doomed.delete_timeout o

  abbrev pub looked_up : Reply C × W → Option (Handled W)
  looked_up (refused err, o) =
      some (unless_gone (codes "failed to read cluster " ++ quote doomed.id) err o)
  looked_up (reply cl, o) =
      if is_going (cloud.state_of cl)
      then awaited doomed.delete_timeout o
      else requested (cloud.delete_cluster doomed.id o)

  -- Delete; `none` means that the fuel of the wait ran out.
  unfoldable pub delete_resource : W → Option (Handled W)
  delete_resource o =
      if not (value_bool doomed.allow_deletion)
      then some (
          finished
            (error_diag (codes "cluster deletion not allowed")
                (codes "allow_deletion is set to false")
              ∷ [])
            o)
      else looked_up (cloud.cluster_for_id doomed.id o)
