-- ===== src/ClusterResource/Create.antt =====
-- Cluster.Create of redpanda/resources/cluster/resource_cluster.go. The expansion of the plan into a
-- request and the flattening of a cluster into a model are parameters.
use terraform_provider_redpa.Base.{
  ℕ, ◌⊎◌, inl, inr, Bool, false, Option, none, some, List, [], ◌∷◌, ◌++◌, Text, codes,
}
use terraform_provider_redpa.Errors.{GoError, Reply, reply, refused, deserialize_grpc_error}
use terraform_provider_redpa.Removal.{Diagnostic, error_diag}
use terraform_provider_redpa.Lookup.{quote}
use terraform_provider_redpa.Retry.{RetryResult, succeeded, gave_up, timed_out, cancelled, panicked}
use terraform_provider_redpa.ClusterWait.{Watch, retry_get_cluster}
use terraform_provider_redpa.ClusterResource.{Cloud, creation_client}
use terraform_provider_redpa.Retry.Attempt.{timeout_error}

-- Diagnostics with an error among them.
pub record Failure : Type 0 where
  pub before : List Diagnostic
  pub summary : Text
  pub detail : Text
  pub after : List Diagnostic

abbrev pub diagnostics : Failure → List Diagnostic
diagnostics f = f.before ++ error_diag f.summary f.detail ∷ f.after

-- What the handler is given: the plan's request and timeout, and the calls that only it makes.
pub record Creator (Q C M W : Type 0) : Type 0 where
  pub request : Q ⊎ Failure
  pub create_timeout : ℕ ⊎ Failure
  pub create_cluster : Q → W → Reply Text × W
  pub flatten : C → M ⊎ Failure

-- The state of the resource after the handler: nothing, the ID alone, or the whole model.
pub data Stored (M : Type 0) : Type 0 where
  nothing : Stored M
  minimal : Text → Stored M
  whole : M → Stored M

pub data Created (M W : Type 0) : Type 0 where
  created : List Diagnostic → Stored M → W → Created M W
  crashed : Created M W

module _ {Q C M W : Type 0} (cloud : Cloud C W) (creator : Creator Q C M W)
    (initial most fuel : ℕ) where
  abbrev uncreated : Text → GoError → W → Created M W
  uncreated id err o =
      created
        (error_diag (codes "failed to create cluster with ID " ++ quote id)
            (deserialize_grpc_error (some err))
          ∷ [])
        (minimal id) o

  abbrev pub flattened : Text → M ⊎ Failure → W → Created M W
  flattened id (inl m) o = created [] (whole m) o
  flattened id (inr failure) o =
      created
        (diagnostics failure
          ++ error_diag (codes "failed to generate model for state during cluster.Create") [] ∷ [])
        (minimal id) o

  -- Without an error from the wait: the cluster that it returned, if any.
  abbrev pub settled : Text → Option C → W → Created M W
  settled id none o = created [] nothing o
  settled id (some cl) o = flattened id (creator.flatten cl) o

  abbrev pub concluded : Text → RetryResult → Option C → W → Created M W
  concluded id succeeded cl o = settled id cl o
  concluded id (gave_up err) cl o = uncreated id err o
  concluded id (timed_out t err) cl o = uncreated id (timeout_error (cloud.duration_text t) err) o
  concluded id (cancelled err) cl o = uncreated id err o
  concluded id panicked cl o = crashed

  abbrev pub waited : Text → Option (RetryResult × Watch C (Bool × W)) → Option (Created M W)
  waited id none = none
  waited id (some (r, p)) = some (concluded id r p.cluster p.outside.1)

  abbrev pub awaited : Text → ℕ ⊎ Failure → W → Option (Created M W)
  awaited id (inr failure) o = some (created (diagnostics failure) nothing o)
  awaited id (inl timeout) o =
      waited id
        (retry_get_cluster (creation_client cloud id) id timeout initial most fuel (false, o))

  abbrev pub requested : Reply Text × W → Option (Created M W)
  requested (refused err, o) = some (
      created
        (error_diag (codes "failed to create cluster") (deserialize_grpc_error (some err)) ∷ [])
        nothing o)
  requested (reply id, o) = awaited id creator.create_timeout o

  abbrev pub expanded : Q ⊎ Failure → W → Option (Created M W)
  expanded (inr failure) o = some (created (diagnostics failure) nothing o)
  expanded (inl request) o = requested (creator.create_cluster request o)

  -- Create; `none` means that the fuel of the wait ran out.
  unfoldable pub create_resource : W → Option (Created M W)
  create_resource o = expanded creator.request o
