-- ===== src/ClusterResource.antt =====
-- redpanda/resources/cluster/resource_cluster.go: how a cluster resource waits for its cluster to be
-- created or deleted. The closures' variable `ranByoc` joins the state of the outside.
pub mod Create
pub mod Delete
pub mod Read
pub mod Mask
pub mod Pins
pub mod Planned
pub mod Update
pub mod Steps
pub mod Deletion
pub mod Creation
mod Tests
use terraform_provider_redpa.Base.{
  ℕ, zero, suc, ◌+◌, ◌-◌, ◌*◌, ◌/◌, ◌%◌, ◌^◌, ◌≤◌, ◌<◌, ◌≡◌, refl, sym, ap, ◌∙◌, ◌≢◌, ◌↔◌, ◌⊎◌, inl,
  inr, Bool, true, false, not, ◌&&◌, ◌||◌, Option, none, some, List, [], ◌∷◌, ◌++◌, map, arith, ltb,
  leb, ◌==◌, if◌then◌else◌, ltb→lt, ==_iff, ==_refl, Bool-cases, is_some, Option-cases, length,
  drop, length-append, length-drop, drop-append, All, All-append, Text, codes, same, is_empty,
  strip, has_prefix, or_else, trim_prefix, trim_suffix, contains, to_lower, cut, split, trim_func,
  trim_space, trim_quotes, join, same_sound, same_refl, same_iff, strip-append, strip_sound,
  has_prefix-append, trim_prefix-append, contains-append_middle, to_lower-append, Dict, lookup,
  insert, delete, lookup-insert, lookup-delete, HasDistinctKeys, ℤ, pos, negsuc, atoi,
  insert-HasDistinctKeys, delete-HasDistinctKeys,
}
use terraform_provider_redpa.Errors.{
  GoError, plain_error, GrpcStatus, Reply, reply, refused, is_not_found, is_retryable_byoc_error,
  deserialize_grpc_error,
}
use terraform_provider_redpa.Values.{TfValue, value_bool}
use terraform_provider_redpa.Removal.{Diagnostic, error_diag}
use terraform_provider_redpa.Lookup.{quote}
use terraform_provider_redpa.Retry.{
  World, RetryError, retryable_error, non_retryable_error, RetryResult, succeeded, gave_up,
  timed_out, cancelled, panicked,
}
use terraform_provider_redpa.ClusterWait.{Client, Watch, retry_get_cluster}

pub data ClusterState : Type 0 where
  creating creating_agent ready deleting deleting_agent failed : ClusterState
  other : Text → ClusterState

abbrev state_text : ClusterState → Text
state_text creating = codes "STATE_CREATING"
state_text creating_agent = codes "STATE_CREATING_AGENT"
state_text ready = codes "STATE_READY"
state_text deleting = codes "STATE_DELETING"
state_text deleting_agent = codes "STATE_DELETING_AGENT"
state_text failed = codes "STATE_FAILED"
state_text (other name) = name

-- The outside of the handlers: the clusters of the control plane, the BYOC plugin, and time.
pub record Cloud (C W : Type 0) : Type 0 where
  pub world : World W
  pub state_of : C → ClusterState
  pub is_byoc : C → Bool
  pub cluster_for_id : Text → W → Reply C × W
  pub delete_cluster : Text → W → W × Option GoError
  pub run_byoc : (cluster_id verb : Text) → W → W × Option GoError
  pub wrap : Text → GoError → GoError
  pub duration_text : ℕ → Text

module _ {C W : Type 0} (cloud : Cloud C W) where
  abbrev in_state : Text → C → GoError
  in_state expected cl = plain_error (
      codes "expected cluster to be "
      ++ (expected ++ (codes " but was in state " ++ state_text (cloud.state_of cl))))

  abbrev unhandled : C → GoError
  unhandled cl = plain_error (
      codes "unhandled state "
      ++ (state_text (cloud.state_of cl)
          ++ codes ". please report this issue to the provider developers"))

  -- The plugin ran.
  abbrev pub after_run :
      (expected : Text) → C → Bool → W × Option GoError → Option RetryError × (Bool × W)
  after_run expected cl ran (o, none) =
      (some (retryable_error (some (in_state expected cl))), (true, o))
  after_run expected cl ran (o, some err) =
      if is_retryable_byoc_error (some err)
      then (some (retryable_error (some err)), (ran, o))
      else (some (non_retryable_error (some err)), (ran, o))

  -- A state that waits for the agent: the plugin runs for a BYOC cluster, until it succeeds once.
  abbrev pub with_agent :
      (cluster_id expected verb : Text) → C → Bool × W → Option RetryError × (Bool × W)
  with_agent cluster_id expected verb cl (ran, o) =
      if cloud.is_byoc cl && not ran
      then after_run expected cl ran (cloud.run_byoc cluster_id verb o)
      else (some (retryable_error (some (in_state expected cl))), (ran, o))

  -- The closure of Create.
  abbrev pub creation_in : Text → C → Bool × W → ClusterState → Option RetryError × (Bool × W)
  creation_in cluster_id cl s creating =
      (some (retryable_error (some (in_state (codes "ready") cl))), s)
  creation_in cluster_id cl s creating_agent =
      with_agent cluster_id (codes "ready") (codes "apply") cl s
  creation_in cluster_id cl s ready = (none, s)
  creation_in cluster_id cl s failed =
      (some (non_retryable_error (some (in_state (codes "ready") cl))), s)
  creation_in cluster_id cl s deleting = (
    some (
        non_retryable_error (
          some (
            plain_error (
              codes "cluster is being deleted (state STATE_DELETING), cannot complete creation")))),
    s,
  )
  creation_in cluster_id cl s deleting_agent = (
    some (
        non_retryable_error (
          some (
            plain_error (
              codes
                "cluster is being deleted (state STATE_DELETING_AGENT), cannot complete creation")))),
    s,
  )
  creation_in cluster_id cl s (other name) = (some (non_retryable_error (some (unhandled cl))), s)

  unfoldable pub creation_step : Text → C → Bool × W → Option RetryError × (Bool × W)
  creation_step cluster_id cl s = creation_in cluster_id cl s (cloud.state_of cl)

  -- The closure of Delete.
  abbrev pub deletion_in : Text → C → Bool × W → ClusterState → Option RetryError × (Bool × W)
  deletion_in cluster_id cl s deleting =
      (some (retryable_error (some (in_state (codes "deleted") cl))), s)
  deletion_in cluster_id cl s deleting_agent =
      with_agent cluster_id (codes "deleted") (codes "destroy") cl s
  deletion_in cluster_id cl s creating = (some (non_retryable_error (some (unhandled cl))), s)
  deletion_in cluster_id cl s creating_agent = (some (non_retryable_error (some (unhandled cl))), s)
  deletion_in cluster_id cl s ready = (some (non_retryable_error (some (unhandled cl))), s)
  deletion_in cluster_id cl s failed = (some (non_retryable_error (some (unhandled cl))), s)
  deletion_in cluster_id cl s (other name) = (some (non_retryable_error (some (unhandled cl))), s)

  unfoldable pub deletion_step : Text → C → Bool × W → Option RetryError × (Bool × W)
  deletion_step cluster_id cl s = deletion_in cluster_id cl s (cloud.state_of cl)

  abbrev answered : Bool → Reply C × W → Reply C × (Bool × W)
  answered ran (r, o) = (r, (ran, o))

  abbrev drawn : Bool → ℕ × W → ℕ × (Bool × W)
  drawn ran (n, o) = (n, (ran, o))

  abbrev awake : Bool → W × Option GoError → (Bool × W) × Option GoError
  awake ran (o, e) = ((ran, o), e)

  -- What RetryGetCluster runs over, with the given closure.
  abbrev pub wait_client : (C → Bool × W → Option RetryError × (Bool × W)) → Client C (Bool × W)
  wait_client step = record {
    world = record {
      now = λ s. cloud.world.now s.1;
      rand = λ n s. drawn s.0 (cloud.world.rand n s.1);
      wait = λ d s. awake s.0 (cloud.world.wait d s.1);
    };
    cluster_for_id = λ id s. answered s.0 (cloud.cluster_for_id id s.1);
    use_cluster = step;
    wrap = cloud.wrap;
  }

  abbrev pub creation_client : Text → Client C (Bool × W)
  creation_client cluster_id = wait_client (λ cl s. creation_step cluster_id cl s)

  abbrev pub deletion_client : Text → Client C (Bool × W)
  deletion_client cluster_id = wait_client (λ cl s. deletion_step cluster_id cl s)
