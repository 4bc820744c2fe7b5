-- ===== src/ClusterResource/Steps.antt =====
-- A round of the waits for a cluster: deletion accepts none, creation a ready one, and no time is
-- taken back.
use terraform_provider_redpa.Base.{
  ◌⊎◌, inl, inr, refl, ℕ, ◌+◌, ◌≤◌, ◌<◌, ◌≡◌, ◌≢◌, Bool, not, ◌&&◌, Option, none, some, arith,
  Bool-cases, Text, codes,
}
use terraform_provider_redpa.Errors.{GoError, is_retryable_byoc_error}
use terraform_provider_redpa.Retry.{RetryError, retryable_error, non_retryable_error}
use terraform_provider_redpa.ClusterWait.Outcome.{IsClientClock}
use terraform_provider_redpa.ClusterResource.{
  ClusterState, creating, creating_agent, ready, deleting, deleting_agent, failed, other, Cloud,
  with_agent, after_run, deletion_in, deletion_step, deletion_client, creation_in, creation_step,
  creation_client,
}

-- The clock does not go back over the calls of the outside, random numbers are below their bound,
-- and a wait that is not cancelled lasts.
pub record IsCloudClock {C W : Type 0} (cloud : Cloud C W) : Type 0 where
  pub look_later :
      (id : Text) (o : W) → cloud.world.now o ≤ cloud.world.now (cloud.cluster_for_id id o).1
  pub run_later :
      (id verb : Text) (o : W) → cloud.world.now o ≤ cloud.world.now (cloud.run_byoc id verb o).0
  pub rand_later : (n : ℕ) (o : W) → cloud.world.now o ≤ cloud.world.now (cloud.world.rand n o).1
  pub rand_below : (n : ℕ) (o : W) → 0 < n → (cloud.world.rand n o).0 < n
  pub wait_lasts :
      (d : ℕ) (o : W)
      → (cloud.world.wait d o).1 ≡ none
      → cloud.world.now o + d ≤ cloud.world.now (cloud.world.wait d o).0

module _ {C W : Type 0} (cloud : Cloud C W) where
  -- A step of Delete never accepts a cluster, and time does not go back.
  abbrev GoesOn : Bool × W → Option RetryError × (Bool × W) → Type 0
  GoesOn s (e, s') = (e ≢ none) × (cloud.world.now s.1 ≤ cloud.world.now s'.1)

  after_run-GoesOn :
      (expected : Text) (cl : C) (ran : Bool) (o : W) (r : W × Option GoError)
      → cloud.world.now o ≤ cloud.world.now r.0
      → GoesOn (ran, o) (after_run cloud expected cl ran r)
  unfolding retryable_error non_retryable_error
  after_run-GoesOn expected cl ran o (o', none) later = (λ e. cc, later)
  after_run-GoesOn expected cl ran o (o', some err) later =
      elim (Bool-cases (is_retryable_byoc_error (some err))) [
        | inl again ↦ rw again ((λ e. cc), later)
        | inr final ↦ rw final ((λ e. cc), later)
      ]

  module _ (clock : IsCloudClock cloud) (cluster_id : Text) where
    with_agent-GoesOn :
        (expected verb : Text) (cl : C) (s : Bool × W)
        → GoesOn s (with_agent cloud cluster_id expected verb cl s)
    unfolding retryable_error non_retryable_error
    with_agent-GoesOn expected verb cl (ran, o) = elim (Bool-cases (cloud.is_byoc cl && not ran)) [
      | inl run ↦ rw run (
          after_run-GoesOn expected cl ran o (cloud.run_byoc cluster_id verb o)
            (clock.run_later cluster_id verb o))
      | inr skip ↦ rw skip (λ e. cc, omega arith)
    ]

    deletion_in-GoesOn :
        (cl : C) (s : Bool × W) (state : ClusterState)
        → GoesOn s (deletion_in cloud cluster_id cl s state)
    unfolding retryable_error non_retryable_error
    deletion_in-GoesOn cl s deleting = (λ e. cc, omega arith)
    deletion_in-GoesOn cl s deleting_agent =
        with_agent-GoesOn (codes "deleted") (codes "destroy") cl s
    deletion_in-GoesOn cl s creating = (λ e. cc, omega arith)
    deletion_in-GoesOn cl s creating_agent = (λ e. cc, omega arith)
    deletion_in-GoesOn cl s ready = (λ e. cc, omega arith)
    deletion_in-GoesOn cl s failed = (λ e. cc, omega arith)
    deletion_in-GoesOn cl s (other name) = (λ e. cc, omega arith)

    pub deletion_step-GoesOn :
        (cl : C) (s : Bool × W) → GoesOn s (deletion_step cloud cluster_id cl s)
    unfolding deletion_step
    deletion_step-GoesOn cl s = deletion_in-GoesOn cl s (cloud.state_of cl)

    pub deletion_client-IsClientClock : IsClientClock (deletion_client cloud cluster_id)
    deletion_client-IsClientClock = record {
      look_later = λ id s. clock.look_later id s.1;
      use_later = λ cl s. (deletion_step-GoesOn cl s).1;
      rand_later = λ n s. clock.rand_later n s.1;
      rand_below = λ n s h. clock.rand_below n s.1 h;
      wait_lasts = λ d s e. clock.wait_lasts d s.1 e;
    }

    -- A step of Create accepts a ready cluster alone.
    abbrev Watches : ClusterState → Bool × W → Option RetryError × (Bool × W) → Type 0
    Watches state s (e, s') =
        ((e ≢ none) ⊎ (state ≡ ready)) × (cloud.world.now s.1 ≤ cloud.world.now s'.1)

    creation_in-Watches :
        (cl : C) (s : Bool × W) (state : ClusterState)
        → Watches state s (creation_in cloud cluster_id cl s state)
    unfolding retryable_error non_retryable_error
    creation_in-Watches cl s creating = (inl (λ e. cc), omega arith)
    creation_in-Watches cl s creating_agent =
        let (on, later) = with_agent-GoesOn (codes "ready") (codes "apply") cl s in (inl on, later)
    creation_in-Watches cl s ready = (inr refl, omega arith)
    creation_in-Watches cl s failed = (inl (λ e. cc), omega arith)
    creation_in-Watches cl s deleting = (inl (λ e. cc), omega arith)
    creation_in-Watches cl s deleting_agent = (inl (λ e. cc), omega arith)
    creation_in-Watches cl s (other name) = (inl (λ e. cc), omega arith)

    pub creation_step-Watches :
        (cl : C) (s : Bool × W)
        → Watches (cloud.state_of cl) s (creation_step cloud cluster_id cl s)
    unfolding creation_step
    creation_step-Watches cl s = creation_in-Watches cl s (cloud.state_of cl)

    pub creation_client-IsClientClock : IsClientClock (creation_client cloud cluster_id)
    creation_client-IsClientClock = record {
      look_later = λ id s. clock.look_later id s.1;
      use_later = λ cl s. (creation_step-Watches cl s).1;
      rand_later = λ n s. clock.rand_later n s.1;
      rand_below = λ n s h. clock.rand_below n s.1 h;
      wait_lasts = λ d s e. clock.wait_lasts d s.1 e;
    }
