-- ===== src/ClusterResource/Deletion.antt =====
-- How the deletion of a cluster ends.
use terraform_provider_redpa.Retry.Attempt.{timeout_error}
use terraform_provider_redpa.ClusterResource.Steps.{
  IsCloudClock, deletion_step-GoesOn, deletion_client-IsClientClock,
}
use terraform_provider_redpa.Base.{
  ℕ, ◌+◌, ◌≡◌, ◌≢◌, ◌⊎◌, inl, inr, Bool, true, false, Option, none, some, List, [], Bool-cases,
  Text, codes, ◌∷◌, ap, refl,
}
use terraform_provider_redpa.Errors.{
  GoError, refused, is_not_found, deserialize_grpc_error, Reply, reply,
}
use terraform_provider_redpa.Retry.Round.{IsSane}
use terraform_provider_redpa.Values.{TfValue, null, unknown, known, value_bool}
use terraform_provider_redpa.Removal.{Diagnostic, error_diag}
use terraform_provider_redpa.Removal.Laws.{errors}
use terraform_provider_redpa.Retry.{RetryResult, succeeded, gave_up, timed_out, cancelled, panicked}
use terraform_provider_redpa.ClusterWait.{Client, Watch, retry_get_cluster}
use terraform_provider_redpa.ClusterWait.History.{Watched}
use terraform_provider_redpa.ClusterWait.Polling.{LooksDeleted}
use terraform_provider_redpa.ClusterResource.{Cloud, deletion_client}
use terraform_provider_redpa.ClusterResource.Delete.{
  Handled, finished, Doomed, concluded, unless_gone, requested, awaited, delete_resource, looked_up,
  is_going,
}
use terraform_provider_redpa.ClusterWait.Outcome.{Concludes, Accepted, retry_get_cluster_ends}

-- Fuel for the timeout.
abbrev pub fuel_of : ℕ ⊎ (Text × Text) → ℕ
fuel_of (inl timeout) = timeout + 2
fuel_of (inr diag) = 0

value_bool-true : (allow : TfValue Bool) → value_bool allow ≡ true → allow ≡ known true
value_bool-true null h = cc
value_bool-true unknown h = cc
value_bool-true (known b) h = ap known h

with_permission : {A B D : Type 0} → D → A ⊎ B → A ⊎ (D × B)
with_permission d (inl a) = inl a
with_permission d (inr b) = inr (d, b)

module _ {C W : Type 0} (cloud : Cloud C W) where
  -- While a wait that began in `s₀` went on, the control plane answered that the cluster is gone, or
  -- that it may not be seen.
  abbrev pub SaidGone : Client C (Bool × W) → Text → W → Type 0
  SaidGone client id s₀ =
      (count : ℕ) × (q : Bool × W) × (err : GoError) × Watched client id (false, s₀) count q
      × ((cloud.cluster_for_id id q.1).0 ≡ refused err)
      × LooksDeleted err

  abbrev pub ReadsGone : RetryResult → Type 0
  ReadsGone succeeded = ⊥
  ReadsGone (gave_up err) = is_not_found (some err) ≡ true
  ReadsGone (timed_out t err) =
      is_not_found (some (timeout_error (cloud.duration_text t) err)) ≡ true
  ReadsGone (cancelled err) = is_not_found (some err) ≡ true
  ReadsGone panicked = ⊥

  module _ (doomed : Doomed) (initial most : ℕ) where
    -- The cluster was found, and is being deleted already or was asked to be.
    abbrev pub IsAsked : W → W → Type 0
    IsAsked o s₀ =
        (cl : C) × (s : W) × (cloud.cluster_for_id doomed.id o ≡ (reply cl, s))
        × (((is_going (cloud.state_of cl) ≡ true) × (s ≡ s₀))
            ⊎ ((is_going (cloud.state_of cl) ≡ false)
                × (cloud.delete_cluster doomed.id s ≡ (s₀, none))))

    -- Then the wait succeeded, and the control plane said that the cluster is gone, or it ended with
    -- an error that reads as not found, whatever it was about.
    abbrev pub WaitedOut : W → Type 0
    WaitedOut s₀ =
        (timeout : ℕ) × (r : RetryResult) × (p : Watch C (Bool × W)) × (doomed.delete_timeout
          ≡ inl timeout)
        × (retry_get_cluster (deletion_client cloud doomed.id) doomed.id timeout initial most
              (timeout + 2) (false, s₀)
            ≡ some (r, p))
        × (((r ≡ succeeded) × SaidGone (deletion_client cloud doomed.id) doomed.id s₀)
            ⊎ ReadsGone r)

    -- The cluster was not found at all, or it was waited for.
    abbrev pub CountsAsGone : W → Type 0
    CountsAsGone o =
        ((err : GoError) × (s : W) × (cloud.cluster_for_id doomed.id o ≡ (refused err, s))
          × (is_not_found (some err) ≡ true))
        ⊎ ((s₀ : W) × IsAsked o s₀ × WaitedOut s₀)

    -- The handler returned, with an error or for a cluster that counts as gone.
    abbrev pub Returns : W → Option (Handled W) → Type 0
    Returns o h =
        (ds : List Diagnostic) × (s : W) × (h ≡ some (finished ds s))
        × ((errors ds ≢ 0) ⊎ CountsAsGone o)

    unless_gone-Returns :
        (fuel : ℕ) (summary : Text) (err : GoError) (o s : W)
        → (is_not_found (some err) ≡ true → CountsAsGone o)
        → Returns o (some (unless_gone cloud doomed initial most fuel summary err s))
    unless_gone-Returns fuel summary err o s why = elim (Bool-cases (is_not_found (some err))) [
      | inl gone ↦ ([], s, rw gone refl, inr (why gone))
      | inr other_error ↦ (
        error_diag summary (deserialize_grpc_error (some err)) ∷ [],
        s,
        rw other_error refl,
        inl (λ e. cc),
      )
    ]

    -- What the wait's result makes of the handler.
    concluded-Returns :
        (fuel : ℕ) (o s₀ : W) (r : RetryResult) (p : Watch C (Bool × W))
        → r ≢ panicked
        → ((r ≡ succeeded) ⊎ ReadsGone r → CountsAsGone o)
        → Returns o (some (concluded cloud doomed initial most fuel r p.outside.1))
    concluded-Returns fuel o s₀ succeeded p calm gone =
        ([], p.outside.1, refl, inr (gone (inl refl)))
    concluded-Returns fuel o s₀ (gave_up err) p calm gone =
        unless_gone-Returns fuel _ err o p.outside.1 (λ g. gone (inr g))
    concluded-Returns fuel o s₀ (timed_out t err) p calm gone =
        unless_gone-Returns fuel _ (timeout_error (cloud.duration_text t) err) o p.outside.1
          (λ g. gone (inr g))
    concluded-Returns fuel o s₀ (cancelled err) p calm gone =
        unless_gone-Returns fuel _ err o p.outside.1 (λ g. gone (inr g))
    concluded-Returns fuel o s₀ panicked p calm gone = absurd (calm refl)

    module _ (clock : IsCloudClock cloud) (sane : IsSane initial most) where
      Accepted-SaidGone :
          (s₀ : W) (count : ℕ) (s : Bool × W) (r : Reply C × W) (p : Watch C (Bool × W))
          → Watched (deletion_client cloud doomed.id) doomed.id (false, s₀) count s
          → cloud.cluster_for_id doomed.id s.1 ≡ r
          → Accepted
              (deletion_client cloud doomed.id)
              doomed.id
              (deletion_client-IsClientClock cloud clock doomed.id)
              (r.0, (s.0, r.1))
              p
          → SaidGone (deletion_client cloud doomed.id) doomed.id s₀
      Accepted-SaidGone s₀ count s (refused err, o) p watched e (looks, none_left) =
          (count, s, err, watched, rw e refl, looks)
      Accepted-SaidGone s₀ count s (reply cl, o) p watched e (kept, accepted) =
          absurd ((deletion_step-GoesOn cloud clock doomed.id cl (s.0, o)).0 accepted)

      succeeded-SaidGone :
          (s₀ : W) (end_time : ℕ) (r : RetryResult) (p : Watch C (Bool × W))
          → Concludes
              (deletion_client cloud doomed.id)
              doomed.id
              (deletion_client-IsClientClock cloud clock doomed.id)
              (false, s₀)
              end_time
              r
              p
          → (r ≢ panicked)
            × (r ≡ succeeded → SaidGone (deletion_client cloud doomed.id) doomed.id s₀)
      succeeded-SaidGone s₀ end_time succeeded p (count, q, watched, h) =
          ((λ e. cc), λ e. Accepted-SaidGone s₀ count q _ p watched refl h)
      succeeded-SaidGone s₀ end_time (gave_up err) p h = ((λ e. cc), (λ e. cc))
      succeeded-SaidGone s₀ end_time (timed_out t err) p h = ((λ e. cc), (λ e. cc))
      succeeded-SaidGone s₀ end_time (cancelled err) p h = ((λ e. cc), (λ e. cc))
      succeeded-SaidGone s₀ end_time panicked p h = absurd h

      timeout-Returns :
          (timeout : ℕ ⊎ (Text × Text)) (o s₀ : W)
          → doomed.delete_timeout ≡ timeout
          → IsAsked o s₀
          → Returns o (awaited cloud doomed initial most (fuel_of timeout) timeout s₀)
      timeout-Returns (inr (summary, detail)) o s₀ given asked =
          (error_diag summary detail ∷ [], s₀, refl, inl (λ e. cc))
      timeout-Returns (inl timeout) o s₀ given asked =
          let (r, p, e, h) =
            retry_get_cluster_ends (deletion_client cloud doomed.id) doomed.id
              (deletion_client-IsClientClock cloud clock doomed.id) timeout (false, s₀) sane in
          let (calm, gone) = succeeded-SaidGone s₀ _ r p h in
          rw e (
            concluded-Returns (timeout + 2) o s₀ r p calm
              (λ why. inr (s₀, asked, (timeout, r, p, given, e, explained r gone why))))
        where
          explained :
              (r : RetryResult)
              → (r ≡ succeeded → SaidGone (deletion_client cloud doomed.id) doomed.id s₀)
              → (r ≡ succeeded) ⊎ ReadsGone r
              → ((r ≡ succeeded) × SaidGone (deletion_client cloud doomed.id) doomed.id s₀)
                ⊎ ReadsGone r
          explained r gone (inl done) = inl (done, gone done)
          explained r gone (inr reads) = inr reads

      requested-Returns :
          (o s : W) (cl : C) (r : W × Option GoError)
          → cloud.cluster_for_id doomed.id o ≡ (reply cl, s)
          → is_going (cloud.state_of cl) ≡ false
          → cloud.delete_cluster doomed.id s ≡ r
          → Returns o (requested cloud doomed initial most (fuel_of doomed.delete_timeout) r)
      requested-Returns o s cl (s₀, none) found there e =
          timeout-Returns doomed.delete_timeout o s₀ refl (cl, s, found, inr (there, e))
      requested-Returns o s cl (s₀, some err) found there e = (
        error_diag (codes "failed to delete cluster") (deserialize_grpc_error (some err)) ∷ [],
        s₀,
        refl,
        inl (λ e. cc),
      )

      looked_up-Returns :
          (o : W) (r : Reply C × W)
          → cloud.cluster_for_id doomed.id o ≡ r
          → Returns o (looked_up cloud doomed initial most (fuel_of doomed.delete_timeout) r)
      looked_up-Returns o (refused err, s) e =
          unless_gone-Returns (fuel_of doomed.delete_timeout) _ err o s
            (λ gone. inl (err, s, e, gone))
      looked_up-Returns o (reply cl, s) e = elim (Bool-cases (is_going (cloud.state_of cl))) [
        | inl going ↦
            rw going (timeout-Returns doomed.delete_timeout o s refl (cl, s, e, inl (going, refl)))
        | inr there ↦
            rw there (requested-Returns o s cl (cloud.delete_cluster doomed.id s) e there refl)
      ]

      -- Where the clock does not go back, random numbers are below their bound, a wait that is not
      -- cancelled lasts, and both wait units are from two nanoseconds to below 2^62, Delete returns
      -- within the rounds of its timeout and two more, and never panics. Its diagnostics hold an
      -- error, or else deletion is allowed, and either the first look at the cluster was refused
      -- with an error that reads as not found; or the cluster was found, was being deleted or its
      -- deletion was requested, and the wait that began then either succeeded, with an answer of the
      -- control plane during it that the cluster does not exist or may not be seen, or ended with an
      -- error that reads as not found.
      pub delete_resource_ends :
          (o : W)
          → (ds : List Diagnostic) × (s : W) × (delete_resource cloud doomed initial most
                (fuel_of doomed.delete_timeout)
                o
              ≡ some (finished ds s))
            × ((errors ds ≢ 0) ⊎ ((doomed.allow_deletion ≡ known true) × CountsAsGone o))
      unfolding delete_resource
      delete_resource_ends o = elim (Bool-cases (value_bool doomed.allow_deletion)) [
        | inr kept ↦ rw kept (
          error_diag (codes "cluster deletion not allowed") (codes "allow_deletion is set to false")
              ∷ [],
          o,
          refl,
          inl (λ e. cc),
        )
        | inl allowed ↦
            let (ds, s, made, why) = looked_up-Returns o _ refl in
            rw allowed
              (ds, s, made, with_permission (value_bool-true doomed.allow_deletion allowed) why)
      ]
