-- ===== src/ClusterResource/Creation.antt =====
-- How the creation of a cluster ends.
use terraform_provider_redpa.ClusterWait.Outcome.{Accepted, Concludes, retry_get_cluster_ends}
use terraform_provider_redpa.ClusterWait.{Watch}
use terraform_provider_redpa.ClusterResource.{creation_client, Cloud, ready}
use terraform_provider_redpa.ClusterResource.Create.{
  awaited, requested, expanded, create_resource, flattened, diagnostics, Failure, Creator, Stored,
  nothing, minimal, whole, Created, created, settled, concluded,
}
use terraform_provider_redpa.ClusterResource.Steps.{
  creation_step-Watches, creation_client-IsClientClock, IsCloudClock,
}
use terraform_provider_redpa.Retry.Round.{IsSane}
use terraform_provider_redpa.Errors.{refused, deserialize_grpc_error, Reply, reply}
use terraform_provider_redpa.Removal.{error_diag, Diagnostic}
use terraform_provider_redpa.Removal.Laws.{errors, errors-append}
use terraform_provider_redpa.ClusterWait.History.{Watched}
use terraform_provider_redpa.Base.{
  ℕ, ◌+◌, ◌≡◌, refl, ◌≢◌, ◌⊎◌, inl, inr, Bool, false, Option, none, some, List, [], ◌∷◌, Text,
  codes,
}
use terraform_provider_redpa.Retry.{RetryResult, succeeded, gave_up, timed_out, cancelled, panicked}
use terraform_provider_redpa.ClusterResource.Deletion.{SaidGone}

-- Fuel for the timeout.
abbrev pub fuel_for : ℕ ⊎ Failure → ℕ
fuel_for (inl timeout) = timeout + 2
fuel_for (inr failure) = 0

module _ {Q C M W : Type 0} (cloud : Cloud C W) (creator : Creator Q C M W) (initial most : ℕ) where
  -- The control plane was asked for the plan's cluster, and gave it the ID.
  abbrev pub IsRequested : W → Text → W → Type 0
  IsRequested o id s₀ =
      (q : Q) × (creator.request ≡ inl q) × (creator.create_cluster q o ≡ (reply id, s₀))

  -- While the wait that began in `s₀` went on, the control plane answered the cluster, ready.
  abbrev pub SaidReady : Text → W → C → Type 0
  SaidReady id s₀ cl =
      (count : ℕ) × (q : Bool × W) × Watched (creation_client cloud id) id (false, s₀) count q
      × ((cloud.cluster_for_id id q.1).0 ≡ reply cl)
      × (cloud.state_of cl ≡ ready)

  -- What is stored by a handler that began in `o`.
  abbrev pub Explained : W → List Diagnostic → Stored M → Type 0
  Explained o ds (whole m) =
      (ds ≡ [])
      × (id : Text) × (s₀ : W) × (cl : C) × IsRequested o id s₀
      × SaidReady id s₀ cl
      × (creator.flatten cl ≡ inl m)
  Explained o ds (minimal id) = (errors ds ≢ 0) × (s₀ : W) × IsRequested o id s₀
  Explained o ds nothing =
      (errors ds ≢ 0)
      ⊎ ((id : Text) × (s₀ : W) × IsRequested o id s₀
          × SaidGone cloud (creation_client cloud id) id s₀)

  abbrev pub Creates : W → Option (Created M W) → Type 0
  Creates o c =
      (ds : List Diagnostic) × (kept : Stored M) × (s : W) × (c ≡ some (created ds kept s))
      × Explained o ds kept

  module _ (fuel : ℕ) (o : W) (id : Text) (s₀ : W) (asked : IsRequested o id s₀) where
    -- The cluster that the wait returned, if any.
    abbrev IsSettled : Option C → Type 0
    IsSettled none = SaidGone cloud (creation_client cloud id) id s₀
    IsSettled (some cl) = SaidReady id s₀ cl

    flattened-Creates :
        (cl : C) (s : W)
        → SaidReady id s₀ cl
        → (f : M ⊎ Failure) → creator.flatten cl ≡ f
        → Creates o (some (flattened cloud creator initial most fuel id f s))
    flattened-Creates cl s is_ready (inl m) e =
        ([], whole m, s, refl, (refl, id, s₀, cl, asked, is_ready, e))
    flattened-Creates cl s is_ready (inr failure) e =
        (_, minimal id, s, refl, (errors-append (diagnostics failure) _ _ [], s₀, asked))

    settled-Creates :
        (cl : Option C) (s : W)
        → IsSettled cl
        → Creates o (some (settled cloud creator initial most fuel id cl s))
    settled-Creates none s gone = ([], nothing, s, refl, inr (id, s₀, asked, gone))
    settled-Creates (some cl) s is_ready = flattened-Creates cl s is_ready (creator.flatten cl) refl

    concluded-Creates :
        (r : RetryResult) (cl : Option C) (s : W)
        → r ≢ panicked
        → (r ≡ succeeded → IsSettled cl)
        → Creates o (some (concluded cloud creator initial most fuel id r cl s))
    concluded-Creates succeeded cl s calm h = settled-Creates cl s (h refl)
    concluded-Creates (gave_up err) cl s calm h = (_, minimal id, s, refl, ((λ e. cc), s₀, asked))
    concluded-Creates (timed_out t err) cl s calm h =
        (_, minimal id, s, refl, ((λ e. cc), s₀, asked))
    concluded-Creates (cancelled err) cl s calm h = (_, minimal id, s, refl, ((λ e. cc), s₀, asked))
    concluded-Creates panicked cl s calm h = absurd (calm refl)

  module _ (clock : IsCloudClock cloud) (sane : IsSane initial most) (o : W) where
    module _ (id : Text) (s₀ : W) (asked : IsRequested o id s₀) where
      Accepted-IsSettled :
          (count : ℕ) (s : Bool × W) (r : Reply C × W) (p : Watch C (Bool × W)) (fuel : ℕ)
          → Watched (creation_client cloud id) id (false, s₀) count s
          → cloud.cluster_for_id id s.1 ≡ r
          → Accepted
              (creation_client cloud id)
              id
              (creation_client-IsClientClock cloud clock id)
              (r.0, (s.0, r.1))
              p
          → IsSettled fuel o id s₀ asked p.cluster
      Accepted-IsSettled count s (refused err, s') p fuel watched e (looks, none_left) =
          rw none_left (count, s, err, watched, rw e refl, looks)
      Accepted-IsSettled count s (reply cl, s') p fuel watched e (kept, accepted) =
          elim (creation_step-Watches cloud clock id cl (s.0, s')).0 [
            | inl on ↦ absurd (on accepted)
            | inr is_ready ↦ rw kept (count, s, watched, rw e refl, is_ready)
          ]

      Concludes-IsSettled :
          (end_time fuel : ℕ) (r : RetryResult) (p : Watch C (Bool × W))
          → Concludes
              (creation_client cloud id)
              id
              (creation_client-IsClientClock cloud clock id)
              (false, s₀)
              end_time
              r
              p
          → (r ≢ panicked) × (r ≡ succeeded → IsSettled fuel o id s₀ asked p.cluster)
      Concludes-IsSettled end_time fuel succeeded p (count, q, watched, h) =
          ((λ e. cc), λ e. Accepted-IsSettled count q _ p fuel watched refl h)
      Concludes-IsSettled end_time fuel (gave_up err) p h = ((λ e. cc), (λ e. cc))
      Concludes-IsSettled end_time fuel (timed_out t err) p h = ((λ e. cc), (λ e. cc))
      Concludes-IsSettled end_time fuel (cancelled err) p h = ((λ e. cc), (λ e. cc))
      Concludes-IsSettled end_time fuel panicked p h = absurd h

      awaited-Creates :
          (timeout : ℕ ⊎ Failure)
          → Creates o (awaited cloud creator initial most (fuel_for timeout) id timeout s₀)
      awaited-Creates (inr failure) =
          (_, nothing, s₀, refl, inl (errors-append failure.before _ _ failure.after))
      awaited-Creates (inl timeout) =
          let (r, p, e, h) =
            retry_get_cluster_ends (creation_client cloud id) id
              (creation_client-IsClientClock cloud clock id) timeout (false, s₀) sane in
          let (calm, is_settled) = Concludes-IsSettled _ (timeout + 2) r p h in
          rw e
            (concluded-Creates (timeout + 2) o id s₀ asked r p.cluster p.outside.1 calm is_settled)

    requested-Creates :
        (q : Q) (r : Reply Text × W)
        → creator.request ≡ inl q
        → creator.create_cluster q o ≡ r
        → Creates o (requested cloud creator initial most (fuel_for creator.create_timeout) r)
    requested-Creates q (reply id, s₀) given e =
        awaited-Creates id s₀ (q, given, e) creator.create_timeout
    requested-Creates q (refused err, s₀) given e = (
      error_diag (codes "failed to create cluster") (deserialize_grpc_error (some err)) ∷ [],
      nothing,
      s₀,
      refl,
      inl (λ e. cc),
    )

    expanded-Creates :
        (q : Q ⊎ Failure)
        → creator.request ≡ q
        → Creates o (expanded cloud creator initial most (fuel_for creator.create_timeout) q o)
    expanded-Creates (inl q) given = requested-Creates q (creator.create_cluster q o) given refl
    expanded-Creates (inr failure) given =
        (_, nothing, o, refl, inl (errors-append failure.before _ _ failure.after))

    -- Where the clock does not go back, random numbers are below their bound, a wait that is not
    -- cancelled lasts, and both wait units are from two nanoseconds to below 2^62, Create returns
    -- within the rounds of its timeout and two more, and never panics. If it stores a whole model,
    -- it reports nothing, and the model is that of a ready cluster that the control plane answered,
    -- during the wait, for the ID that it had given in answer to the plan's request; if it stores
    -- an ID alone, it reports an error, and the ID is the one given in answer to the request; if it
    -- stores nothing, it reports an error, or the control plane gave an ID, and answered during the
    -- wait that the cluster does not exist or may not be seen.
    pub create_resource_ends :
        (ds : List Diagnostic) × (kept : Stored M) × (s : W) × (create_resource cloud creator
            initial most
            (fuel_for creator.create_timeout)
            o
          ≡ some (created ds kept s))
        × Explained o ds kept
    unfolding create_resource
    create_resource_ends = expanded-Creates creator.request refl
