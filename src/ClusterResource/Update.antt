-- ===== src/ClusterResource/Update.antt =====
-- Cluster.Update of redpanda/resources/cluster/resource_cluster.go. ExpandUpdateWithMask and Flatten
-- are parameters.
use terraform_provider_redpa.Base.{
  ℕ, ◌+◌, ◌≡◌, refl, ap, ◌≢◌, ◌⊎◌, inl, inr, Option, none, some, List, [], ◌∷◌, ◌++◌, Text, codes,
}
use terraform_provider_redpa.Errors.{GoError, Reply, reply, refused, deserialize_grpc_error}
use terraform_provider_redpa.Removal.{Diagnostic, error_diag}
use terraform_provider_redpa.Retry.{RetryResult, succeeded, gave_up, timed_out, cancelled, panicked}
use terraform_provider_redpa.Retry.Attempt.{timeout_error}
use terraform_provider_redpa.Removal.Laws.{errors, errors-append}
use terraform_provider_redpa.Retry.Round.{IsSane}
use terraform_provider_redpa.Operation.{Operation, Server, Poll, are_we_done_yet}
use terraform_provider_redpa.Operation.Outcome.{IsServerClock, Concludes, are_we_done_yet_ends}
use terraform_provider_redpa.Operation.Polling.{IsDone}
use terraform_provider_redpa.ClusterResource.Create.{Failure, diagnostics}
use terraform_provider_redpa.ClusterResource.Mask.{expand_leaf_paths}

-- What the handler is given: the payload and the paths of the mask, the timeout of the plan, and the
-- calls of the control plane.
pub record Updater (Q C M W : Type 0) : Type 0 where
  pub id : Text
  pub id_text : Text
  pub server : Server W
  pub request : (Q × List Text) ⊎ Failure
  pub update_timeout : ℕ ⊎ Failure
  pub update_cluster : Q → (paths : List Text) → W → Reply (Option Operation) × W
  pub cluster_for_id : Text → W → Reply C × W
  pub flatten : C → M ⊎ Failure

-- The diagnostics, the new state if one is stored, and the outside; or a panic.
pub data Updated (M W : Type 0) : Type 0 where
  updated : List Diagnostic → Option M → W → Updated M W
  crashed : Updated M W

module _ {Q C M W : Type 0} (updater : Updater Q C M W) (initial most : ℕ) where
  abbrev unchanged : Text → GoError → W → Option (Updated M W)
  unchanged summary err o =
      some (updated (error_diag summary (deserialize_grpc_error (some err)) ∷ []) none o)

  abbrev flattened : M ⊎ Failure → W → Option (Updated M W)
  flattened (inl m) o = some (updated [] (some m) o)
  flattened (inr failure) o = some (
      updated
        (diagnostics failure
          ++ error_diag (codes "failed to generate model for state during cluster.Update") [] ∷ [])
        none o)

  abbrev reread : Reply C × W → Option (Updated M W)
  reread (refused err, o) = unchanged (codes "failed to read cluster " ++ updater.id_text) err o
  reread (reply cl, o) = flattened (updater.flatten cl) o

  abbrev waiting_failed : GoError → W → Option (Updated M W)
  waiting_failed err o = unchanged (codes "failed while waiting to update cluster") err o

  abbrev waited : Option (RetryResult × Poll W) → Option (Updated M W)
  waited none = none
  waited (some (succeeded, p)) = reread (updater.cluster_for_id updater.id p.outside)
  waited (some (gave_up err, p)) = waiting_failed err p.outside
  waited (some (timed_out t err, p)) =
      waiting_failed (timeout_error (updater.server.duration_text t) err) p.outside
  waited (some (cancelled err, p)) = waiting_failed err p.outside
  waited (some (panicked, p)) = some crashed

  abbrev timed : ℕ ⊎ Failure → Option Operation → W → Option (Updated M W)
  timed (inr failure) op o = some (updated (diagnostics failure) none o)
  timed (inl timeout) op o =
      waited (are_we_done_yet updater.server timeout initial most (timeout + 2) op o)

  abbrev sent : Reply (Option Operation) × W → Option (Updated M W)
  sent (refused err, o) = unchanged (codes "failed to send cluster update request") err o
  sent (reply op, o) = timed updater.update_timeout op o

  abbrev masked : Q → List Text → W → Option (Updated M W)
  masked payload [] o = reread (updater.cluster_for_id updater.id o)
  masked payload (p ∷ paths) o = sent (updater.update_cluster payload (p ∷ paths) o)

  abbrev requested : (Q × List Text) ⊎ Failure → W → Option (Updated M W)
  requested (inr failure) o = some (updated (diagnostics failure) none o)
  requested (inl (payload, paths)) o = masked payload (expand_leaf_paths paths) o

  -- Update; `none` means that the fuel of the wait ran out.
  unfoldable pub update_resource : W → Option (Updated M W)
  update_resource o = requested updater.request o

module _ {Q C M W : Type 0} (updater : Updater Q C M W) (initial most : ℕ) where
  -- The control plane took the mask in the state `o`, and the wait for its operation succeeded, in
  -- the state `u`.
  abbrev pub IsAwaited : W → Q → List Text → W → Type 0
  IsAwaited o payload paths u =
      (op : Option Operation) × (s : W) × (timeout : ℕ) × (p : Poll W) × (updater.update_cluster
          payload paths o
        ≡ (reply op, s))
      × (updater.update_timeout ≡ inl timeout)
      × (are_we_done_yet updater.server timeout initial most (timeout + 2) op s
          ≡ some (succeeded, p))
      × IsDone p.op
      × (p.outside ≡ u)

  -- From `o` to `u` nothing was sent, as the expanded mask has no path, or else the mask was taken.
  abbrev pub IsApplied : W → W → Type 0
  IsApplied o u =
      (payload : Q) × (paths : List Text) × (updater.request ≡ inl (payload, paths))
      × (((expand_leaf_paths paths ≡ []) × (o ≡ u))
          ⊎ ((expand_leaf_paths paths ≢ []) × IsAwaited o payload (expand_leaf_paths paths) u))

  -- How Update ends that began in `o`.
  abbrev pub UpdateHolds : W → Option (Updated M W) → Type 0
  UpdateHolds o none = ⊥
  UpdateHolds o (some crashed) = ⊥
  UpdateHolds o (some (updated ds none s)) = errors ds ≢ 0
  UpdateHolds o (some (updated ds (some m) s)) =
      (ds ≡ [])
      × (u : W) × (cl : C) × IsApplied o u
      × (updater.cluster_for_id updater.id u ≡ (reply cl, s))
      × (updater.flatten cl ≡ inl m)

  reread-holds :
      (o u : W) (r : Reply C × W)
      → IsApplied o u
      → updater.cluster_for_id updater.id u ≡ r
      → UpdateHolds o (reread updater initial most r)
  reread-holds o u (refused err, s) applied e = λ d. cc
  reread-holds o u (reply cl, s) applied e = flat (updater.flatten cl) refl
    where
      flat :
          (f : M ⊎ Failure)
          → updater.flatten cl ≡ f
          → UpdateHolds o (flattened updater initial most f s)
      flat (inl m) h = (refl, u, cl, applied, e, h)
      flat (inr failure) h = errors-append (diagnostics failure) _ _ []

  module _ (clock : IsServerClock updater.server) (sane : IsSane initial most) (o : W) (payload : Q)
      (paths : List Text) (asked : updater.request ≡ inl (payload, paths)) where
    waited-holds :
        (op : Option Operation) (s : W) (timeout : ℕ)
        → expand_leaf_paths paths ≢ []
        → updater.update_cluster payload (expand_leaf_paths paths) o ≡ (reply op, s)
        → updater.update_timeout ≡ inl timeout
        → UpdateHolds o (
            waited updater initial most
              (are_we_done_yet updater.server timeout initial most (timeout + 2) op s))
    waited-holds op s timeout there taken given =
        let (r, p, e, h) = are_we_done_yet_ends updater.server timeout clock op s sane in
        rw e (ended r p e h)
      where
        ended :
            (r : RetryResult) (p : Poll W)
            → are_we_done_yet updater.server timeout initial most (timeout + 2) op s ≡ some (r, p)
            → Concludes updater.server timeout clock op s (updater.server.world.now s + timeout) r p
            → UpdateHolds o (waited updater initial most (some (r, p)))
        ended succeeded p e (since, last_op, s', polled, answer, is_done) =
            reread-holds o p.outside (updater.cluster_for_id updater.id p.outside)
              (
                payload,
                paths,
                asked,
                inr (there, (op, s, timeout, p, taken, given, e, is_done, refl)),
              )
              refl
        ended (gave_up err) p e h = λ d. cc
        ended (timed_out t err) p e h = λ d. cc
        ended (cancelled err) p e h = λ d. cc
        ended panicked p e h = absurd h

    sent-holds :
        (r : Reply (Option Operation) × W)
        → expand_leaf_paths paths ≢ []
        → updater.update_cluster payload (expand_leaf_paths paths) o ≡ r
        → UpdateHolds o (sent updater initial most r)
    sent-holds (refused err, s) there e = λ d. cc
    sent-holds (reply op, s) there e = timely updater.update_timeout refl
      where
        timely :
            (t : ℕ ⊎ Failure)
            → updater.update_timeout ≡ t
            → UpdateHolds o (timed updater initial most t op s)
        timely (inl timeout) given = waited-holds op s timeout there e given
        timely (inr failure) given = errors-append failure.before _ _ failure.after

    masked-holds :
        (qs : List Text)
        → expand_leaf_paths paths ≡ qs
        → UpdateHolds o (masked updater initial most payload qs o)
    masked-holds [] e =
        reread-holds o o (updater.cluster_for_id updater.id o)
          (payload, paths, asked, inl (e, refl)) refl
    masked-holds (q ∷ qs) e =
        sent-holds (updater.update_cluster payload (q ∷ qs) o) (λ none_left. cc)
          (ap (λ ps. updater.update_cluster payload ps o) e)

  -- Where the clock does not go back, random numbers are below their bound, a wait that is not
  -- cancelled lasts, and both wait units are from two nanoseconds to below 2^62, Update returns and
  -- does not panic. If it stores nothing, it reports an error. If it stores a model, it reports
  -- nothing, and the model is that of the cluster that the control plane answered last, in the state
  -- in which the handler began where the expanded mask has no path, and else in the state in which
  -- the wait succeeded for the operation that the control plane gave when it took that mask.
  pub update_resource-holds :
      (o : W)
      → IsServerClock updater.server
      → IsSane initial most
      → UpdateHolds o (update_resource updater initial most o)
  unfolding update_resource
  update_resource-holds o clock sane = by_request updater.request refl
    where
      by_request :
          (r : (Q × List Text) ⊎ Failure)
          → updater.request ≡ r
          → UpdateHolds o (requested updater initial most r o)
      by_request (inr failure) e = errors-append failure.before _ _ failure.after
      by_request (inl (payload, paths)) e =
          masked-holds clock sane o payload paths e (expand_leaf_paths paths) refl
