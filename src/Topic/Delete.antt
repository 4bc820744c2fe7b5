-- ===== src/Topic/Delete.antt =====
-- Topic.Delete of redpanda/resources/topic/resource_topic.go.
use terraform_provider_redpa.Base.{
  ℕ, ◌≤◌, ◌≡◌, refl, ◌≢◌, ◌⊎◌, inl, inr, Bool, true, false, not, ◌&&◌, Option, none, some, List, [],
  ◌∷◌, ◌++◌, arith, if◌then◌else◌, Bool-cases, Text, codes,
}
use terraform_provider_redpa.Errors.{GoError, Reply, reply, refused}
use terraform_provider_redpa.Values.{
  TfValue, null, unknown, known, is_null, value_bool, value_string,
}
use terraform_provider_redpa.Removal.{Diagnostic, error_diag, handle_graceful_removal}
use terraform_provider_redpa.Removal.Laws.{IsGone, MayLeave, errors, remove_iff, error_iff_kept}
use terraform_provider_redpa.Retry.Attempt.{Verdict, done, IsAttemptClock}
use terraform_provider_redpa.Retry.Round.{IsSane}
use terraform_provider_redpa.Topic.Model.{TopicModel, is_topic_not_found}
use terraform_provider_redpa.Topic.Handler.{
  Broker, IsBrokerClock, Kept, untouched, Response, answered, unless_transient, retried, Returns,
  Accepted, accepted,
}
use terraform_provider_redpa.Topic.Retried.{
  Failed, retried-Returns, unless_transient-done, unless_transient-later,
}

-- The guard on allow_deletion holds, or the resource may leave.
pub may_leave :
    (a : TfValue Bool)
    → (((not (is_null a) && not (value_bool a)) ≡ true) × ¬ MayLeave a)
      ⊎ (((not (is_null a) && not (value_bool a)) ≡ false) × MayLeave a)
may_leave null = inr (refl, inl refl)
may_leave unknown = inl (refl, λ h. ground arith)
may_leave (known true) = inr (refl, inr refl)
may_leave (known false) = inl (refl, λ h. ground arith)

module _ {A W : Type 0} (broker : Broker A W) (model : TopicModel A) where
  abbrev pub topic_name : Text
  topic_name = value_string model.name

  -- A topic that is gone already counts as deleted.
  abbrev deletion_judged : Reply Accepted × W → Verdict Accepted × W
  deletion_judged (reply a, o) = (done a, o)
  deletion_judged (refused err, o) =
      if is_topic_not_found err then (done accepted, o) else unless_transient (refused err, o)

  unfoldable pub deletion_attempt : W → Verdict Accepted × W
  deletion_attempt o = deletion_judged (broker.delete_topic topic_name o)

  -- The diagnostics of HandleGracefulRemoval; what it says of the state is not asked.
  abbrev pub told : Text → GoError → List Diagnostic
  told operation err =
      (handle_graceful_removal (codes "topic") topic_name model.allow_deletion (some err)
        operation).1

  abbrev deleted : Accepted → W → Option (Response (TopicModel A) W)
  deleted a o = some (answered [] untouched o)

  abbrev undeleted : GoError → W → Option (Response (TopicModel A) W)
  undeleted err o = some (answered (told (codes "delete topic") err) untouched o)

  module _ (initial most : ℕ) where
    abbrev deletion_connected : W × Option GoError → Option (Response (TopicModel A) W)
    deletion_connected (o, some err) =
        some (answered (told (codes "create topic client") err) untouched o)
    deletion_connected (o, none) =
        retried broker.world initial most deletion_attempt o deleted undeleted

    -- Delete; without an error among the diagnostics Terraform drops the resource.
    unfoldable pub delete_topic_resource : W → Option (Response (TopicModel A) W)
    delete_topic_resource o =
        if not (is_null model.allow_deletion) && not (value_bool model.allow_deletion)
        then some (
            answered
              (error_diag (codes "topic " ++ (topic_name ++ codes " does not allow deletion"))
                  (codes "allow_deletion is set to false")
                ∷ [])
              untouched o)
        else deletion_connected (broker.create_topic_client (value_string model.cluster_api_url) o)

  -- The service deleted the topic, or answered that there is none.
  abbrev pub SaidDeleted : Type 0
  SaidDeleted =
      ((a : Accepted) × (o : W) × (s : W) × (broker.delete_topic topic_name o ≡ (reply a, s)))
      ⊎ ((err : GoError) × (o : W) × (s : W) × (broker.delete_topic topic_name o ≡ (refused err, s))
          × (is_topic_not_found err ≡ true))

  -- An error after which HandleGracefulRemoval lets the resource leave.
  abbrev pub LeftAfter : GoError → Type 0
  LeftAfter err =
      IsGone (some err)
      × (((o : W) × (s : W) × (broker.create_topic_client (value_string model.cluster_api_url) o
              ≡ (s, some err)))
          ⊎ ((s : W) × Failed broker.world deletion_attempt err s))

  abbrev pub DeletionExplained : List Diagnostic → Kept (TopicModel A) → W → Type 0
  DeletionExplained ds kept o =
      (kept ≡ untouched)
      × ((errors ds ≢ 0)
          ⊎ (MayLeave model.allow_deletion × (SaidDeleted ⊎ ((err : GoError) × LeftAfter err))))

  told-IsGone :
      (operation : Text) (err : GoError)
      → (errors (told operation err) ≢ 0) ⊎ (IsGone (some err) × MayLeave model.allow_deletion)
  told-IsGone operation err =
      elim (error_iff_kept (codes "topic") topic_name model.allow_deletion (some err) operation) [
        | inl (left, zero_errors, h) ↦ inr (
            (remove_iff (codes "topic") topic_name model.allow_deletion (some err) operation).0
              left)
        | inr (stays, one, h) ↦ inl (λ e. cc)
      ]

  deletion_attempt-done : (a : Accepted) (o s : W) → deletion_attempt o ≡ (done a, s) → SaidDeleted
  unfolding deletion_attempt
  deletion_attempt-done a o s e = judged (broker.delete_topic topic_name o) refl e
    where
      judged :
          (r : Reply Accepted × W)
          → broker.delete_topic topic_name o ≡ r
          → deletion_judged r ≡ (done a, s)
          → SaidDeleted
      judged (reply x, o') h e = inl (x, o, o', h)
      judged (refused err, o') h e = elim (Bool-cases (is_topic_not_found err)) [
        | inl gone ↦ inr (err, o, o', h, gone)
        | inr other ↦
            let impossible = unless_transient-done (refused err, o') a s (rw other at e) in
            absurd (cc)
      ]

  deletion_attempt-clock : IsBrokerClock broker → IsAttemptClock broker.world deletion_attempt
  unfolding deletion_attempt
  deletion_attempt-clock clock = record {
    attempt_later =
        λ o. judged (broker.delete_topic topic_name o) (clock.delete_later topic_name o);
    rand_later = clock.rand_later;
    rand_below = clock.rand_below;
    wait_lasts = clock.wait_lasts;
  }
    where
      judged :
          {start : ℕ} (r : Reply Accepted × W)
          → start ≤ broker.world.now r.1
          → start ≤ broker.world.now (deletion_judged r).1
      judged (reply a, o) h = h
      judged (refused err, o) h = elim (Bool-cases (is_topic_not_found err)) [
        | inl gone ↦ rw gone h
        | inr other ↦ rw other (unless_transient-later broker.world _ (refused err, o) h)
      ]

  -- Where the clock does not go back, random numbers are below their bound, a wait that is not
  -- cancelled lasts, and both wait units are from two nanoseconds to below 2^62, Delete returns and
  -- does not panic. It leaves the state alone, and reports an error, or else allow_deletion is null
  -- or true, and the service deleted the topic, or answered that there is none, or there was an
  -- error of the client or of the retried call that reads as not found, as an unreachable cluster or
  -- as a refused permission.
  pub delete_topic_resource-Returns :
      {initial most : ℕ} (o : W)
      → IsBrokerClock broker
      → IsSane initial most
      → Returns DeletionExplained (delete_topic_resource initial most o)
  unfolding delete_topic_resource
  delete_topic_resource-Returns {initial} {most} o clock sane =
      elim (may_leave model.allow_deletion) [
        | inl (blocked, h) ↦ rw blocked (refl, inl (λ e. cc))
        | inr (allowed, h) ↦
            rw allowed
              (connected h (broker.create_topic_client (value_string model.cluster_api_url) o) refl)
      ]
    where
      left :
          (operation : Text) (err : GoError)
          → (IsGone (some err) → LeftAfter err)
          → (s : W) → DeletionExplained (told operation err) untouched s
      left operation err after s = elim (told-IsGone operation err) [
        | inl reported ↦ (refl, inl reported)
        | inr (gone, allowed) ↦ (refl, inr (allowed, inr (err, after gone)))
      ]

      connected :
          MayLeave model.allow_deletion
          → (r : W × Option GoError)
          → broker.create_topic_client (value_string model.cluster_api_url) o ≡ r
          → Returns DeletionExplained (deletion_connected initial most r)
      connected allowed (s, some err) e =
          left (codes "create topic client") err (λ gone. (gone, inl (o, s, e))) s
      connected allowed (s, none) e =
          retried-Returns broker.world initial most DeletionExplained deletion_attempt s _ _
            (deletion_attempt-clock clock) sane
            (λ a o' s' h. (refl, inr (allowed, inl (deletion_attempt-done a o' s' h))))
            (λ err s' h. left (codes "delete topic") err (λ gone. (gone, inr (s', h))) s')
