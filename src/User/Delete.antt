-- ===== src/User/Delete.antt =====
-- User.Delete of redpanda/resources/user/resource_user.go.
use terraform_provider_redpa.Base.{
  ℕ, ◌≡◌, refl, ◌≢◌, ◌⊎◌, inl, inr, not, ◌&&◌, Option, none, some, List, [], ◌∷◌, if◌then◌else◌,
  Text, codes,
}
use terraform_provider_redpa.Errors.{GoError, Reply, reply}
use terraform_provider_redpa.Values.{is_null, value_bool, value_string}
use terraform_provider_redpa.Removal.{Diagnostic, error_diag, handle_graceful_removal}
use terraform_provider_redpa.Removal.Laws.{IsGone, MayLeave, errors, remove_iff, error_iff_kept}
use terraform_provider_redpa.Retry.Round.{IsSane}
use terraform_provider_redpa.Topic.Handler.{
  Kept, untouched, Response, answered, retried, Returns, Accepted,
}
use terraform_provider_redpa.Topic.Retried.{Failed, retried-Returns}
use terraform_provider_redpa.Topic.Delete.{may_leave}
use terraform_provider_redpa.User.Model.{UserModel}
use terraform_provider_redpa.User.Service.{
  Users, IsUsersClock, unless_unavailable, unless_unavailable-done, unless_unavailable-clock,
}

module _ {W : Type 0} (users : Users W) (model : UserModel) where
  abbrev user_dropped : W → Reply Accepted × W
  user_dropped o = users.delete_user (value_string model.name) o

  -- The diagnostics of HandleGracefulRemoval; what it says of the state is not asked.
  abbrev user_told : Text → GoError → List Diagnostic
  user_told operation err =
      (handle_graceful_removal (codes "user") (value_string model.name) model.allow_deletion
        (some err) operation).1

  abbrev user_untold : Accepted → W → Option (Response UserModel W)
  user_untold a o = some (answered [] untouched o)

  abbrev undropped : GoError → W → Option (Response UserModel W)
  undropped err o = some (answered (user_told (codes "delete user") err) untouched o)

  module _ (initial most : ℕ) where
    abbrev drop_connected : W × Option GoError → Option (Response UserModel W)
    drop_connected (o, some err) =
        some (answered (user_told (codes "create user client") err) untouched o)
    drop_connected (o, none) =
        retried users.world initial most (λ s. unless_unavailable (user_dropped s)) o user_untold
          undropped

    -- Delete; without an error among the diagnostics Terraform drops the resource.
    unfoldable pub delete_user_resource : W → Option (Response UserModel W)
    delete_user_resource o =
        if not (is_null model.allow_deletion) && not (value_bool model.allow_deletion)
        then some (
            answered
              (error_diag (codes "user deletion not allowed")
                  (codes "allow_deletion is set to false")
                ∷ [])
              untouched o)
        else drop_connected (users.create_user_client (value_string model.cluster_api_url) o)

  -- The service deleted the user, or an error after which HandleGracefulRemoval lets the resource
  -- leave.
  abbrev pub IsDropped : W → Type 0
  IsDropped s =
      ((a : Accepted) × (o : W) × (user_dropped o ≡ (reply a, s)))
      ⊎ ((err : GoError) × IsGone (some err)
          × (((o : W) × (users.create_user_client (value_string model.cluster_api_url) o
                  ≡ (s, some err)))
              ⊎ Failed users.world (λ o. unless_unavailable (user_dropped o)) err s))

  abbrev pub DropExplained : List Diagnostic → Kept UserModel → W → Type 0
  DropExplained ds kept s =
      (kept ≡ untouched) × ((errors ds ≢ 0) ⊎ (MayLeave model.allow_deletion × IsDropped s))

  user_told-IsGone :
      (operation : Text) (err : GoError)
      → (errors (user_told operation err) ≢ 0) ⊎ (IsGone (some err) × MayLeave model.allow_deletion)
  user_told-IsGone operation err =
      elim (error_iff_kept (codes "user") (value_string model.name) model.allow_deletion (some err)
        operation) [
          | inl (left, zero_errors, h) ↦ inr (
              (remove_iff (codes "user") (value_string model.name) model.allow_deletion (some err)
                  operation).0
                left)
          | inr (stays, one, h) ↦ inl (λ e. cc)
        ]

  -- Where the clock does not go back, random numbers are below their bound, a wait that is not
  -- cancelled lasts, and both wait units are from two nanoseconds to below 2^62, Delete returns and
  -- does not panic. It leaves the state alone, and reports an error, or else allow_deletion is null
  -- or true, and the last thing that happened is that the service deleted the user, or that the
  -- client or the retried call gave an error that reads as not found, as an unreachable cluster or
  -- as a refused permission.
  pub delete_user_resource-Returns :
      {initial most : ℕ} (o : W)
      → IsUsersClock users
      → IsSane initial most
      → Returns DropExplained (delete_user_resource initial most o)
  unfolding delete_user_resource
  delete_user_resource-Returns {initial} {most} o clock sane =
      elim (may_leave model.allow_deletion) [
        | inl (blocked, h) ↦ rw blocked (refl, inl (λ e. cc))
        | inr (allowed, h) ↦
            rw allowed
              (connected h (users.create_user_client (value_string model.cluster_api_url) o) refl)
      ]
    where
      left :
          (operation : Text) (err : GoError) (s : W)
          → (IsGone (some err) → IsDropped s)
          → DropExplained (user_told operation err) untouched s
      left operation err s after = elim (user_told-IsGone operation err) [
        | inl reported ↦ (refl, inl reported)
        | inr (gone, allowed) ↦ (refl, inr (allowed, after gone))
      ]

      connected :
          MayLeave model.allow_deletion
          → (r : W × Option GoError)
          → users.create_user_client (value_string model.cluster_api_url) o ≡ r
          → Returns DropExplained (drop_connected initial most r)
      connected allowed (s, some err) e =
          left (codes "create user client") err s (λ gone. inr (err, gone, inl (o, e)))
      connected allowed (s, none) e =
          retried-Returns users.world initial most DropExplained _ s _ _
            (unless_unavailable-clock users user_dropped clock
              (λ t. clock.delete_later (value_string model.name) t))
            sane
            (λ a o' s' h.
              (refl, inr (allowed, inl (a, o', unless_unavailable-done (user_dropped o') a s' h))))
            (λ err s' h. left (codes "delete user") err s' (λ gone. inr (err, gone, inr h)))
