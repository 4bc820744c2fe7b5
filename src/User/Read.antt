-- ===== src/User/Read.antt =====
-- User.Read of redpanda/resources/user/resource_user.go.
use terraform_provider_redpa.Base.{
  ℕ, ◌≡◌, refl, sym, ◌≢◌, ◌⊎◌, inl, inr, Option, none, some, List, [], Text, codes,
}
use terraform_provider_redpa.Errors.{GoError, Reply, reply}
use terraform_provider_redpa.Values.{value_string}
use terraform_provider_redpa.Removal.{
  RemovalAction, remove_from_state, keep_in_state, error_not_handled, Diagnostic,
  handle_graceful_removal,
}
use terraform_provider_redpa.Removal.Laws.{IsGone, MayLeave, errors, remove_iff, error_iff_kept}
use terraform_provider_redpa.Retry.Round.{IsSane}
use terraform_provider_redpa.Topic.Handler.{
  Kept, untouched, removed, stored, Response, answered, retried, Returns,
}
use terraform_provider_redpa.Topic.Retried.{Failed, retried-Returns}
use terraform_provider_redpa.User.Model.{UserModel, UserResponse, flatten_user}
use terraform_provider_redpa.User.Service.{
  Users, IsUsersClock, unless_unavailable, unless_unavailable-done, unless_unavailable-clock,
}

module _ {W : Type 0} (users : Users W) (model : UserModel) where
  abbrev user_asked : W → Reply UserResponse × W
  user_asked o = users.find_user (value_string model.name) o

  abbrev kept_user : RemovalAction → Kept UserModel
  kept_user remove_from_state = removed
  kept_user keep_in_state = untouched
  kept_user error_not_handled = untouched

  abbrev user_removal : Text → GoError → RemovalAction × List Diagnostic
  user_removal operation err =
      handle_graceful_removal (codes "user") (value_string model.name) model.allow_deletion
        (some err) operation

  abbrev user_gone : Text → GoError → W → Option (Response UserModel W)
  user_gone operation err o =
      some (answered (user_removal operation err).1 (kept_user (user_removal operation err).0) o)

  abbrev user_found : UserResponse → W → Option (Response UserModel W)
  user_found u o = some (answered [] (stored (flatten_user u model)) o)

  module _ (initial most : ℕ) where
    abbrev read_connected : W × Option GoError → Option (Response UserModel W)
    read_connected (o, some err) = user_gone (codes "create user client") err o
    read_connected (o, none) =
        retried users.world initial most (λ s. unless_unavailable (user_asked s)) o user_found
          (user_gone (codes "find user"))

    unfoldable pub read_user_resource : W → Option (Response UserModel W)
    read_user_resource o =
        read_connected (users.create_user_client (value_string model.cluster_api_url) o)

  -- An error of the client, or of the retried search for the user.
  abbrev pub ReadError : GoError → Type 0
  ReadError err =
      ((o : W) × (s : W) × (users.create_user_client (value_string model.cluster_api_url) o
          ≡ (s, some err)))
      ⊎ ((s : W) × Failed users.world (λ o. unless_unavailable (user_asked o)) err s)

  abbrev pub ReadExplained : List Diagnostic → Kept UserModel → W → Type 0
  ReadExplained ds untouched s = errors ds ≢ 0
  ReadExplained ds removed s =
      (errors ds ≡ 0)
      × ((err : GoError) × IsGone (some err) × MayLeave model.allow_deletion × ReadError err)
  ReadExplained ds (stored m) s =
      (ds ≡ [])
      × (u : UserResponse) × (o : W) × (user_asked o ≡ (reply u, s))
      × (m ≡ flatten_user u model)

  user_gone-Returns :
      (operation : Text) (err : GoError) (s : W)
      → ReadError err
      → Returns ReadExplained (user_gone operation err s)
  user_gone-Returns operation err s e = settled (user_removal operation err).0 refl
    where
      settled :
          (a : RemovalAction)
          → (user_removal operation err).0 ≡ a
          → ReadExplained (user_removal operation err).1 (kept_user a) s
      settled a same_action =
          elim (error_iff_kept (codes "user") (value_string model.name) model.allow_deletion
            (some err) operation) [
              | inl (left, no_error, h) ↦
                  let (gone, allowed) =
                    (remove_iff (codes "user") (value_string model.name) model.allow_deletion
                        (some err) operation).0
                      left in
                  rw (sym same_action, left) (no_error, (err, gone, allowed, e))
              | inr (stays, one, h) ↦ other a same_action stays one
            ]
        where
          other :
              (a : RemovalAction)
              → (user_removal operation err).0 ≡ a
              → (user_removal operation err).0 ≢ remove_from_state
              → errors (user_removal operation err).1 ≡ 1
              → ReadExplained (user_removal operation err).1 (kept_user a) s
          other remove_from_state e stays one = absurd (stays e)
          other keep_in_state e stays one = λ e. cc
          other error_not_handled e stays one = λ e. cc

  -- Where the clock does not go back, random numbers are below their bound, a wait that is not
  -- cancelled lasts, and both wait units are from two nanoseconds to below 2^62, Read returns and
  -- does not panic. If it leaves the state alone, it reports an error. If it removes the resource,
  -- it reports none, allow_deletion is null or true, and the client or the retried search for the
  -- user gave an error that reads as not found, as an unreachable cluster or as a refused
  -- permission. If it stores a state, there is no diagnostic, and the state is that of a user that
  -- the search found.
  pub read_user_resource-Returns :
      {initial most : ℕ} (o : W)
      → IsUsersClock users
      → IsSane initial most
      → Returns ReadExplained (read_user_resource initial most o)
  unfolding read_user_resource
  read_user_resource-Returns {initial} {most} o clock sane =
      connected (users.create_user_client (value_string model.cluster_api_url) o) refl
    where
      connected :
          (r : W × Option GoError)
          → users.create_user_client (value_string model.cluster_api_url) o ≡ r
          → Returns ReadExplained (read_connected initial most r)
      connected (s, some err) e =
          user_gone-Returns (codes "create user client") err s (inl (o, s, e))
      connected (s, none) e =
          retried-Returns users.world initial most ReadExplained _ s _ _
            (unless_unavailable-clock users user_asked clock
              (λ t. clock.find_later (value_string model.name) t))
            sane (λ u o' s' h. (refl, u, o', unless_unavailable-done (user_asked o') u s' h, refl))
            (λ err s' h. user_gone-Returns (codes "find user") err s' (inr (s', h)))
