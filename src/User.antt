-- ===== src/User.antt =====
-- User.Create of redpanda/resources/user/resource_user.go; the other handlers are in the modules below.
-- The service of users is a parameter.
mod Tests
mod Model
mod Service
mod Delete
mod Read
mod Update
mod Mechanism
use terraform_provider_redpa.Base.{
  ℕ, zero, suc, ◌+◌, ◌-◌, ◌*◌, ◌/◌, ◌%◌, ◌^◌, ◌≤◌, ◌<◌, ◌≡◌, refl, sym, ap, ◌∙◌, ◌≢◌, ◌↔◌, ◌⊎◌, inl,
  inr, Bool, true, false, not, ◌&&◌, ◌||◌, Option, none, some, List, [], ◌∷◌, ◌++◌, map, arith, ltb,
  leb, ◌==◌, if◌then◌else◌, ltb→lt, ==_iff, ==_refl, Bool-cases, is_some, Option-cases, length,
  drop, length-append, length-drop, drop-append, All, All-append, Text, codes, same, is_empty,
  strip, has_prefix, or_else, trim_prefix, trim_suffix, contains, to_lower, cut, split, trim_func,
  trim_space, trim_quotes, join, same_sound, same_refl, same_iff, strip-append, strip_sound,
  has_prefix-append, trim_prefix-append, contains-append_middle, to_lower-append, Dict, lookup,
  insert, delete, lookup-insert, lookup-delete, HasDistinctKeys, ℤ, pos, negsuc, atoi,
  insert-HasDistinctKeys, delete-HasDistinctKeys,
}
use terraform_provider_redpa.Errors.{
  GoError, Reply, reply, refused, is_already_exists, is_unavailable, deserialize_grpc_error,
}
use terraform_provider_redpa.Removal.{Diagnostic, error_diag}
use terraform_provider_redpa.Removal.Laws.{errors}
use terraform_provider_redpa.Retry.{World, retry, retry_loop, round}
use terraform_provider_redpa.Retry.Round.{IsSane}
use terraform_provider_redpa.Retry.Attempt.{
  Verdict, done, again, fail, Outcome, yields, fails, panics, retry_attempt, closure,
  IsAttemptClock,
}
use terraform_provider_redpa.Retry.Attempt.Ends.{Ended, retry_attempt_ends}
use terraform_provider_redpa.Values.{value_string}
use terraform_provider_redpa.User.Model.{
  UserModel, UserResponse, CreateUserRequest, flatten_user, expand_create_user,
}
use terraform_provider_redpa.User.Service.{Users, IsUsersClock}
use terraform_provider_redpa.Topic.Handler.{dataplane_timeout, dataplane_timeout_text}

-- The diagnostics, and the state if one is stored.
pub data Created (W : Type 0) : Type 0 where
  created : List Diagnostic → Option UserModel → W → Created W
  crashed : Created W

module _ {W : Type 0} (users : Users W) (plan cfg : UserModel) where
  -- The plan, with the write-only password of the configuration, which a plan does not hold.
  abbrev pub planned : UserModel
  planned = record plan { password_wo = cfg.password_wo }

  abbrev pub requested_user : W → Reply UserResponse × W
  requested_user o = users.create_user (expand_create_user users.sasl_mechanism_value planned) o

  abbrev pub looked_up : W → Reply UserResponse × W
  looked_up o = users.find_user (value_string plan.name) o

  -- An existing user is taken over.
  abbrev adopted : Verdict UserResponse → Reply UserResponse × W → Verdict UserResponse × W
  adopted otherwise (reply u, o) = (done u, o)
  adopted otherwise (refused find_err, o) = (otherwise, o)

  abbrev user_judged : Reply UserResponse × W → Verdict UserResponse × W
  user_judged (reply u, o) = (done u, o)
  user_judged (refused err, o) =
      if is_already_exists (some err)
      then adopted (fail err) (looked_up o)
      else if is_unavailable (some err)
      then adopted (again err) (looked_up o)
      else (fail err, o)

  unfoldable pub user_attempt : W → Verdict UserResponse × W
  user_attempt o = user_judged (requested_user o)

  abbrev uncreated : Text → GoError → W → Created W
  uncreated summary err o =
      created (error_diag summary (deserialize_grpc_error (some err)) ∷ []) none o

  abbrev concluded : Option (Outcome UserResponse × W) → Option (Created W)
  concluded none = none
  concluded (some (yields u, o)) = some (created [] (some (flatten_user u planned)) o)
  concluded (some (fails err, o)) = some (uncreated (codes "failed to create user") err o)
  concluded (some (panics, o)) = some crashed

  module _ (initial most : ℕ) where
    abbrev user_connected : W × Option GoError → Option (Created W)
    user_connected (o, some err) = some (uncreated (codes "failed to create user client") err o)
    user_connected (o, none) = concluded (
        retry_attempt users.world user_attempt dataplane_timeout_text dataplane_timeout initial most
          (dataplane_timeout + 2) o)

    -- Create; `none` means that the fuel of the retried call ran out.
    unfoldable pub create_user_resource : W → Option (Created W)
    create_user_resource o =
        user_connected (users.create_user_client (value_string plan.cluster_api_url) o)

  -- The user was created, or was found after an error that reads as already existing or as
  -- unavailable.
  abbrev pub IsObtained : UserResponse → Type 0
  IsObtained u =
      ((o : W) × (s : W) × (requested_user o ≡ (reply u, s)))
      ⊎ ((err : GoError) × (o : W) × (o' : W) × (s : W) × (requested_user o ≡ (refused err, o'))
          × ((is_already_exists (some err) ≡ true) ⊎ (is_unavailable (some err) ≡ true))
          × (looked_up o' ≡ (reply u, s)))

  user_attempt-IsAttemptClock : IsUsersClock users → IsAttemptClock users.world user_attempt
  unfolding user_attempt
  user_attempt-IsAttemptClock clock = record {
    attempt_later = λ o. judged (requested_user o) (clock.create_later _ o);
    rand_later = clock.rand_later;
    rand_below = clock.rand_below;
    wait_lasts = clock.wait_lasts;
  }
    where
      looked :
          {start : ℕ} (v : Verdict UserResponse) (q : Reply UserResponse × W)
          → start ≤ users.world.now q.1
          → start ≤ users.world.now (adopted v q).1
      looked v (reply u, o) h = h
      looked v (refused e, o) h = h

      judged :
          {start : ℕ} (q : Reply UserResponse × W)
          → start ≤ users.world.now q.1
          → start ≤ users.world.now (user_judged q).1
      judged (reply u, o) h = h
      judged {start} (refused err, o) h =
          let later : start ≤ users.world.now (looked_up o).1 =
            let step = clock.find_later (value_string plan.name) o in omega arith in
          elim (Bool-cases (is_already_exists (some err))) [
            | inl there ↦ rw there (looked (fail err) (looked_up o) later)
            | inr absent ↦ elim (Bool-cases (is_unavailable (some err))) [
              | inl transient ↦ rw (absent, transient) (looked (again err) (looked_up o) later)
              | inr final ↦ rw (absent, final) h
            ]
          ]

  user_attempt-done : (u : UserResponse) (o s : W) → user_attempt o ≡ (done u, s) → IsObtained u
  unfolding user_attempt
  user_attempt-done u o s e = judged (requested_user o) refl e
    where
      found :
          (err : GoError) (o' : W) (v : Verdict UserResponse)
          → requested_user o ≡ (refused err, o')
          → (is_already_exists (some err) ≡ true) ⊎ (is_unavailable (some err) ≡ true)
          → ((w : UserResponse) → v ≢ done w)
          → (q : Reply UserResponse × W) → looked_up o' ≡ q
          → adopted v q ≡ (done u, s)
          → IsObtained u
      found err o' v h why other (reply w, s') f e = inr (err, o, o', s', h, why, cc)
      found err o' v h why other (refused find_err, s') f e =
          let same_verdict : v ≡ done u = cc in absurd (other u same_verdict)

      judged :
          (q : Reply UserResponse × W)
          → requested_user o ≡ q
          → user_judged q ≡ (done u, s)
          → IsObtained u
      judged (reply w, o') h e = inl (o, o', cc)
      judged (refused err, o') h e = elim (Bool-cases (is_already_exists (some err))) [
        | inl there ↦
            found err o' (fail err) h (inl there) (λ w d. cc) (looked_up o') refl (rw there at e)
        | inr absent ↦ elim (Bool-cases (is_unavailable (some err))) [
          | inl transient ↦
              found err o' (again err) h (inr transient) (λ w d. cc) (looked_up o') refl
                (rw (absent, transient) at e)
          | inr final ↦ absurd (bad (rw (absent, final) at e))
        ]
      ]
        where
          bad : ◌≡◌ {A = Verdict UserResponse × W} (fail err, o') (done u, s) → ⊥
          bad e = cc

  abbrev pub UserExplained : Option (Created W) → Type 0
  UserExplained none = ⊥
  UserExplained (some crashed) = ⊥
  UserExplained (some (created ds none s)) = errors ds ≢ 0
  UserExplained (some (created ds (some m) s)) =
      (ds ≡ []) × (u : UserResponse) × (m ≡ flatten_user u planned) × IsObtained u

  -- Where the clock does not go back, random numbers are below their bound, a wait that is not
  -- cancelled lasts, and both wait units are from two nanoseconds to below 2^62, Create returns and
  -- does not panic. If it stores nothing, it reports an error; if it stores a state, it reports
  -- nothing, and the state is the plan with a user that the service created for the plan's name,
  -- effective password and mechanism, or that it found by the plan's name after an error of the
  -- creation that reads as already existing or as unavailable.
  pub create_user_resource-Explained :
      {initial most : ℕ} (o : W)
      → IsUsersClock users
      → IsSane initial most
      → UserExplained (create_user_resource initial most o)
  unfolding create_user_resource
  create_user_resource-Explained {initial} {most} o clock sane =
      connected (users.create_user_client (value_string plan.cluster_api_url) o)
    where
      connected : (r : W × Option GoError) → UserExplained (user_connected initial most r)
      connected (s, some err) = λ e. cc
      connected (s, none) =
          let (r, s', e, h) =
            retry_attempt_ends users.world user_attempt dataplane_timeout_text dataplane_timeout s
              (user_attempt-IsAttemptClock clock) sane in
          rw e (ended r s' h)
        where
          ended :
              (r : Outcome UserResponse) (s' : W)
              → Ended users.world user_attempt dataplane_timeout_text
                  (users.world.now s + dataplane_timeout)
                  r
                  s'
              → UserExplained (concluded (some (r, s')))
          ended (yields u) s' (o', e) = (refl, u, refl, user_attempt-done u o' s' e)
          ended (fails err) s' h = λ e. cc
          ended panics s' h = absurd h
