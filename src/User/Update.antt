-- ===== src/User/Update.antt =====
-- User.Update of redpanda/resources/user/resource_user.go, and ExpandUpdate of
-- redpanda/models/user/conv_gen.go.
use terraform_provider_redpa.Base.{
  ℕ, ◌≡◌, refl, ap, ◌≢◌, ◌⊎◌, inl, inr, Bool, true, false, ◌&&◌, Option, none, some, List, [],
  arith, ◌==◌, if◌then◌else◌, ==_iff, ==_refl, Bool-cases, Text, codes, same, same_sound, same_refl,
  ℤ, pos, negsuc,
}
use terraform_provider_redpa.Errors.{GoError, Reply, reply}
use terraform_provider_redpa.Values.{TfValue, null, unknown, known, value_string}
use terraform_provider_redpa.Removal.{Diagnostic}
use terraform_provider_redpa.Removal.Laws.{errors}
use terraform_provider_redpa.Retry.Round.{IsSane}
use terraform_provider_redpa.Topic.Handler.{
  Kept, untouched, removed, stored, Response, answered, retried, Returns, failure,
}
use terraform_provider_redpa.Topic.Retried.{retried-Returns}
use terraform_provider_redpa.User.{planned}
use terraform_provider_redpa.User.Model.{UserModel, UserResponse, flatten_user, expand_update_user}
use terraform_provider_redpa.User.Service.{
  Users, IsUsersClock, unless_unavailable, unless_unavailable-done, unless_unavailable-clock,
}

-- `Equal` on values, by the equality of what they hold.
abbrev equal_values {ℓ} : {A : Type ℓ} → (A → A → Bool) → TfValue A → TfValue A → Bool
equal_values eq (known a) (known b) = eq a b
equal_values eq null null = true
equal_values eq unknown unknown = true
equal_values eq (known a) null = false
equal_values eq (known a) unknown = false
equal_values eq null (known b) = false
equal_values eq null unknown = false
equal_values eq unknown (known b) = false
equal_values eq unknown null = false

abbrev same_integer : ℤ → ℤ → Bool
same_integer (pos m) (pos n) = m == n
same_integer (negsuc m) (negsuc n) = m == n
same_integer (pos m) (negsuc n) = false
same_integer (negsuc m) (pos n) = false

same_integer_sound : (m n : ℤ) → same_integer m n ≡ true → m ≡ n
same_integer_sound (pos m) (pos n) h = ap pos ((==_iff m n).0 h)
same_integer_sound (negsuc m) (negsuc n) h = ap negsuc ((==_iff m n).0 h)
same_integer_sound (pos m) (negsuc n) h = cc
same_integer_sound (negsuc m) (pos n) h = cc

same_integer_refl : (m : ℤ) → same_integer m m ≡ true
same_integer_refl (pos m) = ==_refl m
same_integer_refl (negsuc m) = ==_refl m

equal_values_sound {ℓ} :
    {A : Type ℓ} (eq : A → A → Bool)
    → ((a b : A) → eq a b ≡ true → a ≡ b)
    → (a b : TfValue A) → equal_values eq a b ≡ true
    → a ≡ b
equal_values_sound eq sound (known a) (known b) h = ap known (sound a b h)
equal_values_sound eq sound null null h = refl
equal_values_sound eq sound unknown unknown h = refl
equal_values_sound eq sound (known a) null h = cc
equal_values_sound eq sound (known a) unknown h = cc
equal_values_sound eq sound null (known b) h = cc
equal_values_sound eq sound null unknown h = cc
equal_values_sound eq sound unknown (known b) h = cc
equal_values_sound eq sound unknown null h = cc

equal_values_refl {ℓ} :
    {A : Type ℓ} (eq : A → A → Bool)
    → ((a : A) → eq a a ≡ true)
    → (a : TfValue A) → equal_values eq a a ≡ true
equal_values_refl eq same_self (known a) = same_self a
equal_values_refl eq same_self null = refl
equal_values_refl eq same_self unknown = refl

all_three : (a b c : Bool) → (a && (b && c)) ≡ true → (a ≡ true) × (b ≡ true) × (c ≡ true)
all_three a b c h = ground arith

module _ {W : Type 0} (users : Users W) (plan cfg state : UserModel) where
  -- Whether the password, its version and the mechanism are those of the state.
  abbrev is_user_unchanged : Bool
  is_user_unchanged =
      equal_values same plan.password state.password
      && (equal_values same_integer plan.password_wo_version state.password_wo_version
          && equal_values same plan.mechanism state.mechanism)

  abbrev user_sent : W → Reply UserResponse × W
  user_sent o =
      users.update_user (expand_update_user users.sasl_mechanism_value (planned users plan cfg)) o

  abbrev carried_over : UserModel
  carried_over = record state {
    allow_deletion = plan.allow_deletion;
    password_wo_version = plan.password_wo_version;
  }

  abbrev user_updated : UserResponse → W → Option (Response UserModel W)
  user_updated u o = some (answered [] (stored (flatten_user u (planned users plan cfg))) o)

  abbrev not_updated : Text → GoError → W → Option (Response UserModel W)
  not_updated summary err o = some (answered (failure summary err) untouched o)

  module _ (initial most : ℕ) where
    abbrev change_connected : W × Option GoError → Option (Response UserModel W)
    change_connected (o, some err) = not_updated (codes "failed to create user client") err o
    change_connected (o, none) =
        retried users.world initial most (λ s. unless_unavailable (user_sent s)) o user_updated
          (not_updated (codes "failed to update user"))

    unfoldable pub update_user_resource : W → Option (Response UserModel W)
    update_user_resource o =
        if is_user_unchanged
        then some (answered [] (stored carried_over) o)
        else change_connected (users.create_user_client (value_string plan.cluster_api_url) o)

  abbrev pub IsUserUnchanged : Type 0
  IsUserUnchanged =
      (plan.password ≡ state.password)
      × (plan.password_wo_version ≡ state.password_wo_version)
      × (plan.mechanism ≡ state.mechanism)

  abbrev pub ChangeExplained : List Diagnostic → Kept UserModel → W → Type 0
  ChangeExplained ds untouched s = (errors ds ≢ 0) × ¬ IsUserUnchanged
  ChangeExplained ds removed s = ⊥
  ChangeExplained ds (stored m) s =
      (ds ≡ [])
      × ((IsUserUnchanged × (m ≡ carried_over))
          ⊎ (¬ IsUserUnchanged
              × (u : UserResponse) × (o : W) × (user_sent o ≡ (reply u, s))
              × (m ≡ flatten_user u (planned users plan cfg))))

  is_user_unchanged_sound : is_user_unchanged ≡ true → IsUserUnchanged
  is_user_unchanged_sound h =
      let (p, v, m) = all_three _ _ _ h in
      (
        equal_values_sound same same_sound _ _ p,
        equal_values_sound same_integer same_integer_sound _ _ v,
        equal_values_sound same same_sound _ _ m,
      )

  is_user_unchanged_complete : IsUserUnchanged → is_user_unchanged ≡ true
  is_user_unchanged_complete (p, v, m) = rw (
    p,
    v,
    m,
    equal_values_refl same same_refl state.password,
    equal_values_refl same_integer same_integer_refl state.password_wo_version,
    equal_values_refl same same_refl state.mechanism,
  )

  -- Where the clock does not go back, random numbers are below their bound, a wait that is not
  -- cancelled lasts, and both wait units are from two nanoseconds to below 2^62, Update returns,
  -- does not panic, and does not remove the resource. If the plan has the password, the version of
  -- the write-only password and the mechanism of the state, it stores the state with the plan's
  -- allow_deletion, and reports nothing. Otherwise it leaves the state alone and reports an error,
  -- or it reports nothing and stores the user that the service answered to the request for the
  -- plan's name, effective password and mechanism.
  pub update_user_resource-Returns :
      {initial most : ℕ} (o : W)
      → IsUsersClock users
      → IsSane initial most
      → Returns ChangeExplained (update_user_resource initial most o)
  unfolding update_user_resource
  update_user_resource-Returns {initial} {most} o clock sane = elim (Bool-cases is_user_unchanged) [
    | inl unchanged ↦ rw unchanged (refl, inl (is_user_unchanged_sound unchanged, refl))
    | inr changed ↦ rw changed (
        connected (λ h. let both = is_user_unchanged_complete h in absurd (cc))
          (users.create_user_client (value_string plan.cluster_api_url) o))
  ]
    where
      connected :
          ¬ IsUserUnchanged
          → (r : W × Option GoError) → Returns ChangeExplained (change_connected initial most r)
      connected changed (s, some err) = (λ e. cc, changed)
      connected changed (s, none) =
          retried-Returns users.world initial most ChangeExplained _ s _ _
            (unless_unavailable-clock users user_sent clock (λ t. clock.update_later _ t)) sane
            (λ u o' s' h.
              (refl, inr (changed, u, o', unless_unavailable-done (user_sent o') u s' h, refl)))
            (λ err s' h. (λ e. cc, changed))
