-- ===== src/User/Service.antt =====
-- The outside of the handlers of redpanda/resources/user/resource_user.go, and a call that they retry
-- while the service is unavailable.
use terraform_provider_redpa.Base.{
  ℕ, ◌+◌, ◌≤◌, ◌<◌, ◌≡◌, Option, none, some, arith, if◌then◌else◌, Text, ℤ,
}
use terraform_provider_redpa.Errors.{GoError, Reply, reply, refused, is_unavailable}
use terraform_provider_redpa.Retry.{World}
use terraform_provider_redpa.Retry.Attempt.{Verdict, done, again, fail, IsAttemptClock}
use terraform_provider_redpa.Topic.Handler.{Accepted}
use terraform_provider_redpa.User.Model.{UserResponse, CreateUserRequest, UpdateUserRequest}

-- createUserClient, CreateUser, FindUserByName, UpdateUser, DeleteUser, and the table of the protocol's names of
-- mechanisms.
pub record Users (W : Type 0) : Type 0 where
  pub world : World W
  pub sasl_mechanism_value : Text → Option ℤ
  pub create_user_client : Text → W → W × Option GoError
  pub create_user : CreateUserRequest → W → Reply UserResponse × W
  pub find_user : Text → W → Reply UserResponse × W
  pub update_user : UpdateUserRequest → W → Reply UserResponse × W
  pub delete_user : Text → W → Reply Accepted × W

-- The clock does not go back over the calls, random numbers are below their bound, and a wait that
-- is not cancelled lasts.
pub record IsUsersClock {W : Type 0} (users : Users W) : Type 0 where
  pub create_later :
      (r : CreateUserRequest) (o : W)
      → users.world.now o ≤ users.world.now (users.create_user r o).1
  pub find_later : (n : Text) (o : W) → users.world.now o ≤ users.world.now (users.find_user n o).1
  pub update_later :
      (r : UpdateUserRequest) (o : W)
      → users.world.now o ≤ users.world.now (users.update_user r o).1
  pub delete_later :
      (n : Text) (o : W) → users.world.now o ≤ users.world.now (users.delete_user n o).1
  pub rand_later : (n : ℕ) (o : W) → users.world.now o ≤ users.world.now (users.world.rand n o).1
  pub rand_below : (n : ℕ) (o : W) → 0 < n → (users.world.rand n o).0 < n
  pub wait_lasts :
      (d : ℕ) (o : W)
      → (users.world.wait d o).1 ≡ none
      → users.world.now o + d ≤ users.world.now (users.world.wait d o).0

-- A closure that asks for another round while the service is unavailable.
unfoldable pub unless_unavailable : {B W : Type 0} → Reply B × W → Verdict B × W
unless_unavailable (reply b, o) = (done b, o)
unless_unavailable (refused err, o) =
    if is_unavailable (some err) then (again err, o) else (fail err, o)

pub unless_unavailable-done :
    {B W : Type 0} (r : Reply B × W) (b : B) (s : W)
    → unless_unavailable r ≡ (done b, s)
    → r ≡ (reply b, s)
unfolding unless_unavailable
unless_unavailable-done (reply x, o) b s h = cc
unless_unavailable-done (refused err, o) b s h = ground arith

-- It takes the time of the call.
unless_unavailable-later :
    {B W : Type 0} (world : World W) (start : ℕ) (r : Reply B × W)
    → start ≤ world.now r.1
    → start ≤ world.now (unless_unavailable r).1
unfolding unless_unavailable
unless_unavailable-later world start (reply a, o) h = h
unless_unavailable-later world start (refused err, o) h = ground arith

pub unless_unavailable-clock :
    {B W : Type 0} (users : Users W) (call : W → Reply B × W)
    → IsUsersClock users
    → ((o : W) → users.world.now o ≤ users.world.now (call o).1)
    → IsAttemptClock users.world (λ o. unless_unavailable (call o))
unless_unavailable-clock users call clock later = record {
  attempt_later = λ o. unless_unavailable-later users.world (users.world.now o) (call o) (later o);
  rand_later = clock.rand_later;
  rand_below = clock.rand_below;
  wait_lasts = clock.wait_lasts;
}
