-- ===== src/Topic/Handler.antt =====
-- What the handlers of redpanda/resources/topic/resource_topic.go share: the topic service, and, with
-- those of redpanda/resources/user/resource_user.go, the response and a call that is retried.
use terraform_provider_redpa.Base.{
  ℕ, ◌+◌, ◌≤◌, ◌<◌, ◌≡◌, Bool, Option, none, some, List, [], ◌∷◌, if◌then◌else◌, Text, codes, Dict,
  ℤ,
}
use terraform_provider_redpa.Errors.{GoError, Reply, reply, refused, deserialize_grpc_error}
use terraform_provider_redpa.Values.{TfValue}
use terraform_provider_redpa.Removal.{Diagnostic, error_diag}
use terraform_provider_redpa.Retry.{World}
use terraform_provider_redpa.Retry.Attempt.{
  Verdict, done, again, fail, Outcome, yields, fails, panics, retry_attempt,
}
use terraform_provider_redpa.Topic.Config.{Configuration}
use terraform_provider_redpa.Topic.Model.{TopicInfo, TopicModel, is_transient_broker_error}

-- The empty reply of a call.
pub data Accepted : Type 0 where
  accepted : Accepted

-- The outside of the handlers. `expand_errors` are the errors that ExpandCreate reports. `wrap` is
-- `fmt.Errorf` with %w at its end.
pub record Broker (A W : Type 0) : Type 0 where
  pub world : World W
  pub wrap : Text → GoError → GoError
  pub same_configuration : TfValue (Dict (TfValue Text)) → TfValue (Dict (TfValue Text)) → Bool
  pub expand_errors : TopicModel A → List (Text × Text)
  pub create_topic_client : Text → W → W × Option GoError
  pub create_topic : TopicModel A → List (Text × Text) → W → Reply TopicInfo × W
  pub find_topic : Text → W → Reply TopicInfo × W
  pub get_configurations : Text → W → Reply (List (Option Configuration)) × W
  pub set_configurations : Text → List (Text × Text) → W → Reply Accepted × W
  pub set_partitions : Text → ℤ → W → Reply Accepted × W
  pub delete_topic : Text → W → Reply Accepted × W

-- The clock does not go back over the calls, random numbers are below their bound, and a wait that
-- is not cancelled lasts.
pub record IsBrokerClock {A W : Type 0} (broker : Broker A W) : Type 0 where
  pub create_later :
      (m : TopicModel A) (cfg : List (Text × Text)) (o : W)
      → broker.world.now o ≤ broker.world.now (broker.create_topic m cfg o).1
  pub find_later :
      (name : Text) (o : W) → broker.world.now o ≤ broker.world.now (broker.find_topic name o).1
  pub get_later :
      (name : Text) (o : W)
      → broker.world.now o ≤ broker.world.now (broker.get_configurations name o).1
  pub set_later :
      (name : Text) (cfg : List (Text × Text)) (o : W)
      → broker.world.now o ≤ broker.world.now (broker.set_configurations name cfg o).1
  pub partitions_later :
      (name : Text) (n : ℤ) (o : W)
      → broker.world.now o ≤ broker.world.now (broker.set_partitions name n o).1
  pub delete_later :
      (name : Text) (o : W) → broker.world.now o ≤ broker.world.now (broker.delete_topic name o).1
  pub rand_later : (n : ℕ) (o : W) → broker.world.now o ≤ broker.world.now (broker.world.rand n o).1
  pub rand_below : (n : ℕ) (o : W) → 0 < n → (broker.world.rand n o).0 < n
  pub wait_lasts :
      (d : ℕ) (o : W)
      → (broker.world.wait d o).1 ≡ none
      → broker.world.now o + d ≤ broker.world.now (broker.world.wait d o).0

-- What becomes of the resource in the state.
pub data Kept (A : Type 0) : Type 0 where
  untouched removed : Kept A
  stored : A → Kept A

pub data Response (A W : Type 0) : Type 0 where
  answered : List Diagnostic → Kept A → W → Response A W
  crashed : Response A W

abbrev pub failure : Text → GoError → List Diagnostic
failure summary err = error_diag summary (deserialize_grpc_error (some err)) ∷ []

-- DefaultDataplaneRetryTimeout, and the wait units of Retry.
abbrev pub dataplane_timeout : ℕ
dataplane_timeout = 120000000000

abbrev pub dataplane_timeout_text : Text
dataplane_timeout_text = codes "2m0s"

-- A closure that asks for another round after a transient error only.
unfoldable pub unless_transient : {B W : Type 0} → Reply B × W → Verdict B × W
unless_transient (reply b, o) = (done b, o)
unless_transient (refused err, o) =
    if is_transient_broker_error err then (again err, o) else (fail err, o)

module _ {A B W : Type 0} (world : World W) (initial most : ℕ) where
  abbrev pub then_outcome :
      (B → W → Option (Response A W))
      → (GoError → W → Option (Response A W))
      → Option (Outcome B × W)
      → Option (Response A W)
  then_outcome on_done on_error none = none
  then_outcome on_done on_error (some (yields b, o)) = on_done b o
  then_outcome on_done on_error (some (fails err, o)) = on_error err o
  then_outcome on_done on_error (some (panics, o)) = some crashed

  -- A retried call, and what the handler does then.
  unfoldable pub retried :
      (attempt : W → Verdict B × W)
      → W
      → (B → W → Option (Response A W))
      → (GoError → W → Option (Response A W))
      → Option (Response A W)
  retried attempt o on_done on_error = then_outcome on_done on_error (
      retry_attempt world attempt dataplane_timeout_text dataplane_timeout initial most
        (dataplane_timeout + 2) o)

-- What holds of the response that a handler returns.
abbrev pub Returns :
    {A W : Type 0} → (P : List Diagnostic → Kept A → W → Type 0) → Option (Response A W) → Type 0
Returns P none = ⊥
Returns P (some crashed) = ⊥
Returns P (some (answered ds kept o)) = P ds kept o
