-- ===== src/Topic/Configured.antt =====
-- The step of Create, Read and Update of redpanda/resources/topic/resource_topic.go that asks for the
-- configurations of a topic and merges them with the planned ones.
pub mod Keys
use terraform_provider_redpa.Base.{
  ℕ, ◌≡◌, refl, ◌≢◌, Option, some, List, [], ◌∷◌, Text, codes, Dict,
}
use terraform_provider_redpa.Errors.{Reply, reply, refused}
use terraform_provider_redpa.Values.{TfValue, known}
use terraform_provider_redpa.Removal.{Diagnostic}
use terraform_provider_redpa.Removal.Laws.{errors}
use terraform_provider_redpa.Retry.Round.{IsSane}
use terraform_provider_redpa.Topic.Config.{
  Configuration, filter_dynamic_config, merge_with_planned_config, topic_configuration_to_map,
}
use terraform_provider_redpa.Topic.Model.{TopicModel}
use terraform_provider_redpa.Topic.Handler.{
  Broker, IsBrokerClock, Kept, Response, answered, unless_transient, failure, retried, Returns,
}
use terraform_provider_redpa.Topic.Retried.{
  retried-Returns, unless_transient-done, unless_transient-clock,
}

abbrev pub Planned : Type 0
Planned = TfValue (Dict (TfValue Text))

unfoldable pub merged_map : Planned → List (Option Configuration) → Reply (Dict Text)
merged_map planned configs =
    topic_configuration_to_map
      (merge_with_planned_config (filter_dynamic_config configs) configs planned)

abbrev pub known_values : Dict Text → Dict (TfValue Text)
known_values [] = []
known_values ((k, v) ∷ m) = (k, known v) ∷ known_values m

module _ {A W : Type 0} (broker : Broker A W) (name : Text) (planned : Planned) where
  module _ (kept : Kept (TopicModel A))
      (on_map : Dict Text → W → Option (Response (TopicModel A) W)) where
    abbrev pub parsed : Reply (Dict Text) → W → Option (Response (TopicModel A) W)
    parsed (refused err) o =
        some (answered (failure (codes "unable to parse the topic configuration") err) kept o)
    parsed (reply m) o = on_map m o

    -- After an error the state is what it was.
    unfoldable pub with_configurations :
        (initial most : ℕ) → (summary : Text) → W → Option (Response (TopicModel A) W)
    with_configurations initial most summary o =
        retried broker.world initial most (λ s. unless_transient (broker.get_configurations name s))
          o (λ configs s. parsed (merged_map planned configs) s)
          (λ err s. some (answered (failure summary err) kept s))

  -- The map that some answer of the service gives.
  abbrev pub IsConfigured : Dict Text → Type 0
  IsConfigured m =
      (configs : List (Option Configuration)) × (o : W) × (s : W) × (broker.get_configurations name
          o
        ≡ (reply configs, s))
      × (merged_map planned configs ≡ reply m)

  pub with_configurations-Returns :
      {initial most : ℕ} (P : List Diagnostic → Kept (TopicModel A) → W → Type 0)
      (kept : Kept (TopicModel A)) (on_map : Dict Text → W → Option (Response (TopicModel A) W))
      (summary : Text) (o : W)
      → IsBrokerClock broker
      → IsSane initial most
      → ((ds : List Diagnostic) (s : W) → errors ds ≢ 0 → P ds kept s)
      → ((m : Dict Text) (s : W) → IsConfigured m → Returns P (on_map m s))
      → Returns P (with_configurations kept on_map initial most summary o)
  unfolding with_configurations
  with_configurations-Returns {initial} {most} P kept on_map summary o clock sane bad good =
      retried-Returns broker.world initial most P _ o _ _
        (unless_transient-clock broker (λ s. broker.get_configurations name s) clock
          (λ s. clock.get_later name s))
        sane
        (λ configs o' s e.
          mapped configs o' s
            (unless_transient-done (broker.get_configurations name o') configs s e)
            (merged_map planned configs) refl)
        (λ err s h. bad _ s (λ e. cc))
    where
      mapped :
          (configs : List (Option Configuration)) (o' s : W)
          → broker.get_configurations name o' ≡ (reply configs, s)
          → (r : Reply (Dict Text)) → merged_map planned configs ≡ r
          → Returns P (parsed kept on_map r s)
      mapped configs o' s e (refused err) h = bad _ s (λ e. cc)
      mapped configs o' s e (reply m) h = good m s (configs, o', s, e, h)
