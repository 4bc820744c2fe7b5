-- ===== src/Topic/Update.antt =====
-- Topic.Update of redpanda/resources/topic/resource_topic.go.
use terraform_provider_redpa.Base.{
  subst, ℕ, ◌≡◌, refl, sym, ◌≢◌, ◌⊎◌, inl, inr, true, false, Option, none, some, List, [], ◌++◌,
  if◌then◌else◌, Bool-cases, Text, codes, Dict, ℤ,
}
use terraform_provider_redpa.Errors.{GoError, Reply, reply, refused}
use terraform_provider_redpa.Values.{TfValue, null, unknown, known, value_string}
use terraform_provider_redpa.Lookup.{quote}
use terraform_provider_redpa.Removal.{Diagnostic}
use terraform_provider_redpa.Removal.Laws.{errors}
use terraform_provider_redpa.Retry.Round.{IsSane}
use terraform_provider_redpa.Topic.Config.{elements, map_to_set_topic_configuration}
use terraform_provider_redpa.Topic.Model.{TopicModel, exceeds, number_to_int32}
use terraform_provider_redpa.Topic.Handler.{
  Accepted, Broker, IsBrokerClock, Kept, untouched, removed, stored, Response, answered, crashed,
  unless_transient, failure, retried, Returns,
}
use terraform_provider_redpa.Topic.Retried.{
  retried-Returns, unless_transient-done, unless_transient-clock,
}
use terraform_provider_redpa.Topic.Configured.{
  with_configurations, with_configurations-Returns, IsConfigured,
}
use terraform_provider_redpa.Topic.Delete.{topic_name}
use terraform_provider_redpa.Topic.Read.{with_map}

module _ {A W : Type 0} (broker : Broker A W) (plan state : TopicModel A) where
  abbrev target : Text
  target = topic_name broker plan

  abbrev unchanged : Text → GoError → W → Option (Response (TopicModel A) W)
  unchanged summary err o = some (answered (failure summary err) untouched o)

  abbrev updated : Dict Text → W → Option (Response (TopicModel A) W)
  updated configs o = some (answered [] (stored (with_map plan configs)) o)

  abbrev set_call : List (Text × Text) → W → Reply Accepted × W
  set_call cfg o = broker.set_configurations target cfg o

  abbrev partitions_call : ℤ → W → Reply Accepted × W
  partitions_call to o = broker.set_partitions target (number_to_int32 to) o

  module _ (initial most : ℕ) where
    -- The plan is stored before the configurations are asked for.
    abbrev reread : W → Option (Response (TopicModel A) W)
    reread o =
        with_configurations broker target plan.configuration (stored plan) updated initial most
          (codes "failed to retrieve "
            ++ (quote target ++ codes " topic configuration after update"))
          o

    abbrev grown : (to from : ℤ) → W → Option (Response (TopicModel A) W)
    grown to from o =
        if exceeds to from
        then retried broker.world initial most (λ s. unless_transient (partitions_call to s)) o
            (λ a s. reread s) (unchanged (codes "failed to update partition count"))
        else reread o

    -- Comparing a number that is not known panics.
    abbrev partitioned : TfValue ℤ → TfValue ℤ → W → Option (Response (TopicModel A) W)
    partitioned (known to) (known from) o = grown to from o
    partitioned (known to) null o = some crashed
    partitioned (known to) unknown o = some crashed
    partitioned null from o = some crashed
    partitioned unknown from o = some crashed

    abbrev resized : W → Option (Response (TopicModel A) W)
    resized o = partitioned plan.partition_count state.partition_count o

    abbrev reconfigured : Reply (List (Text × Text)) → W → Option (Response (TopicModel A) W)
    reconfigured (refused err) o =
        unchanged (codes "unable to parse the plan topic configuration") err o
    reconfigured (reply cfg) o =
        retried broker.world initial most (λ s. unless_transient (set_call cfg s)) o
          (λ a s. resized s) (unchanged (codes "failed to update topic configuration"))

    abbrev update_connected : W × Option GoError → Option (Response (TopicModel A) W)
    update_connected (o, some err) = unchanged (codes "failed to create topic client") err o
    update_connected (o, none) =
        if broker.same_configuration plan.configuration state.configuration
        then resized o
        else reconfigured (map_to_set_topic_configuration (elements plan.configuration)) o

    unfoldable pub update_topic_resource : W → Option (Response (TopicModel A) W)
    update_topic_resource o =
        update_connected (broker.create_topic_client (value_string plan.cluster_api_url) o)

  -- The configurations of the plan are those of the state, or the service took them.
  abbrev pub IsConfigurationSet : Type 0
  IsConfigurationSet =
      (broker.same_configuration plan.configuration state.configuration ≡ true)
      ⊎ ((cfg : List (Text × Text)) × (a : Accepted) × (o : W) × (s : W)
          × (map_to_set_topic_configuration (elements plan.configuration) ≡ reply cfg)
          × (set_call cfg o ≡ (reply a, s)))

  -- The plan has no more partitions than the state, or the service took the number.
  abbrev pub IsGrown : ℤ → ℤ → Type 0
  IsGrown to from =
      (exceeds to from ≡ false)
      ⊎ ((a : Accepted) × (o : W) × (s : W) × (partitions_call to o ≡ (reply a, s)))

  module _ (to from : ℤ) where
    abbrev pub UpdateExplained : List Diagnostic → Kept (TopicModel A) → W → Type 0
    UpdateExplained ds removed s = ⊥
    UpdateExplained ds untouched s = errors ds ≢ 0
    UpdateExplained ds (stored m) s =
        IsConfigurationSet
        × IsGrown to from
        × (((errors ds ≢ 0) × (m ≡ plan))
            ⊎ ((ds ≡ [])
                × (configs : Dict Text) × IsConfigured broker target plan.configuration configs
                × (m ≡ with_map plan configs)))

    module _ {initial most : ℕ} (clock : IsBrokerClock broker) (sane : IsSane initial most) where
      reread-Returns :
          (s : W)
          → IsConfigurationSet
          → IsGrown to from
          → Returns UpdateExplained (reread initial most s)
      reread-Returns s set grow =
          with_configurations-Returns broker target plan.configuration UpdateExplained (stored plan)
            updated _ s clock sane (λ ds t bad. (set, grow, inl (bad, refl)))
            (λ configs t c. (set, grow, inr (refl, configs, c, refl)))

      grown-Returns :
          (s : W) → IsConfigurationSet → Returns UpdateExplained (grown initial most to from s)
      grown-Returns s set = elim (Bool-cases (exceeds to from)) [
        | inr small ↦ rw small (reread-Returns s set (inl small))
        | inl large ↦ rw large (
            retried-Returns broker.world initial most UpdateExplained _ s _ _
              (unless_transient-clock broker (partitions_call to) clock
                (λ t. clock.partitions_later target (number_to_int32 to) t))
              sane
              (λ a o' s' h.
                reread-Returns s' set
                  (inr (a, o', s', unless_transient-done (partitions_call to o') a s' h)))
              (λ err s' h. λ e. cc))
      ]

      -- Where the clock does not go back, random numbers are below their bound, a wait that is not
      -- cancelled lasts, both wait units are from two nanoseconds to below 2^62, and the numbers of
      -- partitions of the plan and of the state are known, Update returns and does not panic. If it
      -- leaves the state alone, it reports an error. Otherwise the service took the configurations of
      -- the plan, unless they are those of the state, and the number of partitions of the plan, as
      -- an int32, unless it is not above that of the state; and the new state is the plan, with
      -- the merged configurations of some answer of the service and no diagnostic, or with its own
      -- and an error.
      pub update_topic_resource-Returns :
          (o : W)
          → plan.partition_count ≡ known to
          → state.partition_count ≡ known from
          → Returns UpdateExplained (update_topic_resource initial most o)
      unfolding update_topic_resource
      update_topic_resource-Returns o planned held =
          connected (broker.create_topic_client (value_string plan.cluster_api_url) o)
        where
          resized-Returns :
              (s : W) → IsConfigurationSet → Returns UpdateExplained (resized initial most s)
          resized-Returns s set =
              subst
                (λ a. Returns UpdateExplained (partitioned initial most a state.partition_count s))
                (sym planned)
                (subst (λ b. Returns UpdateExplained (partitioned initial most (known to) b s))
                  (sym held) (grown-Returns s set))

          sent :
              (q : Reply (List (Text × Text))) (s : W)
              → map_to_set_topic_configuration (elements plan.configuration) ≡ q
              → Returns UpdateExplained (reconfigured initial most q s)
          sent (refused err) s h = λ e. cc
          sent (reply cfg) s h =
              retried-Returns broker.world initial most UpdateExplained _ s _ _
                (unless_transient-clock broker (set_call cfg) clock
                  (λ t. clock.set_later target cfg t))
                sane
                (λ a o' s' e.
                  resized-Returns s'
                    (inr (cfg, a, o', s', h, unless_transient-done (set_call cfg o') a s' e)))
                (λ err s' h. λ e. cc)

          connected :
              (r : W × Option GoError) → Returns UpdateExplained (update_connected initial most r)
          connected (s, some err) = λ e. cc
          connected (s, none) =
              elim (Bool-cases (broker.same_configuration plan.configuration state.configuration)) [
                | inl same_one ↦ rw same_one (resized-Returns s (inl same_one))
                | inr changed ↦
                    rw changed
                      (sent (map_to_set_topic_configuration (elements plan.configuration)) s refl)
              ]
