-- ===== src/Topic/Create.antt =====
-- Topic.Create of redpanda/resources/topic/resource_topic.go, with flattenInputAfterCreate.
pub mod Laws
pub mod Outcome
use terraform_provider_redpa.Base.{
  ℕ, zero, suc, ◌+◌, ◌-◌, ◌*◌, ◌/◌, ◌%◌, ◌^◌, ◌≤◌, ◌<◌, ◌≡◌, refl, sym, ap, ◌∙◌, ◌≢◌, ◌↔◌, ◌⊎◌, inl,
  inr, Bool, true, false, not, ◌&&◌, ◌||◌, Option, none, some, List, [], ◌∷◌, ◌++◌, map, arith, ltb,
  leb, ◌==◌, if◌then◌else◌, ltb→lt, ==_iff, ==_refl, Bool-cases, is_some, Option-cases, length,
  drop, length-append, length-drop, drop-append, All, All-append, Text, codes, same, is_empty,
  strip, has_prefix, or_else, trim_prefix, trim_suffix, contains, to_lower, cut, split, trim_func,
  trim_space, trim_quotes, join, same_sound, same_refl, same_iff, strip-append, strip_sound,
  has_prefix-append, trim_prefix-append, contains-append_middle, to_lower-append, Dict, lookup,
  insert, delete, lookup-insert, lookup-delete, HasDistinctKeys, ℤ, pos, negsuc, atoi,
  insert-HasDistinctKeys, delete-HasDistinctKeys,
}
use terraform_provider_redpa.Errors.{GoError, Reply, reply, refused}
use terraform_provider_redpa.Values.{TfValue, null, unknown, known, value_string}
use terraform_provider_redpa.Lookup.{quote}
use terraform_provider_redpa.Removal.{Diagnostic, error_diag}
use terraform_provider_redpa.Retry.Attempt.{Verdict, done, again, fail}
use terraform_provider_redpa.Topic.Config.{elements, map_to_create_topic_configuration}
use terraform_provider_redpa.Topic.Model.{
  TopicInfo, TopicModel, flatten, is_topic_already_exists, is_transient_broker_error,
}
use terraform_provider_redpa.Topic.Handler.{
  Broker, Kept, untouched, removed, stored, Response, answered, unless_transient, failure, retried,
}
use terraform_provider_redpa.Topic.Configured.{with_configurations}
use terraform_provider_redpa.Topic.Delete.{topic_name}
use terraform_provider_redpa.Topic.Read.{with_map}

abbrev pub error_diags : List (Text × Text) → List Diagnostic
error_diags [] = []
error_diags ((summary, detail) ∷ es) = error_diag summary detail ∷ error_diags es

module _ {A W : Type 0} (broker : Broker A W) (plan : TopicModel A) where
  abbrev pub plan_name : Text
  plan_name = topic_name broker plan

  -- After a transient error the topic may exist already; then there is no response.
  abbrev pub rechecked : GoError → Reply TopicInfo × W → Verdict (Option TopicInfo) × W
  rechecked err (reply info, o) = (done none, o)
  rechecked err (refused find_err, o) =
      (again (broker.wrap (codes "transient broker error, retrying: ") err), o)

  abbrev pub creation_judged : Reply TopicInfo × W → Verdict (Option TopicInfo) × W
  creation_judged (reply info, o) = (done (some info), o)
  creation_judged (refused err, o) =
      if is_topic_already_exists err
      then (fail err, o)
      else if is_transient_broker_error err
      then rechecked err (broker.find_topic plan_name o)
      else (fail err, o)

  unfoldable pub creation_attempt : List (Text × Text) → W → Verdict (Option TopicInfo) × W
  creation_attempt cfg o = creation_judged (broker.create_topic plan cfg o)

  abbrev pub stopped : List Diagnostic → W → Option (Response (TopicModel A) W)
  stopped ds o = some (answered ds untouched o)

  abbrev pub uncreated : GoError → W → Option (Response (TopicModel A) W)
  uncreated err o =
      if is_topic_already_exists err
      then stopped
          (error_diag
              (codes "Failed to create topic; topic "
                ++ (quote plan_name ++ codes " already exists"))
              (codes
                "Topic resource can be imported using 'terraform import redpanda_topic.<resource_name> <topic_name>,<cluster_id>'")
            ∷ [])
          o
      else stopped (failure (codes "failed to create topic " ++ quote plan_name) err) o

  abbrev pub unread : GoError → W → Option (Response (TopicModel A) W)
  unread err o =
      stopped
        (failure (codes "failed to read topic " ++ (quote plan_name ++ codes " after create")) err)
        o

  abbrev pub found_again : W → Verdict TopicInfo × W
  found_again o = unless_transient (broker.find_topic plan_name o)

  abbrev pub complete : TopicInfo → Dict Text → W → Option (Response (TopicModel A) W)
  complete info configs o = some (answered [] (stored (with_map (flatten info plan) configs)) o)

  module _ (initial most : ℕ) where
    -- The state is set before the configurations are asked for.
    abbrev pub flattened : TopicInfo → W → Option (Response (TopicModel A) W)
    flattened info o =
        with_configurations broker info.name plan.configuration (stored (flatten info plan))
          (complete info) initial most
          (codes "failed to retrieve " ++ (quote info.name ++ codes " topic configuration")) o

    abbrev pub after_create : Option TopicInfo → W → Option (Response (TopicModel A) W)
    after_create (some info) o = flattened info o
    after_create none o = retried broker.world initial most found_again o flattened unread

    abbrev pub expanded :
        List (Text × Text) → List (Text × Text) → W → Option (Response (TopicModel A) W)
    expanded cfg (e ∷ es) o = stopped (error_diags (e ∷ es)) o
    expanded cfg [] o =
        retried broker.world initial most (creation_attempt cfg) o after_create uncreated

    abbrev pub creation_connected :
        List (Text × Text) → W × Option GoError → Option (Response (TopicModel A) W)
    creation_connected cfg (o, some err) =
        stopped (failure (codes "failed to create topic client") err) o
    creation_connected cfg (o, none) = expanded cfg (broker.expand_errors plan) o

    abbrev pub configured : Reply (List (Text × Text)) → W → Option (Response (TopicModel A) W)
    configured (refused err) o =
        stopped (failure (codes "failed to parse topic configuration for " ++ quote plan_name) err)
          o
    configured (reply cfg) o =
        creation_connected cfg (broker.create_topic_client (value_string plan.cluster_api_url) o)

    unfoldable pub create_topic_resource : W → Option (Response (TopicModel A) W)
    create_topic_resource o =
        configured (map_to_create_topic_configuration (elements plan.configuration)) o
