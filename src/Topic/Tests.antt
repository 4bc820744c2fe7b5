-- ===== src/Topic/Tests.antt =====
-- Handlers of topics against a service that always answers the same.
use terraform_provider_redpa.Base.{
  ℕ, ◌+◌, ◌≡◌, refl, true, false, Option, none, some, List, [], ◌∷◌, ◌++◌, arith, if◌then◌else◌,
  is_some, length, Text, codes, same, has_prefix, trim_quotes, Dict, lookup, insert,
  HasDistinctKeys, ℤ, pos,
}
use terraform_provider_redpa.Errors.{plain_error, Reply, reply, refused}
use terraform_provider_redpa.Values.{TfValue, null, known}
use terraform_provider_redpa.Retry.Round.{IsSane}
use terraform_provider_redpa.Topic.Config.{
  Configuration, elements, merge_with_planned_config, map_to_set_topic_configuration, first_of,
  topic_configuration_to_map, filter_dynamic_config, to_map_from, kept_configs, fill_planned,
}
use terraform_provider_redpa.Topic.Config.Merge.{
  find, first_some, is_injected, wanted, find-merge_with_planned_config,
}
use terraform_provider_redpa.Topic.Search.{
  Lists, find_among, concat, find_topic_by_name, find_topic_by_name-find_among,
}
use terraform_provider_redpa.Topic.Model.{TopicInfo, TopicModel}
use terraform_provider_redpa.Topic.Handler.{accepted, Broker, IsBrokerClock, Returns}
use terraform_provider_redpa.Topic.Configured.{merged_map}
use terraform_provider_redpa.Topic.Configured.Keys.{is_held, merged_map-keys}
use terraform_provider_redpa.Topic.Delete.{
  DeletionExplained, delete_topic_resource, delete_topic_resource-Returns,
}
use terraform_provider_redpa.Topic.Read.{
  RefreshExplained, read_topic_resource, read_topic_resource-Returns,
}
use terraform_provider_redpa.Topic.Update.{
  UpdateExplained, update_topic_resource, update_topic_resource-Returns,
}

abbrev orders : TopicInfo
orders = record { name = codes "orders"; partition_count = pos 3; replication_factor = pos 1 }

abbrev cleanup : Configuration
cleanup = record { name = codes "cleanup.policy"; value = some (codes "compact"); dynamic = true }

abbrev mode : Configuration
mode = record { name = codes "redpanda.storage.mode"; value = some (codes "unset"); dynamic = true }

abbrev reported : List (Option Configuration)
reported = some mode ∷ some cleanup ∷ []

abbrev planned_configs : TfValue (Dict (TfValue Text))
planned_configs = known ((codes "min.insync.replicas", known (codes "2")) ∷ [])

-- Time passes while waiting only.
abbrev standing : Broker ℕ ℕ
standing = record {
  world = record { now = λ t. t; rand = λ n t. (0, t); wait = λ d t. (t + d, none) };
  wrap = λ text err. record err { text = text ++ err.text };
  same_configuration = λ a b. false;
  expand_errors = λ m. [];
  create_topic_client = λ url t. (t, none);
  create_topic = λ m cfg t. (refused (plain_error (codes "client closed")), t);
  find_topic = λ name t. (reply orders, t);
  get_configurations = λ name t. (reply reported, t);
  set_configurations = λ name cfg t. (reply accepted, t);
  set_partitions = λ name n t. (reply accepted, t);
  delete_topic = λ name t. (refused (plain_error (codes "TOPIC_DOES_NOT_EXIST")), t);
}

standing-IsBrokerClock : IsBrokerClock standing
standing-IsBrokerClock = record {
  create_later = λ m cfg t. omega arith;
  find_later = λ name t. omega arith;
  get_later = λ name t. omega arith;
  set_later = λ name cfg t. omega arith;
  partitions_later = λ name n t. omega arith;
  delete_later = λ name t. omega arith;
  rand_later = λ n t. omega arith;
  rand_below = λ n t h. h;
  wait_lasts = λ d t e. omega arith;
}

small-IsSane : IsSane 10 40
small-IsSane = record {
  initial_pos = omega arith;
  most_pos = omega arith;
  initial_small = omega arith;
  most_small = omega arith;
}

abbrev model_with : ℤ → TopicModel ℕ
model_with n = record {
  name = known (codes "orders");
  id = known (codes "orders");
  partition_count = known n;
  replication_factor = known (pos 1);
  cluster_api_url = known (codes "https://api.example.com");
  replica_assignments = null;
  allow_deletion = known true;
  configuration = planned_configs;
}

planned_configs-HasDistinctKeys : HasDistinctKeys (elements planned_configs)
unfolding lookup
planned_configs-HasDistinctKeys = (refl, tt)

find-merge_with_planned_config_example :
    find (codes "min.insync.replicas") (merge_with_planned_config reported reported planned_configs)
    ≡ first_some
        (if is_injected (elements planned_configs) (codes "min.insync.replicas")
          then none
          else first_of (codes "min.insync.replicas") reported)
        (wanted reported
          (codes "min.insync.replicas")
          (lookup (codes "min.insync.replicas") (elements planned_configs)))
find-merge_with_planned_config_example =
    find-merge_with_planned_config reported reported planned_configs (codes "min.insync.replicas")
      planned_configs-HasDistinctKeys

abbrev resulting : Dict Text
resulting =
    (codes "cleanup.policy", codes "compact") ∷ (codes "min.insync.replicas", codes "2") ∷ []

merged_map_test : merged_map planned_configs reported ≡ reply resulting
unfolding merged_map lookup insert topic_configuration_to_map merge_with_planned_config
    filter_dynamic_config has_prefix same to_map_from kept_configs fill_planned first_of
merged_map_test = refl

merged_map-keys_example :
    is_some (lookup (codes "redpanda.storage.mode") resulting)
    ≡ is_held reported
        (codes "redpanda.storage.mode")
        (lookup (codes "redpanda.storage.mode") (elements planned_configs))
merged_map-keys_example =
    merged_map-keys planned_configs reported resulting (codes "redpanda.storage.mode")
      planned_configs-HasDistinctKeys merged_map_test

abbrev two_pages : Text → ℕ → Reply (List Text × Text) × ℕ
two_pages [] t = (reply (codes "orders-2" ∷ [], codes "p2"), t + 1)
two_pages (c ∷ cs) t = (reply (codes "orders" ∷ [], []), t + 1)

abbrev pages : List (List Text)
pages = (codes "orders-2" ∷ []) ∷ (codes "orders" ∷ []) ∷ []

pages-Lists : Lists (λ n. n) two_pages (codes "orders") [] 0 pages
pages-Lists = (codes "p2", 1, refl, refl, (2, refl))

find_topic_by_name-find_among_example :
    (s : ℕ) × (find_topic_by_name (λ n. n) two_pages (codes "orders") (length pages) 0
      ≡ some (
        find_among
            (λ n. n)
            two_pages
            (codes "orders")
            (concat (λ n. n) two_pages (codes "orders") pages),
        s,
      ))
find_topic_by_name-find_among_example =
    find_topic_by_name-find_among (λ n. n) two_pages (codes "orders") pages 0 pages-Lists

delete_topic_resource-Returns_example :
    Returns
      (DeletionExplained standing (model_with (pos 3)))
      (delete_topic_resource standing (model_with (pos 3)) 10 40 0)
delete_topic_resource-Returns_example =
    delete_topic_resource-Returns standing (model_with (pos 3)) 0 standing-IsBrokerClock
      small-IsSane

read_topic_resource-Returns_example :
    Returns
      (RefreshExplained standing (model_with (pos 3)))
      (read_topic_resource standing (model_with (pos 3)) 10 40 0)
read_topic_resource-Returns_example =
    read_topic_resource-Returns standing (model_with (pos 3)) 0 standing-IsBrokerClock small-IsSane

update_topic_resource-Returns_example :
    Returns
      (UpdateExplained standing (model_with (pos 5)) (model_with (pos 3)) (pos 5) (pos 3))
      (update_topic_resource standing (model_with (pos 5)) (model_with (pos 3)) 10 40 0)
update_topic_resource-Returns_example =
    update_topic_resource-Returns standing (model_with (pos 5)) (model_with (pos 3)) (pos 5) (pos 3)
      standing-IsBrokerClock small-IsSane 0 refl refl

-- A value with a quote in it is sent with a backslash that it does not have.
quoted_value_test :
    map_to_set_topic_configuration ((codes "k", known (codes "a\"b")) ∷ [])
    ≡ reply ((codes "k", codes "a\\\"b") ∷ [])
unfolding map_to_set_topic_configuration trim_quotes
quoted_value_test = refl
