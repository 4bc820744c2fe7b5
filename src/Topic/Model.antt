-- ===== src/Topic/Model.antt =====
-- The model of a topic, redpanda/models/topic/conv_gen.go (Flatten), the errors that
-- redpanda/resources/topic/resource_topic.go tells apart, and the numbers of redpanda/utils/utils.go.
-- A number of the plan is an integer; the replica assignments are of any type.
use terraform_provider_redpa.Base.{
  Bool, true, false, ◌||◌, some, ltb, if◌then◌else◌, Text, codes, contains, Dict, ℤ, pos, negsuc,
}
use terraform_provider_redpa.Errors.{GoError, is_not_found, deserialize_grpc_error}
use terraform_provider_redpa.Values.{TfValue, null, unknown, known}

unfoldable pub is_topic_already_exists : GoError → Bool
is_topic_already_exists err =
    contains (deserialize_grpc_error (some err)) (codes "TOPIC_ALREADY_EXISTS")
    || contains (deserialize_grpc_error (some err)) (codes "The topic has already been created")

unfoldable pub is_transient_broker_error : GoError → Bool
is_transient_broker_error err =
    let msg = deserialize_grpc_error (some err) in
    contains msg (codes "broker struct chosen to issue this request has died")
    || contains msg (codes "client closed")
    || contains msg (codes "context canceled")

unfoldable pub is_topic_not_found : GoError → Bool
is_topic_not_found err =
    let msg = deserialize_grpc_error (some err) in
    is_not_found (some err)
    || contains msg (codes "NOT_FOUND")
    || contains msg (codes "TOPIC_DOES_NOT_EXIST")

-- `to.Cmp(from) > 0`.
abbrev pub exceeds : ℤ → ℤ → Bool
exceeds (pos m) (pos n) = ltb n m
exceeds (pos m) (negsuc n) = true
exceeds (negsuc m) (pos n) = false
exceeds (negsuc m) (negsuc n) = ltb m n

-- The integer, held within the bounds of an int32.
unfoldable pub number_to_int32 : ℤ → ℤ
number_to_int32 (pos n) = if ltb 2147483647 n then pos 2147483647 else pos n
number_to_int32 (negsuc n) = if ltb 2147483647 n then negsuc 2147483647 else negsuc n

-- What CreateTopic and FindTopicByName say of a topic.
pub record TopicInfo : Type 0 where
  pub name : Text
  pub partition_count : ℤ
  pub replication_factor : ℤ

pub record TopicModel (A : Type 0) : Type 0 where
  pub name : TfValue Text
  pub id : TfValue Text
  pub partition_count : TfValue ℤ
  pub replication_factor : TfValue ℤ
  pub cluster_api_url : TfValue Text
  pub replica_assignments : TfValue A
  pub allow_deletion : TfValue Bool
  pub configuration : TfValue (Dict (TfValue Text))

-- A field that the reply does not give is carried over, unless it is unknown.
abbrev pub carried {ℓ} : {A : Type ℓ} → TfValue A → TfValue A
carried unknown = null
carried null = null
carried (known a) = known a

abbrev pub or_false : TfValue Bool → TfValue Bool
or_false (known b) = known b
or_false null = known false
or_false unknown = known false

-- Flatten, of an input that has both numbers, with a previous model.
unfoldable pub flatten : {A : Type 0} → TopicInfo → TopicModel A → TopicModel A
flatten info prev = record {
  name = known info.name;
  id = known info.name;
  partition_count = known info.partition_count;
  replication_factor = known info.replication_factor;
  cluster_api_url = carried prev.cluster_api_url;
  replica_assignments = carried prev.replica_assignments;
  allow_deletion = or_false (carried prev.allow_deletion);
  configuration = carried prev.configuration;
}
