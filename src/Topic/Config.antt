-- ===== src/Topic/Config.antt =====
-- The configuration of a topic: filterDynamicConfig and mergeWithPlannedConfig, and the conversions
-- TopicConfigurationToMap and MapToSetTopicConfiguration. A pointer of a slice may be nil.
pub mod Merge
use terraform_provider_redpa.Base.{
  Bool, true, false, not, ◌&&◌, ◌||◌, Option, none, some, List, [], ◌∷◌, ◌++◌, if◌then◌else◌, Text,
  codes, same, has_prefix, trim_quotes, Dict, insert,
}
use terraform_provider_redpa.Errors.{plain_error, Reply, reply, refused}
use terraform_provider_redpa.Values.{TfValue, null, unknown, known}
use terraform_provider_redpa.Lookup.{quote}

-- `dynamic` is the source CONFIG_SOURCE_DYNAMIC_TOPIC_CONFIG.
pub record Configuration : Type 0 where
  pub name : Text
  pub value : Option Text
  pub dynamic : Bool

-- A map of strings: its elements, of which an unset map has none.
abbrev pub elements : TfValue (Dict (TfValue Text)) → Dict (TfValue Text)
elements (known m) = m
elements null = []
elements unknown = []

unfoldable pub filter_dynamic_config : List (Option Configuration) → List (Option Configuration)
filter_dynamic_config [] = []
filter_dynamic_config (none ∷ configs) = filter_dynamic_config configs
filter_dynamic_config (some cfg ∷ configs) =
    let rest = filter_dynamic_config configs in if cfg.dynamic then some cfg ∷ rest else rest

abbrev pub has_key : Text → Dict (TfValue Text) → Bool
has_key k [] = false
has_key k ((j, v) ∷ m) = same j k || has_key k m

abbrev pub injected : Dict (TfValue Text) → Configuration → Bool
injected planned cfg = has_prefix cfg.name (codes "redpanda.") && not (has_key cfg.name planned)

-- The first loop: the dynamic configurations, less those that the broker injected.
unfoldable pub kept_configs : Dict (TfValue Text) → List (Option Configuration) → List Configuration
kept_configs planned [] = []
kept_configs planned (none ∷ configs) = kept_configs planned configs
kept_configs planned (some cfg ∷ configs) =
    let rest = kept_configs planned configs in if injected planned cfg then rest else cfg ∷ rest

abbrev pub names : List Configuration → List Text
names [] = []
names (cfg ∷ configs) = cfg.name ∷ names configs

abbrev pub is_present : Text → List Text → Bool
is_present k [] = false
is_present k (j ∷ js) = same j k || is_present k js

-- The inner loop: the first configuration of that name, whatever its source.
unfoldable pub first_of : Text → List (Option Configuration) → Option Configuration
first_of k [] = none
first_of k (none ∷ configs) = first_of k configs
first_of k (some cfg ∷ configs) =
    let rest = first_of k configs in if same cfg.name k then some cfg else rest

-- An entry made from the plan, for a key that the broker does not echo.
abbrev pub synthesized : Text → TfValue Text → Option Configuration
synthesized k (known v) = some (record { name = k; value = some v; dynamic = true })
synthesized k null = none
synthesized k unknown = none

abbrev pub or_synthesized : Text → TfValue Text → Option Configuration → Option Configuration
or_synthesized k v (some cfg) = some cfg
or_synthesized k v none = synthesized k v

-- `filtered` and `present`, with an entry for the key if there is one.
abbrev pub added :
    Text → Option Configuration → List Configuration × List Text → List Configuration × List Text
added k none (filtered, present) = (filtered, present)
added k (some cfg) (filtered, present) = (filtered ++ cfg ∷ [], k ∷ present)

abbrev pub fill_key :
    List (Option Configuration)
    → Text
    → TfValue Text
    → List Configuration × List Text
    → List Configuration × List Text
fill_key all k v acc =
    if is_present k acc.1 then acc else added k (or_synthesized k v (first_of k all)) acc

-- The second loop, over the planned keys in the order of the map.
unfoldable pub fill_planned :
    List (Option Configuration)
    → Dict (TfValue Text)
    → List Configuration × List Text
    → List Configuration × List Text
unfolding first_of
fill_planned all [] acc = acc
fill_planned all ((k, v) ∷ planned) acc = fill_planned all planned (fill_key all k v acc)

abbrev is_none_planned : Dict (TfValue Text) → Bool
is_none_planned [] = true
is_none_planned ((k, v) ∷ planned) = false

unfoldable pub merge_with_planned_config :
    (dynamic all : List (Option Configuration)) → TfValue (Dict (TfValue Text)) → List Configuration
unfolding kept_configs fill_planned
merge_with_planned_config dynamic all planned =
    let filtered = kept_configs (elements planned) dynamic in
    if is_none_planned (elements planned)
    then filtered
    else (fill_planned all (elements planned) (filtered, names filtered)).0

-- TopicConfigurationToMap: a later entry of a name replaces an earlier one.
abbrev pub with_value : Configuration → Option Text → Dict Text → Reply (Dict Text)
with_value cfg none configs =
    refused (plain_error (codes "nil value for topic configuration " ++ quote cfg.name))
with_value cfg (some v) configs = reply (insert cfg.name v configs)

abbrev pub then_map : Reply (Dict Text) → (Dict Text → Reply (Dict Text)) → Reply (Dict Text)
then_map (refused err) k = refused err
then_map (reply m) k = k m

unfoldable pub to_map_from : Dict Text → List Configuration → Reply (Dict Text)
unfolding insert
to_map_from configs [] = reply configs
to_map_from configs (cfg ∷ cfgs) =
    then_map (with_value cfg cfg.value configs) (λ m. to_map_from m cfgs)

unfoldable pub topic_configuration_to_map : List Configuration → Reply (Dict Text)
unfolding to_map_from
topic_configuration_to_map cfgs = to_map_from [] cfgs

abbrev pub missing : Text → Reply (List (Text × Text))
missing k =
    refused (plain_error (codes "topic configuration " ++ (quote k ++ codes " must have a value")))

abbrev pub with_pair : Text × Text → Reply (List (Text × Text)) → Reply (List (Text × Text))
with_pair p (refused err) = refused err
with_pair p (reply ps) = reply (p ∷ ps)

-- MapToSetTopicConfiguration: a name and a value for each element. `v.String()` quotes the value, as
-- `%q` does, and the surrounding quotes are trimmed off again.
unfoldable pub map_to_set_topic_configuration : Dict (TfValue Text) → Reply (List (Text × Text))
map_to_set_topic_configuration [] = reply []
map_to_set_topic_configuration ((k, known v) ∷ m) =
    with_pair (k, trim_quotes (quote v)) (map_to_set_topic_configuration m)
map_to_set_topic_configuration ((k, null) ∷ m) = missing k
map_to_set_topic_configuration ((k, unknown) ∷ m) = missing k

-- MapToCreateTopicConfiguration, which treats the values in the same way.
unfoldable pub map_to_create_topic_configuration : Dict (TfValue Text) → Reply (List (Text × Text))
map_to_create_topic_configuration [] = reply []
map_to_create_topic_configuration ((k, known v) ∷ m) =
    with_pair (k, trim_quotes (quote v)) (map_to_create_topic_configuration m)
map_to_create_topic_configuration ((k, null) ∷ m) = missing k
map_to_create_topic_configuration ((k, unknown) ∷ m) = missing k
