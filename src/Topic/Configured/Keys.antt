-- ===== src/Topic/Configured/Keys.antt =====
-- Which keys the configuration map of a topic has after a handler of
-- redpanda/resources/topic/resource_topic.go.
use terraform_provider_redpa.Base.{
  ◌≡◌, refl, ◌∙◌, Bool, true, not, ◌&&◌, ◌||◌, Option, none, some, List, [], ◌∷◌, arith,
  if◌then◌else◌, is_some, Text, codes, same, has_prefix, Dict, lookup, insert, lookup-insert,
  HasDistinctKeys,
}
use terraform_provider_redpa.Errors.{reply}
use terraform_provider_redpa.Values.{TfValue, null, unknown, known}
use terraform_provider_redpa.Topic.Config.{
  Configuration, elements, has_key, first_of, filter_dynamic_config, merge_with_planned_config,
  with_value, then_map, to_map_from, topic_configuration_to_map,
}
use terraform_provider_redpa.Topic.Config.Merge.{
  find, first_some, is_injected, wanted, find-merge_with_planned_config,
}
use terraform_provider_redpa.Topic.Configured.{Planned, merged_map}
use terraform_provider_redpa.Base.{false}

is_some-first_some {ℓ} :
    {A : Type ℓ} (o p : Option A) → is_some (first_some o p) ≡ (is_some o || is_some p)
is_some-first_some none p = refl
is_some-first_some (some a) p = refl

has_key-lookup : (k : Text) (m : Dict (TfValue Text)) → has_key k m ≡ is_some (lookup k m)
unfolding lookup
has_key-lookup k [] = refl
has_key-lookup k ((j, v) ∷ m) = ground (arith, has_key-lookup k m)

-- The broker reports the key; and it reports it as dynamic.
abbrev pub is_reported : Text → List (Option Configuration) → Bool
is_reported k [] = false
is_reported k (none ∷ configs) = is_reported k configs
is_reported k (some cfg ∷ configs) = same cfg.name k || is_reported k configs

abbrev pub is_reported_dynamic : Text → List (Option Configuration) → Bool
is_reported_dynamic k [] = false
is_reported_dynamic k (none ∷ configs) = is_reported_dynamic k configs
is_reported_dynamic k (some cfg ∷ configs) =
    (cfg.dynamic && same cfg.name k) || is_reported_dynamic k configs

first_of-is_reported :
    (k : Text) (configs : List (Option Configuration))
    → is_some (first_of k configs) ≡ is_reported k configs
unfolding first_of
first_of-is_reported k [] = refl
first_of-is_reported k (none ∷ configs) = first_of-is_reported k configs
first_of-is_reported k (some cfg ∷ configs) = ground (arith, first_of-is_reported k configs)

first_of-is_reported_dynamic :
    (k : Text) (configs : List (Option Configuration))
    → is_some (first_of k (filter_dynamic_config configs)) ≡ is_reported_dynamic k configs
unfolding first_of filter_dynamic_config
first_of-is_reported_dynamic k [] = refl
first_of-is_reported_dynamic k (none ∷ configs) = first_of-is_reported_dynamic k configs
first_of-is_reported_dynamic k (some cfg ∷ configs) =
    ground (arith, first_of-is_reported_dynamic k configs)

is_reported_dynamic-is_reported :
    (k : Text) (configs : List (Option Configuration))
    → is_reported_dynamic k configs ≡ true
    → is_reported k configs ≡ true
is_reported_dynamic-is_reported k [] h = h
is_reported_dynamic-is_reported k (none ∷ configs) h = is_reported_dynamic-is_reported k configs h
is_reported_dynamic-is_reported k (some cfg ∷ configs) h =
    ground (arith, is_reported_dynamic-is_reported k configs)

is_some-insert :
    (k j : Text) (v : Text) (m : Dict Text)
    → is_some (lookup k (insert j v m)) ≡ (same j k || is_some (lookup k m))
is_some-insert k j v m = ground (arith, lookup-insert j k v m)

lookup-to_map_from :
    (k : Text) (acc : Dict Text) (cfgs : List Configuration) (m : Dict Text)
    → to_map_from acc cfgs ≡ reply m
    → is_some (lookup k m) ≡ (is_some (lookup k acc) || is_some (find k cfgs))
unfolding to_map_from lookup
lookup-to_map_from k acc [] m h = ground (arith, h)
lookup-to_map_from k acc (cfg ∷ cfgs) m h =
    inserted cfg.value h (λ v. lookup-to_map_from k (insert cfg.name v acc) cfgs m)
  where
    inserted :
        (v : Option Text)
        → then_map (with_value cfg v acc) (λ q. to_map_from q cfgs) ≡ reply m
        → ((v : Text)
            → to_map_from (insert cfg.name v acc) cfgs ≡ reply m
            → is_some (lookup k m)
              ≡ (is_some (lookup k (insert cfg.name v acc)) || is_some (find k cfgs)))
        → is_some (lookup k m) ≡ (is_some (lookup k acc) || is_some (find k (cfg ∷ cfgs)))
    inserted none h rest = cc
    inserted (some v) h rest = ground (arith, rest v h, is_some-insert k cfg.name v acc)

-- Whether the state has an entry for the key, by the plan's entry for it.
abbrev pub is_held : List (Option Configuration) → Text → Option (TfValue Text) → Bool
is_held configs k none = not (has_prefix k (codes "redpanda.")) && is_reported_dynamic k configs
is_held configs k (some (known v)) = true
is_held configs k (some null) = is_reported k configs
is_held configs k (some unknown) = is_reported k configs

-- A key is in the new configuration map of a topic if its planned value is known; if its planned
-- value is not known, exactly if the broker reports the key; and if it is not planned, exactly if
-- the broker reports it as dynamic and it is not under redpanda. The plan's keys are distinct.
pub merged_map-keys :
    (planned : Planned) (configs : List (Option Configuration)) (m : Dict Text) (k : Text)
    → HasDistinctKeys (elements planned)
    → merged_map planned configs ≡ reply m
    → is_some (lookup k m) ≡ is_held configs k (lookup k (elements planned))
unfolding merged_map topic_configuration_to_map lookup
merged_map-keys planned configs m k distinct h =
    let merged = merge_with_planned_config (filter_dynamic_config configs) configs planned in
    let entry =
      find-merge_with_planned_config (filter_dynamic_config configs) configs planned k distinct in
    lookup-to_map_from k [] merged m h
    ∙ (rw entry (settled (lookup k (elements planned)) (has_key-lookup k (elements planned))))
  where
    settled :
        (l : Option (TfValue Text))
        → has_key k (elements planned) ≡ is_some l
        → is_some (
            first_some
              (if is_injected (elements planned) k
                then none
                else first_of k (filter_dynamic_config configs))
              (wanted configs k l))
          ≡ is_held configs k l
    settled none e = ground (arith, e, first_of-is_reported_dynamic k configs)
    settled (some (known v)) e = ground (arith, e)
    settled (some null) e = ground (
      arith,
      e,
      first_of-is_reported_dynamic k configs,
      first_of-is_reported k configs,
      is_reported_dynamic-is_reported k configs,
    )
    settled (some unknown) e = ground (
      arith,
      e,
      first_of-is_reported_dynamic k configs,
      first_of-is_reported k configs,
      is_reported_dynamic-is_reported k configs,
    )
