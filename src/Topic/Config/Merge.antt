-- ===== src/Topic/Config/Merge.antt =====
-- What the merged configuration says of a name.
use terraform_provider_redpa.Base.{
  ◌≡◌, refl, sym, ap, ◌∙◌, inl, inr, Bool, true, not, ◌&&◌, Option, none, some, List, [], ◌∷◌, ◌++◌,
  arith, if◌then◌else◌, Bool-cases, is_some, Option-cases, Text, codes, same, has_prefix,
  same_sound, same_iff, Dict, lookup, HasDistinctKeys,
}
use terraform_provider_redpa.Values.{TfValue, null, unknown, known}
use terraform_provider_redpa.Topic.Config.{
  Configuration, elements, has_key, injected, kept_configs, names, is_present, first_of,
  synthesized, or_synthesized, added, fill_key, fill_planned, merge_with_planned_config,
  is_none_planned,
}

abbrev pub find : Text → List Configuration → Option Configuration
find k [] = none
find k (cfg ∷ configs) = if same cfg.name k then some cfg else find k configs

abbrev pub first_some {ℓ} : {A : Type ℓ} → Option A → Option A → Option A
first_some (some a) o = some a
first_some none o = o

first_some-none {ℓ} : {A : Type ℓ} (o : Option A) → first_some o none ≡ o
first_some-none none = refl
first_some-none (some a) = refl

first_some-is_some {ℓ} : {A : Type ℓ} (o p : Option A) → is_some o ≡ true → first_some o p ≡ o
first_some-is_some none p h = cc
first_some-is_some (some a) p h = refl

find-append :
    (k : Text) (xs ys : List Configuration) → find k (xs ++ ys) ≡ first_some (find k xs) (find k ys)
find-append k [] ys = refl
find-append k (cfg ∷ xs) ys = ground (arith, find-append k xs ys)

-- The entry for the key itself.
find-name :
    (k : Text) (xs : List Configuration) (cfg : Configuration) → find k xs ≡ some cfg → cfg.name ≡ k
find-name k [] cfg h = cc
find-name k (x ∷ xs) cfg h = ground (arith, same_iff x.name k, find-name k xs cfg)

first_of-name :
    (k : Text) (xs : List (Option Configuration)) (cfg : Configuration)
    → first_of k xs ≡ some cfg
    → cfg.name ≡ k
unfolding first_of
first_of-name k [] cfg h = cc
first_of-name k (none ∷ xs) cfg h = first_of-name k xs cfg h
first_of-name k (some x ∷ xs) cfg h = ground (arith, same_iff x.name k, first_of-name k xs cfg)

-- The names under redpanda. that the plan does not hold.
abbrev pub is_injected : Dict (TfValue Text) → Text → Bool
is_injected planned k = has_prefix k (codes "redpanda.") && not (has_key k planned)

find-kept_configs :
    (planned : Dict (TfValue Text)) (k : Text) (configs : List (Option Configuration))
    → find k (kept_configs planned configs)
      ≡ (if is_injected planned k then none else first_of k configs)
unfolding kept_configs first_of
find-kept_configs planned k [] = ground arith
find-kept_configs planned k (none ∷ configs) = find-kept_configs planned k configs
find-kept_configs planned k (some cfg ∷ configs) = elim (Bool-cases (same cfg.name k)) [
  | inl e ↦
      let name : injected planned cfg ≡ is_injected planned k =
        ap (is_injected planned) (same_sound cfg.name k e) in
      ground (arith, find-kept_configs planned k configs)
  | inr e ↦ ground (arith, find-kept_configs planned k configs)
]

-- The entry that the plan adds for a key: the broker's, or else one made from a planned value.
abbrev pub from_plan : List (Option Configuration) → Text → TfValue Text → Option Configuration
from_plan all k v = or_synthesized k v (first_of k all)

from_plan-name :
    (all : List (Option Configuration)) (k : Text) (v : TfValue Text) (cfg : Configuration)
    → from_plan all k v ≡ some cfg
    → cfg.name ≡ k
from_plan-name all k v cfg h = elim (Option-cases (first_of k all)) [
  | inr (c, found) ↦ first_of-name k all cfg (found ∙ (rw found at h))
  | inl missed ↦ synthesized-name v (rw missed at h)
]
  where
    synthesized-name : (v : TfValue Text) → synthesized k v ≡ some cfg → cfg.name ≡ k
    synthesized-name null e = cc
    synthesized-name unknown e = cc
    synthesized-name (known t) e = cc

-- `present` holds the names of `filtered`.
abbrev IsMarked : List Configuration × List Text → Type 0
IsMarked (filtered, present) = (k : Text) → is_present k present ≡ is_some (find k filtered)

names-IsMarked : (filtered : List Configuration) → IsMarked (filtered, names filtered)
names-IsMarked [] k = refl
names-IsMarked (cfg ∷ filtered) k = ground (arith, names-IsMarked filtered k)

added-IsMarked :
    (j : Text) (o : Option Configuration) (acc : List Configuration × List Text)
    → ((cfg : Configuration) → o ≡ some cfg → cfg.name ≡ j)
    → IsMarked acc
    → IsMarked (added j o acc)
added-IsMarked j none acc named marked k = marked k
added-IsMarked j (some cfg) (filtered, present) named marked k =
    ground (arith, named cfg refl, marked k, find-append k filtered (cfg ∷ []))

find-added :
    (k j : Text) (o : Option Configuration) (acc : List Configuration × List Text)
    → ((cfg : Configuration) → o ≡ some cfg → cfg.name ≡ j)
    → find k (added j o acc).0 ≡ first_some (find k acc.0) (if same j k then o else none)
find-added k j none (filtered, present) named = ground (arith, first_some-none (find k filtered))
find-added k j (some cfg) (filtered, present) named =
    ground
      (arith, named cfg refl, find-append k filtered (cfg ∷ []), first_some-none (find k filtered))

module _ (all : List (Option Configuration)) where
  fill_key-IsMarked :
      (j : Text) (v : TfValue Text) (acc : List Configuration × List Text)
      → IsMarked acc
      → IsMarked (fill_key all j v acc)
  fill_key-IsMarked j v acc marked = elim (Bool-cases (is_present j acc.1)) [
    | inl there ↦ rw there marked
    | inr absent ↦
        rw absent (added-IsMarked j (from_plan all j v) acc (from_plan-name all j v) marked)
  ]

  find-fill_key :
      (k j : Text) (v : TfValue Text) (acc : List Configuration × List Text)
      → IsMarked acc
      → find k (fill_key all j v acc).0
        ≡ first_some (find k acc.0) (if same j k then from_plan all j v else none)
  find-fill_key k j v acc marked = elim (Bool-cases (is_present j acc.1)) [
    | inr absent ↦ rw absent (find-added k j (from_plan all j v) acc (from_plan-name all j v))
    | inl there ↦ rw there (elim (Bool-cases (same j k)) [
      | inr other ↦ rw other (sym (first_some-none (find k acc.0)))
      | inl e ↦
          let held : is_some (find k acc.0) ≡ true =
            sym (marked k) ∙ ap (λ n. is_present n acc.1) (sym (same_sound j k e)) ∙ there in
          sym (first_some-is_some (find k acc.0) _ held)
    ])
  ]

  -- What the plan adds, by its entry for the key.
  abbrev pub wanted : Text → Option (TfValue Text) → Option Configuration
  wanted k none = none
  wanted k (some v) = from_plan all k v

  settle :
      (k j : Text) (v : TfValue Text) (planned : Dict (TfValue Text))
      (acc : List Configuration × List Text)
      → lookup j planned ≡ none
      → IsMarked acc
      → first_some (find k (fill_key all j v acc).0) (wanted k (lookup k planned))
        ≡ first_some (find k acc.0) (wanted k (lookup k ((j, v) ∷ planned)))
  unfolding lookup
  settle k j v planned acc fresh marked = elim (Bool-cases (same j k)) [
    | inr other ↦
        rw (find-fill_key k j v acc marked, other)
          (ap (λ o. first_some o (wanted k (lookup k planned))) (first_some-none (find k acc.0)))
    | inl e ↦
        let gone : lookup k planned ≡ none =
          sym (ap (λ n. lookup n planned) (same_sound j k e)) ∙ fresh in
        rw (find-fill_key k j v acc marked, e, gone)
          (first_some-none (first_some (find k acc.0) (from_plan all j v))
            ∙ ap (λ n. first_some (find k acc.0) (from_plan all n v)) (same_sound j k e))
  ]

  find-fill_planned :
      (k : Text) (planned : Dict (TfValue Text)) (acc : List Configuration × List Text)
      → HasDistinctKeys planned
      → IsMarked acc
      → find k (fill_planned all planned acc).0
        ≡ first_some (find k acc.0) (wanted k (lookup k planned))
  unfolding fill_planned lookup
  find-fill_planned k [] acc distinct marked = sym (first_some-none (find k acc.0))
  find-fill_planned k ((j, v) ∷ planned) acc (fresh, distinct) marked =
      find-fill_planned k planned (fill_key all j v acc) distinct (fill_key-IsMarked j v acc marked)
      ∙ settle k j v planned acc fresh marked

-- A name of the merged configuration has the entry that the broker reports as dynamic, unless it is
-- under redpanda. and not planned; otherwise, if it is planned, the first entry that the broker
-- reports of it from any source; otherwise, if its planned value is known, an entry with that value;
-- and otherwise it has none. The plan's keys are distinct.
pub find-merge_with_planned_config :
    (dynamic all : List (Option Configuration)) (planned : TfValue (Dict (TfValue Text))) (k : Text)
    → HasDistinctKeys (elements planned)
    → find k (merge_with_planned_config dynamic all planned)
      ≡ first_some
          (if is_injected (elements planned) k then none else first_of k dynamic)
          (wanted all k (lookup k (elements planned)))
unfolding merge_with_planned_config lookup
find-merge_with_planned_config dynamic all planned k distinct = merged (elements planned) distinct
  where
    merged :
        (m : Dict (TfValue Text))
        → HasDistinctKeys m
        → find k (
            if is_none_planned m
            then kept_configs m dynamic
            else (fill_planned all m (kept_configs m dynamic, names (kept_configs m dynamic))).0)
          ≡ first_some
              (if is_injected m k then none else first_of k dynamic)
              (wanted all k (lookup k m))
    merged [] h = find-kept_configs [] k dynamic ∙ sym (first_some-none _)
    merged ((j, v) ∷ m) h =
        find-fill_planned all k ((j, v) ∷ m) _ h (names-IsMarked _)
        ∙ ap (λ o. first_some o (wanted all k (lookup k ((j, v) ∷ m))))
            (find-kept_configs ((j, v) ∷ m) k dynamic)
