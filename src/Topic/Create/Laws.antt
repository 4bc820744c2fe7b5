-- ===== src/Topic/Create/Laws.antt =====
-- What an attempt of Topic.Create to create the topic can end with.
use terraform_provider_redpa.Base.{
  ℕ, ◌≤◌, ◌≡◌, refl, ◌≢◌, ◌⊎◌, inl, inr, true, Option, none, some, List, [], arith, Bool-cases,
  Text, Dict,
}
use terraform_provider_redpa.Errors.{GoError, Reply, reply, refused}
use terraform_provider_redpa.Values.{value_string}
use terraform_provider_redpa.Removal.{Diagnostic}
use terraform_provider_redpa.Removal.Laws.{errors}
use terraform_provider_redpa.Retry.Attempt.{Verdict, done, fail, IsAttemptClock}
use terraform_provider_redpa.Topic.Config.{elements, map_to_create_topic_configuration}
use terraform_provider_redpa.Topic.Model.{
  TopicInfo, TopicModel, flatten, is_topic_already_exists, is_transient_broker_error,
}
use terraform_provider_redpa.Topic.Handler.{Broker, IsBrokerClock, Kept, untouched, removed, stored}
use terraform_provider_redpa.Topic.Retried.{Failed}
use terraform_provider_redpa.Topic.Configured.{IsConfigured}
use terraform_provider_redpa.Topic.Read.{with_map}
use terraform_provider_redpa.Topic.Create.{
  plan_name, rechecked, creation_judged, creation_attempt, found_again,
}

module _ {A W : Type 0} (broker : Broker A W) (plan : TopicModel A) where
  -- The configurations that the request holds.
  abbrev pub Sends : List (Text × Text) → Type 0
  Sends cfg = map_to_create_topic_configuration (elements plan.configuration) ≡ reply cfg

  -- An attempt failed with a transient error, and the topic was there then.
  abbrev pub IsRecovered : List (Text × Text) → Type 0
  IsRecovered cfg =
      (err : GoError) × (info : TopicInfo) × (o : W) × (o' : W) × (s : W) × (broker.create_topic
          plan cfg o
        ≡ (refused err, o'))
      × (is_transient_broker_error err ≡ true)
      × (broker.find_topic (plan_name broker plan) o' ≡ (reply info, s))

  -- The service says of the new topic what `info` says.
  abbrev pub IsNew : TopicInfo → Type 0
  IsNew info =
      (cfg : List (Text × Text)) × Sends cfg
      × (((o : W) × (s : W) × (broker.create_topic plan cfg o ≡ (reply info, s)))
          ⊎ (IsRecovered cfg
              × (o : W) × (s : W) × (broker.find_topic (plan_name broker plan) o
                  ≡ (reply info, s))))

  -- Why nothing is stored. The last case alone comes after a topic that is known to exist.
  abbrev pub NothingNew : Type 0
  NothingNew =
      ((err : GoError) × (map_to_create_topic_configuration (elements plan.configuration)
          ≡ refused err))
      ⊎ ((err : GoError) × (o : W) × (s : W) × (broker.create_topic_client
              (value_string plan.cluster_api_url) o
            ≡ (s, some err)))
      ⊎ (broker.expand_errors plan ≢ [])
      ⊎ ((cfg : List (Text × Text)) × (err : GoError) × (s : W) × Sends cfg
          × Failed broker.world (creation_attempt broker plan cfg) err s)
      ⊎ ((cfg : List (Text × Text)) × (err : GoError) × (s : W) × Sends cfg
          × IsRecovered cfg
          × Failed broker.world (found_again broker plan) err s)

  abbrev pub CreationExplained : List Diagnostic → Kept (TopicModel A) → W → Type 0
  CreationExplained ds removed s = ⊥
  CreationExplained ds untouched s = (errors ds ≢ 0) × NothingNew
  CreationExplained ds (stored m) s =
      (info : TopicInfo) × IsNew info
      × (((errors ds ≢ 0) × (m ≡ flatten info plan))
          ⊎ ((ds ≡ [])
              × (configs : Dict Text) × IsConfigured broker info.name plan.configuration configs
              × (m ≡ with_map (flatten info plan) configs)))

  pub creation_attempt-done :
      (cfg : List (Text × Text)) (r : Option TopicInfo) (o s : W)
      → creation_attempt broker plan cfg o ≡ (done r, s)
      → ((info : TopicInfo) × (r ≡ some info) × (broker.create_topic plan cfg o ≡ (reply info, s)))
        ⊎ ((r ≡ none) × IsRecovered cfg)
  unfolding creation_attempt
  creation_attempt-done cfg r o s e = judged (broker.create_topic plan cfg o) refl e
    where
      recovered :
          (err : GoError) (o' : W)
          → broker.create_topic plan cfg o ≡ (refused err, o')
          → is_transient_broker_error err ≡ true
          → (q : Reply TopicInfo × W) → broker.find_topic (plan_name broker plan) o' ≡ q
          → rechecked broker plan err q ≡ (done r, s)
          → (r ≡ none) × IsRecovered cfg
      recovered err o' h transient (reply info, s') found e =
          (cc, (err, info, o, o', s', h, transient, found))
      recovered err o' h transient (refused find_err, s') found e = absurd (cc)

      judged :
          (q : Reply TopicInfo × W)
          → broker.create_topic plan cfg o ≡ q
          → creation_judged broker plan q ≡ (done r, s)
          → ((info : TopicInfo) × (r ≡ some info)
              × (broker.create_topic plan cfg o ≡ (reply info, s)))
            ⊎ ((r ≡ none) × IsRecovered cfg)
      judged (reply info, o') h e = inl (info, cc, cc)
      judged (refused err, o') h e = elim (Bool-cases (is_topic_already_exists err)) [
        | inl there ↦ absurd (bad (rw there at e))
        | inr absent ↦ elim (Bool-cases (is_transient_broker_error err)) [
          | inl transient ↦ inr (
              recovered err o' h transient (broker.find_topic (plan_name broker plan) o') refl
                (rw (absent, transient) at e))
          | inr final ↦ absurd (bad (rw (absent, final) at e))
        ]
      ]
        where
          bad : ◌≡◌ {A = Verdict (Option TopicInfo) × W} (fail err, o') (done r, s) → ⊥
          bad e = cc

  pub creation_attempt-clock :
      (cfg : List (Text × Text))
      → IsBrokerClock broker
      → IsAttemptClock broker.world (creation_attempt broker plan cfg)
  unfolding creation_attempt
  creation_attempt-clock cfg clock = record {
    attempt_later = λ o. judged (broker.create_topic plan cfg o) (clock.create_later plan cfg o);
    rand_later = clock.rand_later;
    rand_below = clock.rand_below;
    wait_lasts = clock.wait_lasts;
  }
    where
      looked :
          {start : ℕ} (err : GoError) (q : Reply TopicInfo × W)
          → start ≤ broker.world.now q.1
          → start ≤ broker.world.now (rechecked broker plan err q).1
      looked err (reply info, o) h = h
      looked err (refused e, o) h = h

      judged :
          {start : ℕ} (q : Reply TopicInfo × W)
          → start ≤ broker.world.now q.1
          → start ≤ broker.world.now (creation_judged broker plan q).1
      judged (reply info, o) h = h
      judged {start} (refused err, o) h =
          let later : start ≤ broker.world.now (broker.find_topic (plan_name broker plan) o).1 =
            let step = clock.find_later (plan_name broker plan) o in omega arith in
          elim (Bool-cases (is_topic_already_exists err)) [
            | inl there ↦ rw there h
            | inr absent ↦ elim (Bool-cases (is_transient_broker_error err)) [
              | inl transient ↦
                  rw (absent, transient)
                    (looked err (broker.find_topic (plan_name broker plan) o) later)
              | inr final ↦ rw (absent, final) h
            ]
          ]
