-- ===== src/Topic/Read.antt =====
-- Topic.Read of redpanda/resources/topic/resource_topic.go.
use terraform_provider_redpa.Base.{
  ℕ, ◌≡◌, refl, sym, ◌≢◌, ◌⊎◌, inl, inr, Bool, true, ◌||◌, Option, none, some, List, [], ◌∷◌, ◌++◌,
  if◌then◌else◌, Bool-cases, Text, codes, is_empty, Dict,
}
use terraform_provider_redpa.Errors.{GoError, Reply, reply}
use terraform_provider_redpa.Values.{
  TfValue, null, unknown, known, is_null, is_unknown, value_string,
}
use terraform_provider_redpa.Lookup.{quote}
use terraform_provider_redpa.Removal.{
  RemovalAction, remove_from_state, keep_in_state, error_not_handled, Diagnostic,
  handle_graceful_removal,
}
use terraform_provider_redpa.Removal.Laws.{IsGone, MayLeave, errors, remove_iff, error_iff_kept}
use terraform_provider_redpa.Retry.Round.{IsSane}
use terraform_provider_redpa.Topic.Model.{TopicInfo, TopicModel, flatten}
use terraform_provider_redpa.Topic.Handler.{
  Broker, IsBrokerClock, Kept, untouched, removed, stored, Response, answered, unless_transient,
  retried, Returns,
}
use terraform_provider_redpa.Topic.Retried.{
  Failed, retried-Returns, unless_transient-done, unless_transient-clock,
}
use terraform_provider_redpa.Topic.Configured.{
  known_values, with_configurations, with_configurations-Returns, IsConfigured,
}
use terraform_provider_redpa.Topic.Delete.{topic_name}

-- The state of a topic that was read, with its configuration.
abbrev pub with_map : {A : Type 0} → TopicModel A → Dict Text → TopicModel A
with_map m configs = record m { configuration = known (known_values configs) }

-- The test on the URL at the top of Read.
abbrev pub is_absent : TfValue Text → Bool
is_absent url = is_null url || is_unknown url || is_empty (value_string url)

module _ {A W : Type 0} (broker : Broker A W) (model : TopicModel A) where
  abbrev asked : W → Reply TopicInfo × W
  asked o = broker.find_topic (topic_name broker model) o

  abbrev kept_after : RemovalAction → Kept (TopicModel A)
  kept_after remove_from_state = removed
  kept_after keep_in_state = untouched
  kept_after error_not_handled = untouched

  abbrev removal : Text → GoError → RemovalAction × List Diagnostic
  removal operation err =
      handle_graceful_removal (codes "topic") (topic_name broker model) model.allow_deletion
        (some err) operation

  abbrev gracefully : Text → GoError → W → Option (Response (TopicModel A) W)
  gracefully operation err o =
      let r = removal operation err in some (answered r.1 (kept_after r.0) o)

  abbrev refreshed : TopicInfo → Dict Text → W → Option (Response (TopicModel A) W)
  refreshed info configs o = some (answered [] (stored (with_map (flatten info model) configs)) o)

  module _ (initial most : ℕ) where
    abbrev found : TopicInfo → W → Option (Response (TopicModel A) W)
    found info o =
        with_configurations broker info.name model.configuration untouched (refreshed info) initial
          most (codes "failed to retrieve " ++ (quote info.name ++ codes " topic configuration")) o

    abbrev refresh_connected : W × Option GoError → Option (Response (TopicModel A) W)
    refresh_connected (o, some err) = gracefully (codes "create topic client") err o
    refresh_connected (o, none) =
        retried broker.world initial most (λ s. unless_transient (asked s)) o found
          (gracefully (codes "find topic"))

    unfoldable pub read_topic_resource : W → Option (Response (TopicModel A) W)
    read_topic_resource o =
        if is_absent model.cluster_api_url
        then some (answered [] removed o)
        else refresh_connected (broker.create_topic_client (value_string model.cluster_api_url) o)

  -- An error of the client, or of the retried search for the topic.
  abbrev pub RefreshError : GoError → Type 0
  RefreshError err =
      ((o : W) × (s : W) × (broker.create_topic_client (value_string model.cluster_api_url) o
          ≡ (s, some err)))
      ⊎ ((s : W) × Failed broker.world (λ o. unless_transient (asked o)) err s)

  abbrev pub RefreshExplained : List Diagnostic → Kept (TopicModel A) → W → Type 0
  RefreshExplained ds untouched s = errors ds ≢ 0
  RefreshExplained ds removed s =
      (errors ds ≡ 0)
      × ((value_string model.cluster_api_url ≡ [])
          ⊎ ((err : GoError) × IsGone (some err)
              × MayLeave model.allow_deletion
              × RefreshError err))
  RefreshExplained ds (stored m) s =
      (ds ≡ [])
      × (info : TopicInfo) × (configs : Dict Text) × (o : W) × (o' : W) × (asked o
          ≡ (reply info, o'))
      × IsConfigured broker info.name model.configuration configs
      × (m ≡ with_map (flatten info model) configs)

  is_absent-value_string : (url : TfValue Text) → is_absent url ≡ true → value_string url ≡ []
  is_absent-value_string null h = refl
  is_absent-value_string unknown h = refl
  is_absent-value_string (known []) h = refl
  is_absent-value_string (known (c ∷ cs)) h = cc

  gracefully-Returns :
      (operation : Text) (err : GoError) (s : W)
      → RefreshError err
      → Returns RefreshExplained (gracefully operation err s)
  gracefully-Returns operation err s e = settled (removal operation err).0 refl
    where
      settled :
          (a : RemovalAction)
          → (removal operation err).0 ≡ a
          → RefreshExplained (removal operation err).1 (kept_after a) s
      settled a same_action =
          elim (error_iff_kept (codes "topic") (topic_name broker model) model.allow_deletion
            (some err) operation) [
              | inl (left, no_error, h) ↦
                  let (gone, allowed) =
                    (remove_iff (codes "topic") (topic_name broker model) model.allow_deletion
                        (some err) operation).0
                      left in
                  rw (sym same_action, left) (no_error, inr (err, gone, allowed, e))
              | inr (stays, one, h) ↦ other a same_action stays one
            ]
        where
          other :
              (a : RemovalAction)
              → (removal operation err).0 ≡ a
              → (removal operation err).0 ≢ remove_from_state
              → errors (removal operation err).1 ≡ 1
              → RefreshExplained (removal operation err).1 (kept_after a) s
          other remove_from_state e stays one = absurd (stays e)
          other keep_in_state e stays one = λ e. cc
          other error_not_handled e stays one = λ e. cc

  -- Where the clock does not go back, random numbers are below their bound, a wait that is not
  -- cancelled lasts, and both wait units are from two nanoseconds to below 2^62, Read returns and
  -- does not panic. If it leaves the state alone, it reports an error. If it removes the resource,
  -- it reports none, and the state holds no URL, or else allow_deletion is null or true, and the
  -- client or the retried search for the topic gave an error that reads as not found, as an
  -- unreachable cluster or as a refused permission. If it stores a state, there is no diagnostic,
  -- and the state is that of a topic that the search found, with the merged configurations of some
  -- answer of the service.
  pub read_topic_resource-Returns :
      {initial most : ℕ} (o : W)
      → IsBrokerClock broker
      → IsSane initial most
      → Returns RefreshExplained (read_topic_resource initial most o)
  unfolding read_topic_resource
  read_topic_resource-Returns {initial} {most} o clock sane =
      elim (Bool-cases (is_absent model.cluster_api_url)) [
        | inl absent ↦ rw absent (refl, inl (is_absent-value_string model.cluster_api_url absent))
        | inr there ↦
            rw there
              (connected (broker.create_topic_client (value_string model.cluster_api_url) o) refl)
      ]
    where
      connected :
          (r : W × Option GoError)
          → broker.create_topic_client (value_string model.cluster_api_url) o ≡ r
          → Returns RefreshExplained (refresh_connected initial most r)
      connected (s, some err) e =
          gracefully-Returns (codes "create topic client") err s (inl (o, s, e))
      connected (s, none) e =
          retried-Returns broker.world initial most RefreshExplained _ s _ _
            (unless_transient-clock broker asked clock
              (λ t. clock.find_later (topic_name broker model) t))
            sane
            (λ info o' s' h.
              with_configurations-Returns broker info.name model.configuration RefreshExplained
                untouched (refreshed info) _ s' clock sane (λ ds t bad. bad)
                (λ configs t c. (
                  refl,
                  info,
                  configs,
                  o',
                  s',
                  unless_transient-done (asked o') info s' h,
                  c,
                  refl,
                )))
            (λ err s' h. gracefully-Returns (codes "find topic") err s' (inr (s', h)))
