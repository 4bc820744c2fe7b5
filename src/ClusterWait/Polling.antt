-- ===== src/ClusterWait/Polling.antt =====
-- One look at the cluster: when it ends the wait, when it is retried, and how refusals are counted.
use terraform_provider_redpa.Base.{
  ◌+◌, ◌<◌, ◌≡◌, ◌↔◌, ◌⊎◌, true, Option, none, some, arith, Text, refl, false,
}
use terraform_provider_redpa.Errors.{GoError, is_not_found, is_permission_denied, is_unavailable}
use terraform_provider_redpa.Retry.{RetryError}
use terraform_provider_redpa.ClusterWait.{
  Client, Watch, max_transient_retries, on_refusal, poll_cluster, Reply, use_on, refused, look,
  reply,
}

-- The errors after which the cluster counts as deleted.
abbrev pub LooksDeleted : GoError → Type 0
LooksDeleted err = (is_not_found (some err) ≡ true) ⊎ (is_permission_denied (some err) ≡ true)

module _ {C W : Type 0} (client : Client C W) (cluster_id : Text) where
  -- What a refusal leads to: a deleted cluster ends the wait without an error; an unavailable server
  -- is counted, and retried while the count is below ten; any other error is final.
  abbrev pub RefusalHolds : GoError → Watch C W → Option RetryError × Watch C W → Type 0
  RefusalHolds err p (none, p') = LooksDeleted err × (p'.cluster ≡ none)
  RefusalHolds err p (some r, p') =
      (¬ LooksDeleted err)
      × ((r.retryable ≡ true) ↔ (
          (is_unavailable (some err) ≡ true)
          × (p.transient_retry_count + 1 < max_transient_retries)))
      × ((is_unavailable (some err) ≡ false)
          ⊎ (p'.transient_retry_count ≡ p.transient_retry_count + 1))

  pub on_refusal-holds :
      (err : GoError) (p : Watch C W) → RefusalHolds err p (on_refusal client cluster_id err p)
  unfolding on_refusal
  on_refusal-holds err p = ground arith

  -- What a look makes of the control plane's answer.
  abbrev pub AnswerHolds : Watch C W → Reply C × W → Option RetryError × Watch C W → Type 0
  AnswerHolds p (refused err, o) (e, p') =
      RefusalHolds err (record p { cluster = none; outside = o }) (e, p') × (p'.outside ≡ o)
  AnswerHolds p (reply c, o) (e, p') =
      (p'.cluster ≡ some c)
      × (p'.transient_retry_count ≡ 0)
      × (e ≡ (client.use_cluster c o).0)
      × (p'.outside ≡ (client.use_cluster c o).1)

  outside-on_refusal :
      (err : GoError) (p : Watch C W) → (on_refusal client cluster_id err p).1.outside ≡ p.outside
  unfolding on_refusal
  outside-on_refusal err p = ground arith

  use_on-holds :
      (c : C) (u : Option RetryError × W)
      → ((use_on client cluster_id c u).1.cluster ≡ some c)
        × ((use_on client cluster_id c u).1.transient_retry_count ≡ 0)
        × ((use_on client cluster_id c u).0 ≡ u.0)
        × ((use_on client cluster_id c u).1.outside ≡ u.1)
  use_on-holds c (e, o) = (refl, refl, refl, refl)

  look-holds : (p : Watch C W) (a : Reply C × W) → AnswerHolds p a (look client cluster_id p a)
  look-holds p (refused err, o) = (
    on_refusal-holds err (record p { cluster = none; outside = o }),
    outside-on_refusal err (record p { cluster = none; outside = o }),
  )
  look-holds p (reply c, o) = use_on-holds c (client.use_cluster c o)

  -- A look at the cluster either passes it on and resets the count, or counts the refusal.
  pub poll_cluster-holds :
      (p : Watch C W)
      → AnswerHolds p
          (client.cluster_for_id cluster_id p.outside)
          (poll_cluster client cluster_id p)
  unfolding poll_cluster
  poll_cluster-holds p = look-holds p (client.cluster_for_id cluster_id p.outside)
