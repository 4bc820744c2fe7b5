-- ===== src/ClusterWait.antt =====
-- redpanda/utils/utils.go, RetryGetCluster: retrying a function on the latest state of a cluster.
-- The closure's variables `cluster` and `transientRetryCount` join the state that Retry runs over.
pub mod Polling
pub mod History
pub mod Outcome
mod Tests
use terraform_provider_redpa.Base.{
  ℕ, zero, suc, ◌+◌, ◌-◌, ◌*◌, ◌/◌, ◌%◌, ◌^◌, ◌≤◌, ◌<◌, ◌≡◌, refl, sym, ap, ◌∙◌, ◌≢◌, ◌↔◌, ◌⊎◌, inl,
  inr, Bool, true, false, not, ◌&&◌, ◌||◌, Option, none, some, List, [], ◌∷◌, ◌++◌, map, arith, ltb,
  leb, ◌==◌, if◌then◌else◌, ltb→lt, ==_iff, ==_refl, Bool-cases, is_some, Option-cases, length,
  drop, length-append, length-drop, drop-append, All, All-append, Text, codes, same, is_empty,
  strip, has_prefix, or_else, trim_prefix, trim_suffix, contains, to_lower, cut, split, trim_func,
  trim_space, trim_quotes, join, same_sound, same_refl, same_iff, strip-append, strip_sound,
  has_prefix-append, trim_prefix-append, contains-append_middle, to_lower-append, Dict, lookup,
  insert, delete, lookup-insert, lookup-delete,
}
use terraform_provider_redpa.Errors.{
  GoError, Reply, reply, refused, is_not_found, is_permission_denied, is_unavailable,
}
use terraform_provider_redpa.Retry.{
  World, RetryError, retryable_error, non_retryable_error, RetryResult, retry,
}

abbrev pub max_transient_retries : ℕ
max_transient_retries = 10

-- The outside: Retry's, the control plane's ClusterForID, the caller's function, and `fmt.Errorf`
-- with `%w`.
pub record Client (C W : Type 0) : Type 0 where
  pub world : World W
  pub cluster_for_id : Text → W → Reply C × W
  pub use_cluster : C → W → Option RetryError × W
  pub wrap : Text → GoError → GoError

pub record Watch (C W : Type 0) : Type 0 where
  pub cluster : Option C
  pub transient_retry_count : ℕ
  pub outside : W

module _ {C W : Type 0} (client : Client C W) (cluster_id : Text) where
  -- The error branch of the closure.
  unfoldable pub on_refusal : GoError → Watch C W → Option RetryError × Watch C W
  unfolding retryable_error non_retryable_error
  on_refusal err p =
      let count = p.transient_retry_count + 1 in
      let counted = record p { transient_retry_count = count } in
      if is_not_found (some err) || is_permission_denied (some err)
      then (none, record p { cluster = none })
      else if is_unavailable (some err)
      then if leb max_transient_retries count
        then (
          some (
              non_retryable_error
                (some (client.wrap (codes "max transient retries exceeded: ") err))),
          counted,
        )
        else (some (retryable_error (some err)), counted)
      else (some (non_retryable_error (some err)), p)

  abbrev use_on : C → Option RetryError × W → Option RetryError × Watch C W
  use_on c (e, o) = (e, record { cluster = some c; transient_retry_count = 0; outside = o })

  -- On an error ClusterForID returns no cluster.
  abbrev look : Watch C W → Reply C × W → Option RetryError × Watch C W
  look p (refused err, o) = on_refusal err (record p { cluster = none; outside = o })
  look p (reply c, o) = use_on c (client.use_cluster c o)

  -- The closure that is retried.
  unfoldable pub poll_cluster : Watch C W → Option RetryError × Watch C W
  unfolding on_refusal
  poll_cluster p = look p (client.cluster_for_id cluster_id p.outside)

  abbrev awake : Watch C W → W × Option GoError → Watch C W × Option GoError
  awake p (o, e) = (record p { outside = o }, e)

  abbrev drawn : Watch C W → ℕ × W → ℕ × Watch C W
  drawn p (n, o) = (n, record p { outside = o })

  abbrev pub watch_world : World (Watch C W)
  watch_world = record {
    now = λ p. client.world.now p.outside;
    rand = λ n p. drawn p (client.world.rand n p.outside);
    wait = λ d p. awake p (client.world.wait d p.outside);
  }

  -- The cluster that is returned is that of the final state.
  unfoldable pub retry_get_cluster :
      (timeout initial most fuel : ℕ) → W → Option (RetryResult × Watch C W)
  retry_get_cluster timeout initial most fuel o =
      retry watch_world poll_cluster timeout initial most fuel
        (record { cluster = none; transient_retry_count = 0; outside = o })
