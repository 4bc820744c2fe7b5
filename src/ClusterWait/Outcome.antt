-- ===== src/ClusterWait/Outcome.antt =====
-- How waiting for a cluster ends.
use terraform_provider_redpa.Base.{
  ℕ, ◌+◌, ◌≤◌, ◌<◌, ◌≡◌, sym, true, false, Option, none, some, arith, Text,
}
use terraform_provider_redpa.Errors.{Reply, reply, refused, is_unavailable}
use terraform_provider_redpa.Retry.{
  RetryError, RetryResult, succeeded, gave_up, timed_out, cancelled, panicked,
}
use terraform_provider_redpa.Retry.Round.{IsClock, IsSane, Explains}
use terraform_provider_redpa.Retry.Termination.{retry_ends}
use terraform_provider_redpa.ClusterWait.{
  Client, Watch, poll_cluster, watch_world, retry_get_cluster,
}
use terraform_provider_redpa.Retry.History.{Ended, retry-Ended}
use terraform_provider_redpa.ClusterWait.History.{Watched, start, Asked-IsCounted}
use terraform_provider_redpa.ClusterWait.Polling.{LooksDeleted, AnswerHolds, poll_cluster-holds}

-- The clock of the outside, over the calls of the control plane and of the caller's function too.
pub record IsClientClock {C W : Type 0} (client : Client C W) : Type 0 where
  pub look_later :
      (id : Text) (o : W) → client.world.now o ≤ client.world.now (client.cluster_for_id id o).1
  pub use_later : (c : C) (o : W) → client.world.now o ≤ client.world.now (client.use_cluster c o).1
  pub rand_later : (n : ℕ) (o : W) → client.world.now o ≤ client.world.now (client.world.rand n o).1
  pub rand_below : (n : ℕ) (o : W) → 0 < n → (client.world.rand n o).0 < n
  pub wait_lasts :
      (d : ℕ) (o : W)
      → (client.world.wait d o).1 ≡ none
      → client.world.now o + d ≤ client.world.now (client.world.wait d o).0

module _ {C W : Type 0} (client : Client C W) (cluster_id : Text)
    (clock : IsClientClock client) where
  answer-later :
      (p : Watch C W) (a : Reply C × W) (r : Option RetryError × Watch C W)
      → AnswerHolds client cluster_id p a r
      → client.world.now a.1 ≤ client.world.now r.1.outside
  answer-later p (refused err, o) (e, p') h = rw (h.1) (omega arith)
  answer-later p (reply c, o) (e, p') h = rw (h.3) (clock.use_later c o)

  poll-IsClock : IsClock (watch_world client cluster_id) (poll_cluster client cluster_id)
  poll-IsClock = record {
    call_later = λ p. omega (
      arith,
      clock.look_later cluster_id p.outside,
      answer-later p _ _ (poll_cluster-holds client cluster_id p),
    );
    rand_later = λ n p. clock.rand_later n p.outside;
    rand_below = λ n p. clock.rand_below n p.outside;
    wait_lasts = λ d p. clock.wait_lasts d p.outside;
  }

  -- The last answer before success: a cluster that the caller's function accepts, or an error after
  -- which the cluster counts as deleted, and then none is returned.
  abbrev pub Accepted : Reply C × W → Watch C W → Type 0
  Accepted (refused err, o) p = LooksDeleted err × (p.cluster ≡ none)
  Accepted (reply c, o) p = (p.cluster ≡ some c) × ((client.use_cluster c o).0 ≡ none)

  -- The last answer before giving up, after `count` unavailabilities in a row: an error that is neither a deletion nor unavailability, the
  -- tenth unavailability in a row, or a final error of the caller's function.
  abbrev pub Rejected : ℕ → Reply C × W → Type 0
  Rejected count (refused err, o) =
      (¬ LooksDeleted err) × ¬ ((is_unavailable (some err) ≡ true) × (count + 1 < 10))
  Rejected count (reply c, o) =
      (r : RetryError) × ((client.use_cluster c o).0 ≡ some r) × (r.retryable ≡ false)

  module _ (o₀ : W) where
    abbrev pub Concludes : ℕ → RetryResult → Watch C W → Type 0
    Concludes end_time succeeded p =
        (count : ℕ) × (o : W) × Watched client cluster_id o₀ count o
        × Accepted (client.cluster_for_id cluster_id o) p
    Concludes end_time (gave_up e) p =
        (count : ℕ) × (o : W) × Watched client cluster_id o₀ count o
        × Rejected count (client.cluster_for_id cluster_id o)
    Concludes end_time (timed_out t e) p = end_time < client.world.now p.outside
    Concludes end_time (cancelled e) p = Unit
    Concludes end_time panicked p = ⊥

  accepted :
      (p₀ p : Watch C W) (a : Reply C × W)
      → AnswerHolds client cluster_id p₀ a (none, p)
      → Accepted a p
  accepted p₀ p (refused err, o) h = h.0
  accepted p₀ p (reply c, o) h = (h.0, sym h.2)

  rejected :
      (p₀ p : Watch C W) (a : Reply C × W) (r : RetryError)
      → r.retryable ≡ false
      → AnswerHolds client cluster_id p₀ a (some r, p)
      → Rejected p₀.transient_retry_count a
  rejected p₀ p (refused err, o) r final h =
      (h.0.0, λ t. let retried : r.retryable ≡ true = h.0.1.1 t in cc)
  rejected p₀ p (reply c, o) r final h = (r, sym h.2, final)

  concludes :
      (timeout initial most : ℕ) (o₀ : W) (end_time : ℕ) (r : RetryResult) (p : Watch C W)
      → Ended
          (watch_world client cluster_id)
          (poll_cluster client cluster_id)
          timeout
          initial
          most
          (start client cluster_id o₀)
          r
          p
      → Explains
          (watch_world client cluster_id)
          (poll_cluster client cluster_id)
          timeout
          initial
          most
          end_time
          r
          p
      → Concludes o₀ end_time r p
  concludes timeout initial most o₀ end_time succeeded p (p₀, asked, last) h = (
    p₀.transient_retry_count,
    p₀.outside,
    Asked-IsCounted client cluster_id o₀ asked,
    accepted p₀ p _ (rw last at (poll_cluster-holds client cluster_id p₀)),
  )
  concludes timeout initial most o₀ end_time (gave_up _) p (p₀, asked, (r, last, _, final)) h = (
    p₀.transient_retry_count,
    p₀.outside,
    Asked-IsCounted client cluster_id o₀ asked,
    rejected p₀ p _ r final (rw last at (poll_cluster-holds client cluster_id p₀)),
  )
  concludes timeout initial most o₀ end_time (timed_out _ _) p e (_, _, _, _, _, _, late) = late
  concludes timeout initial most o₀ end_time (cancelled _) p e h = tt
  concludes timeout initial most o₀ end_time panicked p e h = h

  -- Where the clock does not go back, random numbers are below their bound, a wait that is not
  -- cancelled lasts, and both wait units are from two nanoseconds to below 2^62, waiting for a
  -- cluster returns within `timeout + 2` rounds. It succeeds with a cluster that the caller's
  -- function accepts, or with none after an error that looks like a deletion. It gives up only,
  -- after a number of refusals in a row that read as unavailable, counted from the start or from the
  -- last cluster that the control plane answered, at a refusal that neither looks like a deletion
  -- nor is a further unavailability with which they are fewer than ten, or at a final error of the
  -- caller's function. It times out only after the deadline, and it never panics.
  pub retry_get_cluster_ends :
      (timeout : ℕ) {initial most : ℕ} (o : W)
      → IsSane initial most
      → (r : RetryResult) × (p : Watch C W) × (retry_get_cluster client cluster_id timeout initial
            most
            (timeout + 2)
            o
          ≡ some (r, p))
        × Concludes o (client.world.now o + timeout) r p
  unfolding retry_get_cluster
  retry_get_cluster_ends timeout {initial} {most} o sane =
      let (r, p, e, h) =
        retry_ends (watch_world client cluster_id) (poll_cluster client cluster_id) timeout initial
          most poll-IsClock sane
          (record { cluster = none; transient_retry_count = 0; outside = o }) in
      (
        r,
        p,
        e,
        concludes timeout initial most o (client.world.now o + timeout) r p
            (retry-Ended (watch_world client cluster_id) (poll_cluster client cluster_id) timeout
              initial most (timeout + 2) _ r p e)
            h,
      )
