-- ===== src/Topic/Retried.antt =====
-- A retried call of a handler of redpanda/resources/topic/resource_topic.go: what holds of the
-- response, where it holds after each end of the call.
use terraform_provider_redpa.Base.{ℕ, ◌+◌, ◌≡◌, Option, some, List, arith}
use terraform_provider_redpa.Errors.{GoError, Reply, reply, refused}
use terraform_provider_redpa.Removal.{Diagnostic}
use terraform_provider_redpa.Retry.{World}
use terraform_provider_redpa.Retry.Attempt.{
  Verdict, done, Outcome, yields, fails, panics, IsAttemptClock,
}
use terraform_provider_redpa.Retry.Attempt.Ends.{Ended, retry_attempt_ends}
use terraform_provider_redpa.Retry.Round.{IsSane}
use terraform_provider_redpa.Topic.Handler.{
  Broker, IsBrokerClock, Kept, Response, dataplane_timeout, dataplane_timeout_text,
  unless_transient, then_outcome, retried, Returns,
}
use terraform_provider_redpa.Base.{◌≤◌}

module _ {B W : Type 0} (world : World W) where
  -- How a retried call failed: a round failed, or the time was up, or a wait was cancelled.
  abbrev pub Failed : (W → Verdict B × W) → GoError → W → Type 0
  Failed attempt err s =
      (start : W) × Ended world attempt dataplane_timeout_text (world.now start + dataplane_timeout)
        (fails err) s

module _ {A B W : Type 0} (world : World W) (initial most : ℕ)
    (P : List Diagnostic → Kept A → W → Type 0) where
  pub retried-Returns :
      (attempt : W → Verdict B × W) (o : W) (on_done : B → W → Option (Response A W))
      (on_error : GoError → W → Option (Response A W))
      → IsAttemptClock world attempt
      → IsSane initial most
      → ((b : B) (o' s : W) → attempt o' ≡ (done b, s) → Returns P (on_done b s))
      → ((err : GoError) (s : W) → Failed world attempt err s → Returns P (on_error err s))
      → Returns P (retried world initial most attempt o on_done on_error)
  unfolding retried
  retried-Returns attempt o on_done on_error clock sane good bad =
      let (r, s, e, h) =
        retry_attempt_ends world attempt dataplane_timeout_text dataplane_timeout o clock sane in
      rw e (ended r s h)
    where
      ended :
          (r : Outcome B) (s : W)
          → Ended world attempt dataplane_timeout_text (world.now o + dataplane_timeout) r s
          → Returns P (then_outcome world initial most on_done on_error (some (r, s)))
      ended (yields b) s (o', e) = good b o' s e
      ended (fails err) s h = bad err s (o, h)
      ended panics s h = absurd h

-- A round that asks for another one after a transient error only.
pub unless_transient-done :
    {B W : Type 0} (r : Reply B × W) (b : B) (s : W)
    → unless_transient r ≡ (done b, s)
    → r ≡ (reply b, s)
unfolding unless_transient
unless_transient-done (reply x, o) b s h = cc
unless_transient-done (refused err, o) b s h = ground arith

-- It takes the time of the call.
pub unless_transient-later :
    {B W : Type 0} (world : World W) (start : ℕ) (r : Reply B × W)
    → start ≤ world.now r.1
    → start ≤ world.now (unless_transient r).1
unfolding unless_transient
unless_transient-later world start (reply a, o) h = h
unless_transient-later world start (refused err, o) h = ground arith

-- The clock of a call that is retried after a transient error only.
pub unless_transient-clock :
    {A B W : Type 0} (broker : Broker A W) (call : W → Reply B × W)
    → IsBrokerClock broker
    → ((o : W) → broker.world.now o ≤ broker.world.now (call o).1)
    → IsAttemptClock broker.world (λ o. unless_transient (call o))
unless_transient-clock broker call clock later = record {
  attempt_later = λ o. unless_transient-later broker.world (broker.world.now o) (call o) (later o);
  rand_later = clock.rand_later;
  rand_below = clock.rand_below;
  wait_lasts = clock.wait_lasts;
}
