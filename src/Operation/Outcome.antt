-- ===== src/Operation/Outcome.antt =====
-- How waiting for an operation ends.
use terraform_provider_redpa.Base.{ℕ, ◌+◌, ◌≤◌, ◌<◌, ◌≡◌, refl, false, Option, none, some, Text}
use terraform_provider_redpa.Errors.{Reply, reply, refused}
use terraform_provider_redpa.Retry.{
  RetryError, RetryResult, succeeded, gave_up, timed_out, cancelled, panicked,
}
use terraform_provider_redpa.Retry.Round.{IsClock, IsSane, Explains}
use terraform_provider_redpa.Retry.Termination.{retry_ends}
use terraform_provider_redpa.Operation.{
  Operation, failed, Server, Poll, get_id, poll_operation, poll_world, are_we_done_yet, receive,
}
use terraform_provider_redpa.Retry.History.{Ended, retry-Ended}
use terraform_provider_redpa.Operation.History.{Polled, start, Asked-IsTimed}
use terraform_provider_redpa.Operation.{on_error}
use terraform_provider_redpa.Base.{ap, subst, ◌-◌, true}
use terraform_provider_redpa.Operation.Polling.{
  on_error-retryable, IsDone, verdict-IsDone, verdict-some, Tolerated,
}

-- The clock of the outside, over calls of the server too.
pub record IsServerClock {W : Type 0} (server : Server W) : Type 0 where
  pub call_later :
      (id : Text) (o : W) → server.world.now o ≤ server.world.now (server.get_operation id o).1
  pub rand_later : (n : ℕ) (o : W) → server.world.now o ≤ server.world.now (server.world.rand n o).1
  pub rand_below : (n : ℕ) (o : W) → 0 < n → (server.world.rand n o).0 < n
  pub wait_lasts :
      (d : ℕ) (o : W)
      → (server.world.wait d o).1 ≡ none
      → server.world.now o + d ≤ server.world.now (server.world.wait d o).0

module _ {W : Type 0} (server : Server W) (timeout : ℕ) (clock : IsServerClock server) where
  outside-receive :
      (p : Poll W) (a : Reply (Option Operation) × W) → (receive server timeout p a).1.outside ≡ a.1
  outside-receive p (reply op, o) = refl
  outside-receive p (refused err, o) = refl

  poll-IsClock : IsClock (poll_world server timeout) (poll_operation server timeout)
  unfolding poll_operation
  poll-IsClock = record {
    call_later = λ p. rw (outside-receive p _) (clock.call_later (get_id p.op) p.outside);
    rand_later = λ n p. clock.rand_later n p.outside;
    rand_below = λ n p. clock.rand_below n p.outside;
    wait_lasts = λ d p. clock.wait_lasts d p.outside;
  }

  -- An answer that makes the wait fail, `since` being the time of the last answer before it that
  -- was not a refusal: a failed operation, or a refusal that is not tolerated.
  abbrev pub Fatal : ℕ → Reply (Option Operation) × W → Type 0
  Fatal since (reply op, s) = (o : Operation) × (op ≡ some o) × (o.state ≡ failed)
  Fatal since (refused err, s) = ¬ Tolerated server timeout since err (server.world.now s)

  module _ (op₀ : Option Operation) (o₀ : W) where
    abbrev pub Concludes : ℕ → RetryResult → Poll W → Type 0
    Concludes end_time succeeded p =
        (since : ℕ) × (op : Option Operation) × (o : W) × Polled server op₀ o₀ since op o
        × (server.get_operation (get_id op) o ≡ (reply p.op, p.outside))
        × IsDone p.op
    Concludes end_time (gave_up e) p =
        (since : ℕ) × (op : Option Operation) × (o : W) × Polled server op₀ o₀ since op o
        × Fatal since (server.get_operation (get_id op) o)
    Concludes end_time (timed_out t e) p = end_time < server.world.now p.outside
    Concludes end_time (cancelled e) p = Unit
    Concludes end_time panicked p = ⊥

  received-IsDone :
      (p p' : Poll W) (a : Reply (Option Operation) × W)
      → receive server timeout p a ≡ (none, p')
      → (a ≡ (reply p'.op, p'.outside)) × IsDone p'.op
  received-IsDone p p' (reply op, s) e = (
    λ i. (reply ((e i).1.op), (e i).1.outside),
    subst IsDone (ap (λ r. r.1.op) e) (verdict-IsDone op (ap (λ r. r.0) e)),
  )
  received-IsDone p p' (refused err, s) e =
      let (r, same_error, iff) = on_error-retryable server timeout p err (server.world.now s) in
      absurd (cc (ap (λ r. r.0) e))

  received-Fatal :
      (p p' : Poll W) (r : RetryError) (a : Reply (Option Operation) × W)
      → receive server timeout p a ≡ (some r, p')
      → r.retryable ≡ false
      → Fatal p.last_successful_poll a
  received-Fatal p p' r (reply op, s) e final =
      let (o, named, open_state, iff) = verdict-some op {r = r} (ap (λ q. q.0) e) in
      (o, named, iff.0 final)
  received-Fatal p p' r (refused err, s) e final =
      let (r', same_error, iff) = on_error-retryable server timeout p err (server.world.now s) in
      let same_one : on_error server timeout err (server.world.now s - p.last_successful_poll)
          ≡ some r =
        ap (λ q. q.0) e in
      λ t. let retried : r'.retryable ≡ true = iff.1 t in cc

  concludes :
      (initial most : ℕ) (op₀ : Option Operation) (o₀ : W) (end_time : ℕ) (r : RetryResult)
      (p : Poll W)
      → Ended
          (poll_world server timeout)
          (poll_operation server timeout)
          timeout
          initial
          most
          (start server timeout op₀ o₀)
          r
          p
      → Explains
          (poll_world server timeout)
          (poll_operation server timeout)
          timeout
          initial
          most
          end_time
          r
          p
      → Concludes op₀ o₀ end_time r p
  unfolding poll_operation
  concludes initial most op₀ o₀ end_time succeeded p (p₀, asked, last) h =
      let (answer, is_done) = received-IsDone p₀ p _ last in
      (
        p₀.last_successful_poll,
        p₀.op,
        p₀.outside,
        Asked-IsTimed server timeout op₀ o₀ asked,
        answer,
        is_done,
      )
  concludes initial most op₀ o₀ end_time (gave_up _) p (p₀, asked, (r, last, same_error, final)) h =
      (
        p₀.last_successful_poll,
        p₀.op,
        p₀.outside,
        Asked-IsTimed server timeout op₀ o₀ asked,
        received-Fatal p₀ p r _ last final,
      )
  concludes initial most op₀ o₀ end_time (timed_out t _) p e (_, _, _, _, _, _, late) = late
  concludes initial most op₀ o₀ end_time (cancelled _) p e h = tt
  concludes initial most op₀ o₀ end_time panicked p e h = h

  -- Where the clock does not go back, random numbers are below their bound, a wait that is not
  -- cancelled lasts, and both wait units are from two nanoseconds to below 2^62, waiting returns
  -- within `timeout + 2` rounds. If it succeeds, the last answer of the server is an operation that
  -- is completed, or none at all. It gives up only when the server, polled again after each earlier
  -- answer, reported a failed operation, or refused with an error that is not transient, or refused
  -- when more than five minutes or a sixth of the timeout had passed since its last answer that was
  -- not a refusal, or since the start where there is none; it times out only after the deadline; and it never panics.
  pub are_we_done_yet_ends :
      {initial most : ℕ} (op : Option Operation) (o : W)
      → IsSane initial most
      → (r : RetryResult) × (p : Poll W) × (are_we_done_yet server timeout initial most
            (timeout + 2)
            op
            o
          ≡ some (r, p))
        × Concludes op o (server.world.now o + timeout) r p
  unfolding are_we_done_yet
  are_we_done_yet_ends {initial} {most} op o sane =
      let (r, p, e, h) =
        retry_ends (poll_world server timeout) (poll_operation server timeout) timeout initial most
          poll-IsClock sane
          (record { op = op; last_successful_poll = server.world.now o; outside = o }) in
      (
        r,
        p,
        e,
        concludes initial most op o (server.world.now o + timeout) r p
            (retry-Ended (poll_world server timeout) (poll_operation server timeout) timeout initial
              most (timeout + 2) _ r p e)
            h,
      )
