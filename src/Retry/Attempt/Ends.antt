-- ===== src/Retry/Attempt/Ends.antt =====
-- How a retried call ends.
use terraform_provider_redpa.Base.{
  ℕ, ◌+◌, ◌≤◌, ◌<◌, ◌≡◌, ◌≢◌, refl, ap, ◌⊎◌, inl, inr, true, false, Option, none, some, Text,
}
use terraform_provider_redpa.Errors.{GoError}
use terraform_provider_redpa.Retry.{
  World, RetryError, retryable_error, non_retryable_error, RetryResult, succeeded, gave_up,
  timed_out, cancelled, panicked,
}
use terraform_provider_redpa.Retry.Round.{IsClock, IsSane, Explains}
use terraform_provider_redpa.Retry.Termination.{retry_ends}
use terraform_provider_redpa.Retry.Attempt.{
  Verdict, done, again, fail, Outcome, yields, fails, panics, timeout_error, judged, closure,
  closure_world, result_of, retry_attempt, IsAttemptClock,
}
use terraform_provider_redpa.Base.{arith}

module _ {A W : Type 0} (world : World W) (attempt : W → Verdict A × W) where
  -- Why the whole ended as it did: the last round answered or failed, or asked for another one that
  -- came too late, or a wait was cancelled.
  abbrev pub Ended : Text → ℕ → Outcome A → W → Type 0
  Ended t end_time (yields a) s = (o : W) × (attempt o ≡ (done a, s))
  Ended t end_time (fails e) s =
      ((o : W) × (attempt o ≡ (fail e, s)))
      ⊎ ((o : W) × (err : GoError) × (attempt o ≡ (again err, s))
          × (e ≡ timeout_error t err)
          × (end_time < world.now s))
      ⊎ ((d : ℕ) × (o : W) × (world.wait d o ≡ (s, some e)))
  Ended t end_time panics s = ⊥

  closure-later :
      IsAttemptClock world attempt
      → (s : Option A × W) → world.now s.1 ≤ world.now (closure world attempt s).1.1
  unfolding closure
  closure-later clock (last, o) = judged-later (attempt o) (clock.attempt_later o)
    where
      judged-later :
          (r : Verdict A × W)
          → world.now o ≤ world.now r.1
          → world.now o ≤ world.now (judged world attempt r).1.1
      judged-later (done a, o') h = h
      judged-later (again e, o') h = h
      judged-later (fail e, o') h = h

  closure-IsClock :
      IsAttemptClock world attempt → IsClock (closure_world world attempt) (closure world attempt)
  closure-IsClock clock = record {
    call_later = λ s. closure-later clock s;
    rand_later = λ n s. clock.rand_later n s.1;
    rand_below = λ n s h. clock.rand_below n s.1 h;
    wait_lasts = λ d s e. clock.wait_lasts d s.1 e;
  }

  -- What a round's error says of the answer.
  judged_sound :
      (v : Verdict A × W) (r : RetryError) (last : Option A) (s : W)
      → judged world attempt v ≡ (some r, (last, s))
      → ((r.retryable ≡ true) × (v ≡ (again r.err, s)))
        ⊎ ((r.retryable ≡ false) × (v ≡ (fail r.err, s)))
  unfolding retryable_error non_retryable_error
  judged_sound (done a, o) r last s h = cc
  judged_sound (again e, o) r last s h = inl (cc, cc)
  judged_sound (fail e, o) r last s h = inr (cc, cc)

  judged_done :
      (v : Verdict A × W) (last : Option A) (s : W)
      → judged world attempt v ≡ (none, (last, s))
      → (a : A) × (last ≡ some a) × (v ≡ (done a, s))
  unfolding retryable_error non_retryable_error
  judged_done (done a, o) last s h = (a, cc, cc)
  judged_done (again e, o) last s h = cc
  judged_done (fail e, o) last s h = cc

  result_of-Ended :
      (t : Text) (timeout initial most end_time : ℕ) (r : RetryResult) (last : Option A) (s : W)
      → Explains
          (closure_world world attempt)
          (closure world attempt)
          timeout
          initial
          most
          end_time
          r
          (last, s)
      → Ended t end_time (result_of world attempt t r last) s
  unfolding closure
  result_of-Ended t timeout initial most end_time succeeded last s (s₀, e) =
      let (a, kept, v) = judged_done (attempt s₀.1) last s e in rw kept (s₀.1, v)
  result_of-Ended t timeout initial most end_time (gave_up err) last s (s₀, r, e, same_err, final) =
      elim (judged_sound (attempt s₀.1) r last s e) [
        | inl (retried, v) ↦ absurd (cc)
        | inr (gone, v) ↦ inl (s₀.1, cc)
      ]
  result_of-Ended t timeout initial most end_time (timed_out limit err) last s
        (s₀, r, e, same_err, retryable, _, late) =
      elim (judged_sound (attempt s₀.1) r last s e) [
        | inl (retried, v) ↦ inr (inl (s₀.1, err, cc, refl, late))
        | inr (gone, v) ↦ absurd (cc)
      ]
  result_of-Ended t timeout initial most end_time (cancelled err) last s (d, s₀, e) =
      inr (inr (d, s₀.1, ap (λ (q : (Option A × W) × Option GoError). (q.0.1, q.1)) e))
  result_of-Ended t timeout initial most end_time panicked last s h = h

  -- Where the clock does not go back, random numbers are below their bound, a wait that is not
  -- cancelled lasts, and both wait units are from two nanoseconds to below 2^62, a retried call
  -- returns within the rounds of its timeout and two more, with the last answer or an explained
  -- error, and never panics.
  pub retry_attempt_ends :
      (t : Text) (timeout : ℕ) {initial most : ℕ} (o : W)
      → IsAttemptClock world attempt
      → IsSane initial most
      → (r : Outcome A) × (s : W) × (retry_attempt world attempt t timeout initial most
            (timeout + 2)
            o
          ≡ some (r, s))
        × Ended t (world.now o + timeout) r s
  unfolding retry_attempt
  retry_attempt_ends t timeout {initial} {most} o clock sane =
      let (r, (last, s), e, h) =
        retry_ends (closure_world world attempt) (closure world attempt) timeout initial most
          (closure-IsClock clock) sane (none, o) in
      (
        result_of world attempt t r last,
        s,
        rw e refl,
        result_of-Ended t timeout initial most (world.now o + timeout) r last s h,
      )

module _ {A W : Type 0} (world : World W) (attempt : W → Verdict A × W) where
  -- Where the clock does not go back, random numbers are below their bound, a wait that is not
  -- cancelled lasts, and both wait units are from two nanoseconds to below 2^62: if no round fails for
  -- good, no wait is cancelled, and every round that asks for another one ends by the deadline, then
  -- a retried call yields an answer, that of its last round.
  pub retry_attempt_yields :
      (t : Text) (timeout : ℕ) {initial most : ℕ} (o : W)
      → IsAttemptClock world attempt
      → IsSane initial most
      → ((o' s : W) (err : GoError) → attempt o' ≢ (fail err, s))
      → ((d : ℕ) (o' s : W) (err : GoError) → world.wait d o' ≢ (s, some err))
      → ((o' s : W) (err : GoError)
          → attempt o' ≡ (again err, s)
          → world.now s ≤ world.now o + timeout)
      → (a : A) × (o' : W) × (s : W) × (retry_attempt world attempt t timeout initial most
            (timeout + 2)
            o
          ≡ some (yields a, s))
        × (attempt o' ≡ (done a, s))
  retry_attempt_yields t timeout {initial} {most} o clock sane unfailing uncancelled timely =
      let (r, s, e, h) = retry_attempt_ends world attempt t timeout o clock sane in answer r s e h
    where
      answer :
          (r : Outcome A) (s : W)
          → retry_attempt world attempt t timeout initial most (timeout + 2) o ≡ some (r, s)
          → Ended world attempt t (world.now o + timeout) r s
          → (a : A) × (o' : W) × (s : W) × (retry_attempt world attempt t timeout initial most
                (timeout + 2)
                o
              ≡ some (yields a, s))
            × (attempt o' ≡ (done a, s))
      answer (yields a) s e (o', h) = (a, o', s, e, h)
      answer (fails err) s e (inl (o', h)) = absurd (unfailing o' s err h)
      answer (fails err) s e (inr (inl (o', err', h, text, late))) =
          let early = timely o' s err' h in absurd (omega arith)
      answer (fails err) s e (inr (inr (d, o', h))) = absurd (uncancelled d o' s err h)
      answer panics s e h = absurd h
