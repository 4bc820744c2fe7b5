-- ===== src/Retry/Termination.antt =====
-- The loop ends, and its result is explained by what happened last.
use terraform_provider_redpa.Base.{ℕ, zero, suc, ◌+◌, ◌-◌, ◌≤◌, ◌<◌, ◌≡◌, refl, Option, some, arith}
use terraform_provider_redpa.Retry.{
  World, RetryError, RetryResult, Backoff, Next, stop, again, round, retry_loop, retry,
}
use terraform_provider_redpa.Retry.Round.{
  IsClock, IsSane, InRange, Explains, RoundHolds, round-holds,
}

module _ {S : Type 0} (w : World S) (f : S → Option RetryError × S) (timeout initial most : ℕ)
    (clock : IsClock w f) (sane : IsSane initial most) where
  abbrev Ends : ℕ → Option (RetryResult × S) → Type 0
  Ends end_time o =
      (r : RetryResult) × (s : S) × (o ≡ some (r, s))
      × Explains w f timeout initial most end_time r s

  abbrev continue_with : ℕ → ℕ → Next S → Option (RetryResult × S)
  continue_with fuel end_time (stop r s) = some (r, s)
  continue_with fuel end_time (again b s) = retry_loop w f timeout initial most fuel end_time b s

  retry_loop-suc :
      (fuel end_time : ℕ) (b : Backoff) (s : S)
      → retry_loop w f timeout initial most (suc fuel) end_time b s
        ≡ continue_with fuel end_time (round w f timeout initial most end_time b s)
  unfolding retry_loop
  retry_loop-suc fuel end_time b s = ground arith

  continue-Ends :
      (fuel end_time : ℕ) (s : S) (n : Next S)
      → RoundHolds w f timeout initial most end_time s n
      → ((b : Backoff) (s' : S)
          → InRange b
          → w.now s ≤ end_time
          → w.now s < w.now s'
          → Ends end_time (retry_loop w f timeout initial most fuel end_time b s'))
      → Ends end_time (continue_with fuel end_time n)
  continue-Ends fuel end_time s (stop r s') h rec = (r, s', refl, h)
  continue-Ends fuel end_time s (again b s') h rec = rec b s' h.2 h.0 h.1

  -- Fuel for every nanosecond that is left, and two more rounds, is enough.
  retry_loop-Ends :
      (fuel end_time : ℕ) (b : Backoff) (s : S)
      → InRange b
      → end_time + 1 - w.now s < fuel
      → Ends end_time (retry_loop w f timeout initial most fuel end_time b s)
  retry_loop-Ends zero end_time b s h k = absurd (omega arith)
  retry_loop-Ends (suc fuel) end_time b s h k =
      let held = round-holds w f timeout initial most clock sane end_time b s h in
      rw (retry_loop-suc fuel end_time b s) (
        continue-Ends fuel end_time s _ held
          (λ b' s' h' p q. retry_loop-Ends fuel end_time b' s' h' (omega arith)))

  -- Where the clock does not go back, random numbers are below their bound, a wait that is not
  -- cancelled lasts, and both wait units are from two nanoseconds to below 2^62, `timeout + 2`
  -- rounds suffice for the call to return, and the result is explained: success by a last call
  -- without an error, giving up by one with a final error, a timeout by a retryable error and a
  -- clock past the deadline, and cancellation by the context. It never panics.
  pub retry_ends :
      (s : S)
      → (r : RetryResult) × (s' : S) × (retry w f timeout initial most (timeout + 2) s
          ≡ some (r, s'))
        × Explains w f timeout initial most (w.now s + timeout) r s'
  unfolding retry
  retry_ends s =
      retry_loop-Ends (timeout + 2) (w.now s + timeout) _ s (sane.initial_pos, sane.initial_small)
        (omega arith)
