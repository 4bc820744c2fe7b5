-- ===== src/Retry/Tests.antt =====
-- The loop on a scripted outside: a clock, and the replies that are still to come.
use terraform_provider_redpa.Retry.Attempt.{
  Verdict, done, again, yields, retry_attempt, IsAttemptClock,
}
use terraform_provider_redpa.Retry.Attempt.Ends.{retry_attempt_yields}
use terraform_provider_redpa.Base.{
  ltb, if◌then◌else◌, ℕ, ◌+◌, ◌≤◌, ◌≡◌, refl, true, Option, none, some, List, [], ◌∷◌, arith, codes,
  same,
}
use terraform_provider_redpa.Errors.{plain_error}
use terraform_provider_redpa.Retry.{
  World, RetryError, RetryResult, succeeded, next_backoff, round, retry_loop, retry,
}
use terraform_provider_redpa.Retry.Round.{IsClock, IsSane, Explains}
use terraform_provider_redpa.Retry.Termination.{retry_ends}

abbrev Script : Type 0
Script = ℕ × List (Option RetryError)

abbrev scripted : World Script
scripted = record { now = λ s. s.0; rand = λ n s. (0, s); wait = λ d s. ((s.0 + d, s.1), none) }

abbrev next_reply : Script → Option RetryError × Script
next_reply (t, []) = (none, (t, []))
next_reply (t, r ∷ rs) = (r, (t, rs))

abbrev busy : Option RetryError
busy = some (record { err = plain_error (codes "busy"); retryable = true })

scripted-later : (s : Script) → s.0 ≤ (next_reply s).1.0
scripted-later (t, []) = omega arith
scripted-later (t, r ∷ rs) = omega arith

scripted-IsClock : IsClock scripted next_reply
scripted-IsClock = record {
  call_later = scripted-later;
  rand_later = λ n s. omega arith;
  rand_below = λ n s h. h;
  wait_lasts = λ d s e. omega arith;
}

small-IsSane : IsSane 10 40
small-IsSane = record {
  initial_pos = omega arith;
  most_pos = omega arith;
  initial_small = omega arith;
  most_small = omega arith;
}

-- Two failures with one message wait 5 and 10; the third call succeeds.
retry_runs :
    retry scripted next_reply 100 10 40 5 (0, busy ∷ busy ∷ []) ≡ some (succeeded, (15, []))
unfolding retry retry_loop round next_backoff same
retry_runs = refl

retry_ends_example :
    (r : RetryResult) × (s' : Script) × (retry scripted next_reply 100 10 40 102
        (0, busy ∷ busy ∷ [])
      ≡ some (r, s'))
    × Explains scripted next_reply 100 10 40 100 r s'
retry_ends_example =
    retry_ends scripted next_reply 100 10 40 scripted-IsClock small-IsSane (0, busy ∷ busy ∷ [])

-- An attempt asks for another round for five nanoseconds.
abbrev warming_up : ℕ → Verdict ℕ × ℕ
warming_up t = if ltb t 5 then (again (plain_error (codes "busy")), t) else (done t, t)

abbrev ticking : World ℕ
ticking = record { now = λ t. t; rand = λ n t. (0, t); wait = λ d t. (t + d, none) }

warming_up-IsAttemptClock : IsAttemptClock ticking warming_up
warming_up-IsAttemptClock = record {
  attempt_later = λ t. ground arith;
  rand_later = λ n t. omega arith;
  rand_below = λ n t h. h;
  wait_lasts = λ d t e. omega arith;
}

retry_attempt_yields_example :
    (a : ℕ) × (o' : ℕ) × (s : ℕ) × (retry_attempt ticking warming_up [] 100 10 40 102 0
      ≡ some (yields a, s))
    × (warming_up o' ≡ (done a, s))
retry_attempt_yields_example =
    retry_attempt_yields ticking warming_up [] 100 0 warming_up-IsAttemptClock small-IsSane
      (λ o' s err h. ground arith) (λ d o' s err h. cc) (λ o' s err h. ground arith)
