-- ===== src/Retry/Attempt.antt =====
-- Retry around one call: the closure of a handler answers, asks for another round, or fails, and
-- keeps its last answer in a variable of the handler.
pub mod Ends
use terraform_provider_redpa.Base.{ℕ, ◌+◌, ◌≤◌, ◌<◌, ◌≡◌, Option, none, some, ◌++◌, Text, codes}
use terraform_provider_redpa.Errors.{GoError, GrpcStatus}
use terraform_provider_redpa.Retry.{
  World, RetryError, retryable_error, non_retryable_error, RetryResult, succeeded, gave_up,
  timed_out, cancelled, panicked, retry,
}

-- What one round of a closure makes of the answer that it got.
pub data Verdict (A : Type 0) : Type 0 where
  done : A → Verdict A
  again : GoError → Verdict A
  fail : GoError → Verdict A

-- What the handler sees of the whole: the last answer or an error.
pub data Outcome (A : Type 0) : Type 0 where
  yields : A → Outcome A
  fails : GoError → Outcome A
  panics : Outcome A

abbrev restated : Text → Option GrpcStatus → Option GrpcStatus
restated text none = none
restated text (some status) = some (record status { message = text })

-- `TimeoutError`: its text, with the chain of the error that it wraps.
abbrev pub timeout_error : Text → GoError → GoError
timeout_error t err =
    let text = codes "timed out after " ++ (t ++ (codes ": " ++ err.text)) in
    record err { text = text; status = restated text err.status }

module _ {A W : Type 0} (world : World W) (attempt : W → Verdict A × W) where
  abbrev judged : Verdict A × W → Option RetryError × (Option A × W)
  judged (done a, o) = (none, (some a, o))
  judged (again err, o) = (some (retryable_error (some err)), (none, o))
  judged (fail err, o) = (some (non_retryable_error (some err)), (none, o))

  unfoldable pub closure : Option A × W → Option RetryError × (Option A × W)
  unfolding retryable_error non_retryable_error
  closure s = judged (attempt s.1)

  abbrev drawn : Option A → ℕ × W → ℕ × (Option A × W)
  drawn last (n, o) = (n, (last, o))

  abbrev awake : Option A → W × Option GoError → (Option A × W) × Option GoError
  awake last (o, e) = ((last, o), e)

  abbrev pub closure_world : World (Option A × W)
  closure_world = record {
    now = λ s. world.now s.1;
    rand = λ n s. drawn s.0 (world.rand n s.1);
    wait = λ d s. awake s.0 (world.wait d s.1);
  }

  abbrev pub result_of : (timeout_text : Text) → RetryResult → Option A → Outcome A
  result_of t succeeded (some a) = yields a
  result_of t succeeded none = panics
  result_of t (gave_up err) last = fails err
  result_of t (timed_out timeout err) last = fails (timeout_error t err)
  result_of t (cancelled err) last = fails err
  result_of t panicked last = panics

  abbrev pub seen : Text → Option (RetryResult × (Option A × W)) → Option (Outcome A × W)
  seen t none = none
  seen t (some (r, (last, o))) = some (result_of t r last, o)

  unfoldable pub retry_attempt :
      (timeout_text : Text) (timeout initial most fuel : ℕ) → W → Option (Outcome A × W)
  retry_attempt t timeout initial most fuel o =
      seen t (retry closure_world closure timeout initial most fuel (none, o))

  -- The clock does not go back over a round, random numbers are below their bound, and a wait that
  -- is not cancelled lasts.
  pub record IsAttemptClock : Type 0 where
    pub attempt_later : (o : W) → world.now o ≤ world.now (attempt o).1
    pub rand_later : (n : ℕ) (o : W) → world.now o ≤ world.now (world.rand n o).1
    pub rand_below : (n : ℕ) (o : W) → 0 < n → (world.rand n o).0 < n
    pub wait_lasts :
        (d : ℕ) (o : W) → (world.wait d o).1 ≡ none → world.now o + d ≤ world.now (world.wait d o).0
