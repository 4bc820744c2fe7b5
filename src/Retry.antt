-- ===== src/Retry.antt =====
-- redpanda/utils/retry.go: calling a function again, with exponential backoff and jitter, until it
-- succeeds, fails for good, runs out of time or is cancelled. Times and durations are nanoseconds.
pub mod Round
pub mod Waits
pub mod Termination
pub mod History
pub mod Attempt
mod Tests
use terraform_provider_redpa.Base.{
  ℕ, zero, suc, ◌+◌, ◌-◌, ◌*◌, ◌/◌, ◌%◌, ◌^◌, ◌≤◌, ◌<◌, ◌≡◌, refl, sym, ap, ◌∙◌, ◌≢◌, ◌↔◌, ◌⊎◌, inl,
  inr, Bool, true, false, not, ◌&&◌, ◌||◌, Option, none, some, List, [], ◌∷◌, ◌++◌, map, arith, ltb,
  leb, ◌==◌, if◌then◌else◌, ltb→lt, ==_iff, ==_refl, Bool-cases, is_some, Option-cases, length,
  drop, length-append, length-drop, drop-append, All, All-append, Text, codes, same, is_empty,
  strip, has_prefix, or_else, trim_prefix, trim_suffix, contains, to_lower, cut, split, trim_func,
  trim_space, trim_quotes, join, same_sound, same_refl, same_iff, strip-append, strip_sound,
  has_prefix-append, trim_prefix-append, contains-append_middle, to_lower-append, Dict, lookup,
  insert, delete, lookup-insert, lookup-delete,
}
use terraform_provider_redpa.Errors.{GoError, plain_error}

-- What the loop uses of the outside: the clock, `rand.Int64N`, and the `select` on the timer and the
-- context, which gives `ctx.Err()` if the context has ended.
pub record World (S : Type 0) : Type 0 where
  pub now : S → ℕ
  pub rand : ℕ → S → ℕ × S
  pub wait : ℕ → S → S × Option GoError

pub record RetryError : Type 0 where
  pub err : GoError
  pub retryable : Bool

unfoldable pub retryable_error : Option GoError → RetryError
retryable_error none = record {
  err = plain_error (codes "RetryableError was passed a nil error");
  retryable = false;
}
retryable_error (some err) = record { err = err; retryable = true }

unfoldable pub non_retryable_error : Option GoError → RetryError
non_retryable_error none = record {
  err = plain_error (codes "NonRetryableError was passed a nil error");
  retryable = false;
}
non_retryable_error (some err) = record { err = err; retryable = false }

-- How the loop ends. `panicked` is `rand.Int64N` called with 0.
pub data RetryResult : Type 0 where
  succeeded : RetryResult
  gave_up : GoError → RetryResult
  timed_out : (timeout : ℕ) → GoError → RetryResult
  cancelled : GoError → RetryResult
  panicked : RetryResult

-- The variables that the loop changes.
pub record Backoff : Type 0 where
  pub wait_unit : ℕ
  pub last_error_message : Text
  pub attempt : ℕ

-- `if waitUnit > maxWaitUnit`, where a number from 2^63 on stands for a negative one.
abbrev pub cap_at : ℕ → ℕ → ℕ
cap_at most w = if ltb most w && ltb w (2 ^ 63) then most else w

-- The reset or the doubling of an int64, then the cap.
unfoldable pub next_backoff : (initial most : ℕ) → Text → Backoff → Backoff
next_backoff initial most message b =
    if same message b.last_error_message
    then record b { wait_unit = cap_at most (b.wait_unit * 2 % 2 ^ 64); attempt = b.attempt + 1 }
    else record {
      wait_unit = cap_at most initial;
      last_error_message = message;
      attempt = b.attempt + 1;
    }

pub data Next (S : Type 0) : Type 0 where
  stop : RetryResult → S → Next S
  again : Backoff → S → Next S

module _ {S : Type 0} (w : World S) (f : S → Option RetryError × S) (timeout initial most : ℕ) where
  -- From the drawn jitter on: sleep, then look at the context.
  abbrev woken : Backoff → S × Option GoError → Next S
  woken b (s, none) = again b s
  woken b (s, some cause) = stop (cancelled cause) s

  abbrev sleep : Backoff → ℕ × S → Next S
  sleep b (r, s) = woken b (w.wait (b.wait_unit / 2 + r) s)

  -- `rand.Int64N` panics on a number that is not positive.
  abbrev pause : Backoff → S → Next S
  pause b s =
      if b.wait_unit == 0 || leb (2 ^ 63) b.wait_unit
      then stop panicked s
      else sleep b (w.rand b.wait_unit s)

  abbrev judge : (end_time : ℕ) → Backoff → Option RetryError × S → Next S
  judge end_time b (none, s) = stop succeeded s
  judge end_time b (some e, s) =
      if not e.retryable
      then stop (gave_up e.err) s
      else if ltb end_time (w.now s)
      then stop (timed_out timeout e.err) s
      else pause (next_backoff initial most e.err.text b) s

  -- One round of the `for`.
  unfoldable pub round : (end_time : ℕ) → Backoff → S → Next S
  round end_time b s = judge end_time b (f s)

  -- The `for`, with fuel; `none` means that the fuel ran out.
  unfoldable pub retry_loop : ℕ → (end_time : ℕ) → Backoff → S → Option (RetryResult × S)
  retry_loop zero end_time b s = none
  retry_loop (suc fuel) end_time b s = elim (round end_time b s) [
    | stop r s' ↦ some (r, s')
    | again b' s' ↦ retry_loop fuel end_time b' s'
  ]

  unfoldable pub retry : ℕ → S → Option (RetryResult × S)
  retry fuel s =
      retry_loop fuel (w.now s + timeout)
        (record { wait_unit = initial; last_error_message = []; attempt = 0 }) s
