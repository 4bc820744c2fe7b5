-- ===== src/Retry/Waits.antt =====
-- The waits as a closed formula, and the jitter's bounds.
use terraform_provider_redpa.Base.{
  ℕ, zero, suc, ◌*◌, ◌^◌, ◌<◌, ◌≡◌, ◌∙◌, ◌≢◌, arith, Text, same_refl, same_iff,
}
use Prim.Native.Nat.{min}
use native.Mathlib.Nat.{pow-suc}
use terraform_provider_redpa.Retry.{Backoff, next_backoff}
use terraform_provider_redpa.Retry.Round.{IsSane, InRange, next_backoff-InRange}

-- The backoff after n further failures with one message.
abbrev pub repeat_backoff : (initial most : ℕ) → Text → ℕ → Backoff → Backoff
repeat_backoff initial most message zero b = b
repeat_backoff initial most message (suc n) b =
    next_backoff initial most message (repeat_backoff initial most message n b)

repeat_message :
    (initial most : ℕ) (message : Text) (n : ℕ) (b : Backoff)
    → (repeat_backoff initial most message (suc n) b).last_error_message ≡ message
unfolding next_backoff
repeat_message initial most message n b =
    ground (arith, same_iff message (repeat_backoff initial most message n b).last_error_message)

repeat-InRange :
    (initial most : ℕ) (message : Text) (n : ℕ) (b : Backoff)
    → IsSane initial most
    → InRange b
    → InRange (repeat_backoff initial most message n b)
repeat-InRange initial most message zero b sane h = h
repeat-InRange initial most message (suc n) b sane h =
    next_backoff-InRange message (repeat_backoff initial most message n b) sane
      (repeat-InRange initial most message n b sane h)

doubled :
    (initial most : ℕ) (message : Text) (b : Backoff)
    → b.last_error_message ≡ message
    → b.wait_unit < 2 ^ 62
    → (next_backoff initial most message b).wait_unit ≡ min most (b.wait_unit * 2)
unfolding next_backoff
doubled initial most message b e h = rw (e, same_refl message) (ground arith)

-- After a failure with a new message and n more with the same one, the wait is the initial one
-- doubled n times, up to the cap.
pub backoff_closed_form :
    (initial most : ℕ) (message : Text) (n : ℕ) (b : Backoff)
    → IsSane initial most
    → InRange b
    → b.last_error_message ≢ message
    → (repeat_backoff initial most message (suc n) b).wait_unit ≡ min most (initial * 2 ^ n)
unfolding next_backoff
backoff_closed_form initial most message zero b sane h e =
    ground (arith, same_iff message b.last_error_message)
backoff_closed_form initial most message (suc n) b sane h e =
    let named = repeat_message initial most message n b in
    let kept = repeat-InRange initial most message (suc n) b sane h in
    doubled initial most message (repeat_backoff initial most message (suc n) b) named kept.1
    ∙ rw (backoff_closed_form initial most message n b sane h e, pow-suc) (grind (arith, pow-suc))
