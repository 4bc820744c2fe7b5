-- ===== src/RateLimit/Interceptor.antt =====
-- What one call through the rate limiter does.
use terraform_provider_redpa.Base.{
  ◌≡◌, ◌≢◌, ◌↔◌, true, false, Option, none, some, [], ◌∷◌, arith, ℤ, pos, negsuc,
}
use terraform_provider_redpa.RateLimit.{
  RateLimit, Limits, new_rate_limiter, update_limits, same_int, parse_rate_limit, Invocation,
  limiter, one_second_more, is_zero, is_positive,
}

same_int_sound : (a b : ℤ) → same_int a b ≡ true → a ≡ b
same_int_sound (pos m) (pos n) h = ground arith
same_int_sound (pos m) (negsuc n) h = cc
same_int_sound (negsuc m) (pos n) h = cc
same_int_sound (negsuc m) (negsuc n) h = ground arith

update_limits_lem : (old new : Limits) → update_limits old new ≡ new
unfolding update_limits
update_limits_lem old new =
    ground (arith, same_int_sound old.limit new.limit, same_int_sound old.burst new.burst)

-- The header that counts: the first, if the call came back without an error and it can be read.
abbrev pub announced : Invocation → Option RateLimit
announced inv = elim inv.error [
  | some err ↦ none
  | none ↦ elim inv.headers [ [] ↦ none | header ∷ more ↦ parse_rate_limit header ]
]

abbrev pub IsExhausted : RateLimit → Type 0
IsExhausted rl = (is_zero rl.remaining ≡ true) × (is_positive rl.reset ≡ true)

-- Without a header that can be read, the limits stay, there is no pause, and the error is the call's.
pub limiter_unannounced :
    (inv : Invocation) (limits : Limits)
    → announced inv ≡ none
    → limiter inv limits
      ≡ record { limits = limits; pause = none; waited = false; error = inv.error }
unfolding limiter
limiter_unannounced inv limits h = ground arith

-- With one, the limits become the header's, for a second and for a burst; the call pauses exactly
-- when no request remains and the reset time is positive, for a second longer than that; and it
-- waits for the limiter, whose error it returns, unless the context ends in the pause.
pub limiter-announced :
    (inv : Invocation) (limits : Limits) (rl : RateLimit)
    → announced inv ≡ some rl
    → ((limiter inv limits).limits ≡ new_rate_limiter rl.limit)
      × (((limiter inv limits).pause ≡ some (one_second_more rl.reset)) ↔ IsExhausted rl)
      × (((limiter inv limits).waited ≡ false) ↔ (IsExhausted rl × (inv.pause_cut ≢ none)))
      × ((limiter inv limits).waited ≡ true → (limiter inv limits).error ≡ inv.wait)
unfolding limiter
limiter-announced inv limits rl h = ground (
  arith,
  same_int_sound limits.limit (new_rate_limiter rl.limit).limit,
  same_int_sound limits.burst (new_rate_limiter rl.limit).burst,
)
