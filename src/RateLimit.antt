-- ===== src/RateLimit.antt =====
-- redpanda/cloud/ratelimiter.go: the client's rate limiter follows the limits that the server sends.
pub mod Parse
pub mod Interceptor
mod Tests
use terraform_provider_redpa.Base.{
  ℕ, zero, suc, ◌+◌, ◌-◌, ◌*◌, ◌/◌, ◌^◌, Bool, true, false, not, ◌&&◌, Option, none, some, List, [],
  ◌∷◌, ◌==◌, if◌then◌else◌, Text, codes, same, split, trim_space, ℤ, pos, negsuc, atoi, ◌||◌,
}
use terraform_provider_redpa.Auth.Retry.{wrap64}
use terraform_provider_redpa.Errors.{GoError}

-- The constants 60.0 and 10.0 take the type int where they divide one.
abbrev pub limit_period : ℕ
limit_period = 60

abbrev pub burst_period : ℕ
burst_period = 10

-- Go's division of an int, which truncates towards zero.
unfoldable pub quotient : ℤ → ℕ → ℤ
quotient (pos n) d = pos (n / d)
quotient (negsuc n) d = if suc n / d == 0 then pos 0 else negsuc (suc n / d - 1)

-- `time.Duration(v) * time.Second`.
unfoldable pub duration_of : ℤ → ℤ
duration_of (pos n) = wrap64 (n * 1000000000)
duration_of (negsuc n) = wrap64 (2 ^ 128 - suc n * 1000000000)

-- The limiter of golang.org/x/time/rate, by its limit per second and its burst.
pub record Limits : Type 0 where
  pub limit : ℤ
  pub burst : ℤ

unfoldable pub new_rate_limiter : ℤ → Limits
new_rate_limiter limit = record {
  limit = quotient limit limit_period;
  burst = quotient limit burst_period;
}

pub record RateLimit : Type 0 where
  pub limit : ℤ
  pub remaining : ℤ
  pub reset : ℤ

-- The variables of parseRateLimit: a value once its key was seen.
pub record Seen : Type 0 where
  pub limit : Option ℤ
  pub remaining : Option ℤ
  pub reset : Option ℤ

-- The `switch` on the key.
abbrev record_value : Text → ℤ → Seen → Seen
record_value key v seen =
    if same key (codes "limit")
    then record seen { limit = some v }
    else if same key (codes "remaining")
    then record seen { remaining = some v }
    else if same key (codes "reset")
    then record seen { reset = some (duration_of v) }
    else seen

abbrev record_pair : Text → Option ℤ → Seen → Option Seen
record_pair key none seen = none
record_pair key (some v) seen = some (record_value key v seen)

-- One part of the header: skipped if it is not key=value, an error (`none`) if the value is no int.
abbrev record_part : List Text → Seen → Option Seen
record_part (key ∷ value ∷ []) seen = record_pair (trim_space key) (atoi (trim_space value)) seen
record_part [] seen = some seen
record_part (a ∷ []) seen = some seen
record_part (a ∷ b ∷ c ∷ rest) seen = some seen

infixl 5 ◌>>=◌
abbrev pub ◌>>=◌ {ℓ κ} : {A : Type ℓ} {B : Type κ} → Option A → (A → Option B) → Option B
none >>= k = none
some a >>= k = k a

unfoldable pub record_parts : List Text → Seen → Option Seen
record_parts [] seen = some seen
record_parts (part ∷ parts) seen = do
  next ← record_part (split part b'=') seen
  record_parts parts next

abbrev complete : Seen → Option RateLimit
complete seen = do
  limit ← seen.limit
  remaining ← seen.remaining
  reset ← seen.reset
  some (record { limit = limit; remaining = remaining; reset = reset })

abbrev nothing_seen : Seen
nothing_seen = record { limit = none; remaining = none; reset = none }

abbrev is_three : List Text → Bool
is_three (a ∷ b ∷ c ∷ []) = true
is_three (a ∷ b ∷ c ∷ d ∷ rest) = false
is_three (a ∷ b ∷ []) = false
is_three (a ∷ []) = false
is_three [] = false

-- parseRateLimit; `none` stands for its three errors.
unfoldable pub parse_rate_limit : Text → Option RateLimit
unfolding record_parts
parse_rate_limit header =
    let parts = split header b',' in
    if not (is_three parts) then none else record_parts parts nothing_seen >>= complete

-- What the outside answers to one call: the invoker's error, the values of the response's
-- `ratelimit` header, whether the context ends during the pause, and what the limiter's Wait returns.
pub record Invocation : Type 0 where
  pub error : Option GoError
  pub headers : List Text
  pub pause_cut : Option GoError
  pub wait : Option GoError

-- What the call does: the limits afterwards, the pause that it made, in nanoseconds, whether it
-- waited for the limiter, and its error.
pub record Effect : Type 0 where
  pub limits : Limits
  pub pause : Option ℤ
  pub waited : Bool
  pub error : Option GoError

abbrev is_zero : ℤ → Bool
is_zero (pos n) = n == 0
is_zero (negsuc n) = false

abbrev is_positive : ℤ → Bool
is_positive (pos zero) = false
is_positive (pos (suc n)) = true
is_positive (negsuc n) = false

-- `reset + 1*time.Second`, for a positive reset.
abbrev one_second_more : ℤ → ℤ
one_second_more (pos n) = wrap64 (n + 1000000000)
one_second_more (negsuc n) = negsuc n

abbrev paced : Invocation → Limits → RateLimit → Effect
paced inv limits rl =
    if is_zero rl.remaining && is_positive rl.reset
    then elim inv.pause_cut [
      | some err ↦ record {
        limits = limits;
        pause = some (one_second_more rl.reset);
        waited = false;
        error = some err;
      }
      | none ↦ record {
        limits = limits;
        pause = some (one_second_more rl.reset);
        waited = true;
        error = inv.wait;
      }
    ]
    else record { limits = limits; pause = none; waited = true; error = inv.wait }

abbrev quiet : Limits → Option GoError → Effect
quiet limits err = record { limits = limits; pause = none; waited = false; error = err }

abbrev same_int : ℤ → ℤ → Bool
same_int (pos m) (pos n) = m == n
same_int (pos m) (negsuc n) = false
same_int (negsuc m) (pos n) = false
same_int (negsuc m) (negsuc n) = m == n

-- SetLimit and SetBurst, if either differs.
unfoldable pub update_limits : Limits → Limits → Limits
update_limits old new =
    if not (same_int old.limit new.limit) || not (same_int old.burst new.burst) then new else old

unfoldable pub limiter : Invocation → Limits → Effect
unfolding new_rate_limiter update_limits
limiter inv limits = elim inv.error [
  | some err ↦ quiet limits (some err)
  | none ↦ elim inv.headers [
    | [] ↦ quiet limits none
    | header ∷ more ↦ elim (parse_rate_limit header) [
      | none ↦ quiet limits none
      | some rl ↦ paced inv (update_limits limits (new_rate_limiter rl.limit)) rl
    ]
  ]
]
