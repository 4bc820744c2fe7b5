-- ===== src/Auth/Retry.antt =====
-- redpanda/cloud/auth/retry.go: when a request to the token endpoint is sent again.
use terraform_provider_redpa.Base.{
  ℕ, ◌-◌, ◌*◌, ◌%◌, ◌^◌, ◌≤◌, ◌≡◌, ◌↔◌, Bool, true, false, ◌&&◌, Option, none, some, [], ◌∷◌, arith,
  ltb, ◌==◌, if◌then◌else◌, Text, ℤ, pos, negsuc, atoi,
}
use terraform_provider_redpa.Errors.{GoError, plain_error}

-- The bits of an int64, read as a signed number.
abbrev pub wrap64 : ℕ → ℤ
wrap64 n = if ltb (n % 2 ^ 64) (2 ^ 63) then pos (n % 2 ^ 64) else negsuc (2 ^ 64 - n % 2 ^ 64 - 1)

-- `time.Duration(secs) * time.Second`.
unfoldable pub seconds : ℕ → ℤ
seconds secs = wrap64 (secs * 1000000000)

-- 30 seconds.
abbrev pub retry_wait_max : ℕ
retry_wait_max = 30000000000

abbrev non_negative : Option ℤ → Option ℤ
non_negative none = none
non_negative (some (negsuc n)) = none
non_negative (some (pos n)) = some (seconds n)

unfoldable pub parse_retry_after : Text → Option ℤ
unfolding seconds
parse_retry_after [] = none
parse_retry_after (c ∷ s) = non_negative (atoi (c ∷ s))

-- The header is that of Retry-After, empty if it is missing.
pub record Response : Type 0 where
  pub status_code : ℕ
  pub retry_after : Text

abbrev exceeds : Option ℤ → Bool
exceeds none = false
exceeds (some (negsuc n)) = false
exceeds (some (pos n)) = ltb retry_wait_max n

abbrev pub is_too_long : Option Response → Bool
is_too_long none = false
is_too_long (some resp) = resp.status_code == 429 && exceeds (parse_retry_after resp.retry_after)

-- checkRetry over what retryablehttp.DefaultRetryPolicy returns. The text of the error names the
-- duration, which the standard library prints.
unfoldable pub check_retry :
    (too_long_text : Text) → Bool × Option GoError → Option Response → Bool × Option GoError
check_retry too_long_text (should_retry, some err) resp = (should_retry, some err)
check_retry too_long_text (false, none) resp = (false, none)
check_retry too_long_text (true, none) resp =
    if is_too_long resp then (false, some (plain_error too_long_text)) else (true, none)

-- A request is sent again without an error exactly if the default policy says so and the endpoint
-- does not ask, with status 429, for a wait of more than 30 seconds.
pub check_retry_iff :
    (text : Text) (policy : Bool × Option GoError) (resp : Option Response)
    → (check_retry text policy resp ≡ (true, none))
      ↔ ((policy ≡ (true, none)) × (is_too_long resp ≡ false))
unfolding check_retry
check_retry_iff text (b, some err) resp = ground arith
check_retry_iff text (false, none) resp = ground arith
check_retry_iff text (true, none) resp = ground arith

-- The wait that a header of up to 9223372036 seconds asks for is taken as it stands.
pub seconds_exact : (secs : ℕ) → secs ≤ 9223372036 → seconds secs ≡ pos (secs * 1000000000)
unfolding seconds
seconds_exact secs h = ground arith
