-- ===== src/RateLimit/Tests.antt =====
-- Two headers, and a call that has to pause.
use terraform_provider_redpa.Base.{
  ◌≡◌, refl, none, some, [], ◌∷◌, Text, codes, same, split, trim_space, pos, atoi,
}
use terraform_provider_redpa.RateLimit.{
  RateLimit, Limits, parse_rate_limit, Invocation, duration_of,
}

abbrev header : Text
header = codes "remaining=0, limit=300,reset=15"

abbrev parsed : RateLimit
parsed = record { limit = pos 300; remaining = pos 0; reset = pos 15000000000 }

header-parsed : parse_rate_limit header ≡ some parsed
unfolding parse_rate_limit split trim_space atoi same duration_of
header-parsed = refl

broken_header : parse_rate_limit (codes "limit=monkey,remaining=1,reset=1") ≡ none
unfolding parse_rate_limit split trim_space atoi same
broken_header = refl

abbrev answered : Invocation
answered = record { error = none; headers = header ∷ []; pause_cut = none; wait = none }

abbrev old_limits : Limits
old_limits = record { limit = pos 8; burst = pos 50 }
