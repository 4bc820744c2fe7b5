-- ===== src/Auth/Tests.antt =====
-- Tokens against a small cache file.
use terraform_provider_redpa.Base.{
  ℕ, ◌≡◌, refl, none, some, [], ◌∷◌, ◌++◌, arith, if◌then◌else◌, Text, codes, same, lookup,
  HasDistinctKeys, ◌⊎◌,
}
use terraform_provider_redpa.Errors.{reply}
use terraform_provider_redpa.Lookup.{Wrapping}
use terraform_provider_redpa.Auth.Cache.{CacheEntry, CacheContent, decoded, read_cache}
use terraform_provider_redpa.Auth.Cache.Expiry.{unexpired}
use terraform_provider_redpa.Auth.Token.{OauthToken, Call, entry_of, token}
use terraform_provider_redpa.Auth.Token.Laws.{IsFresh, token_fetched}
use terraform_provider_redpa.Auth.Source.{Environment}

abbrev prefixing : Wrapping
prefixing = record {
  wrap = λ t err. record err { text = t ++ err.text };
  wrap-text = λ t err. refl;
}

abbrev me : Text
me = codes "aud:me"

abbrev entry : ℕ → CacheEntry
entry t = record { access_token = codes "tok"; token_type = codes "Bearer"; expiry = t }

abbrev file : CacheContent
file = decoded (some ((me, entry 90000000000) ∷ (codes "aud:old", entry 5) ∷ []))

abbrev fresh_token : OauthToken
fresh_token = record {
  access_token = codes "new";
  token_type = codes "Bearer";
  expiry = 200000000000;
}

abbrev call_at : ℕ → Call
call_at t = record { expiry_now = t; ttl_now = t; inner = reply fresh_token; write_failure = none }

distinct_keys : HasDistinctKeys (read_cache file).0
unfolding read_cache lookup same
distinct_keys = (refl, (refl, tt))

late_stale : (e : CacheEntry) → ¬ IsFresh me (call_at 80000000000) file e
unfolding read_cache lookup same
late_stale e (found, fresh) = ground arith

token_fetched_example :
    ((token prefixing me (call_at 80000000000) file).1 ≡ reply fresh_token)
    × (((left : CacheContent) × ((call_at 80000000000).write_failure ≡ some left))
        ⊎ ((k : Text)
            → lookup k (read_cache (token prefixing me (call_at 80000000000) file).0).0 ≡ (
                if same me k
                then some (entry_of fresh_token)
                else unexpired 80000000000 (lookup k (read_cache file).0))))
token_fetched_example =
    token_fetched prefixing me (call_at 80000000000) file distinct_keys late_stale fresh_token refl

abbrev home : Environment
home = record {
  user_cache_dir = some (codes "/c");
  cache_disable = [];
  file_path_join = λ a b c. a ++ (codes "/" ++ (b ++ (codes "/" ++ c)));
}
