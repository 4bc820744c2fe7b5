-- ===== src/Auth/Token.antt =====
-- redpanda/cloud/auth/tokensource.go: a token from the cache file, or a fresh one that is put there.
-- The mutex makes each call of `token` one step.
pub mod Laws
use terraform_provider_redpa.Base.{
  ℕ, ◌+◌, Bool, true, false, Option, none, some, ltb, if◌then◌else◌, Text, codes, or_else, Dict,
  lookup, insert,
}
use terraform_provider_redpa.Errors.{Reply, reply, refused}
use terraform_provider_redpa.Lookup.{Wrapping}
use terraform_provider_redpa.Auth.Cache.{
  CacheEntry, CacheContent, decoded, read_cache, remove_expired,
}

pub record OauthToken : Type 0 where
  pub access_token : Text
  pub token_type : Text
  pub expiry : ℕ

-- 15 seconds.
abbrev pub min_ttl : ℕ
min_ttl = 15000000000

-- What the outside contributes to one call: the two readings of the clock, the reply of the inner
-- source, and what a failed write leaves in the file (`none` if the write succeeds).
pub record Call : Type 0 where
  pub expiry_now : ℕ
  pub ttl_now : ℕ
  pub inner : Reply OauthToken
  pub write_failure : Option CacheContent

abbrev pub entry_of : OauthToken → CacheEntry
entry_of t = record { access_token = t.access_token; token_type = t.token_type; expiry = t.expiry }

abbrev pub token_of : CacheEntry → OauthToken
token_of e = record { access_token = e.access_token; token_type = e.token_type; expiry = e.expiry }

abbrev fetched : Reply OauthToken → Reply (OauthToken × Bool)
fetched (reply t) = reply (t, false)
fetched (refused err) = refused err

-- The token, and whether it came from the cache.
unfoldable pub get_valid_token : Call → Option CacheEntry → Reply (OauthToken × Bool)
get_valid_token call none = fetched call.inner
get_valid_token call (some hit) =
    if ltb (call.ttl_now + min_ttl) hit.expiry
    then reply (token_of hit, true)
    else fetched call.inner

abbrev written : Call → Dict CacheEntry → CacheContent
written call principals = or_else call.write_failure (decoded (some principals))

module _ (wr : Wrapping) (key : Text) where
  abbrev finish :
      Call
      → CacheContent
      → Dict CacheEntry
      → Reply (OauthToken × Bool)
      → CacheContent × Reply OauthToken
  finish call file principals (refused err) =
      (file, refused (wr.wrap (codes "acquire token: ") err))
  finish call file principals (reply (t, true)) = (file, reply t)
  finish call file principals (reply (t, false)) =
      (written call (insert key (entry_of t) principals), reply t)

  -- Token: the new content of the file, and the reply.
  unfoldable pub token : Call → CacheContent → CacheContent × Reply OauthToken
  unfolding get_valid_token read_cache
  token call file =
      let principals = remove_expired call.expiry_now (read_cache file).0 in
      finish call file principals (get_valid_token call (lookup key principals))
