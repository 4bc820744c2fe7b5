-- ===== src/Auth/Token/Laws.antt =====
-- What a call of Token returns, and what it leaves in the file.
use terraform_provider_redpa.Base.{
  ◌+◌, ◌≤◌, ◌<◌, ◌≡◌, refl, sym, ap, ◌∙◌, Option, none, some, arith, if◌then◌else◌, Text, codes,
  same, same_refl, Dict, lookup, lookup-insert, HasDistinctKeys, insert-HasDistinctKeys, ◌⊎◌,
  Option-cases, inr, inl,
}
use terraform_provider_redpa.Errors.{GoError, Reply, reply, refused}
use terraform_provider_redpa.Lookup.{Wrapping}
use terraform_provider_redpa.Auth.Cache.{CacheEntry, CacheContent, read_cache, remove_expired}
use terraform_provider_redpa.Auth.Cache.Expiry.{
  unexpired, lookup-remove_expired, remove_expired-HasDistinctKeys,
}
use terraform_provider_redpa.Auth.Token.{
  OauthToken, min_ttl, Call, entry_of, token_of, token, get_valid_token, finish, fetched,
}

-- The file holds an entry for the key that lives for more than 15 seconds yet.
abbrev pub IsFresh : Text → Call → CacheContent → CacheEntry → Type 0
IsFresh key call file e =
    (lookup key (read_cache file).0 ≡ some e) × (call.ttl_now + min_ttl < e.expiry)

module _ (wr : Wrapping) (key : Text) (call : Call) (file : CacheContent)
    (distinct : HasDistinctKeys (read_cache file).0) where
  abbrev kept : Dict CacheEntry
  kept = remove_expired call.expiry_now (read_cache file).0

  -- Where keys are distinct and the clock did not go back between its two readings, a fresh entry is
  -- returned without a fetch, and the file is left alone.
  pub token_fresh :
      (e : CacheEntry)
      → call.expiry_now ≤ call.ttl_now
      → IsFresh key call file e
      → token wr key call file ≡ (file, reply (token_of e))
  unfolding token
  token_fresh e later (found, fresh) =
      let survives : lookup key kept ≡ some e =
        lookup-remove_expired call.expiry_now key (read_cache file).0 distinct
        ∙ rw found (ground arith) in
      rw survives (ground arith)

  module _ (stale : (e : CacheEntry) → ¬ IsFresh key call file e) where
    miss :
        (o : Option CacheEntry) → lookup key kept ≡ o → get_valid_token call o ≡ fetched call.inner
    unfolding get_valid_token
    miss none h = refl
    miss (some e) h =
        let known : unexpired call.expiry_now (lookup key (read_cache file).0) ≡ some e =
          sym (lookup-remove_expired call.expiry_now key (read_cache file).0 distinct) ∙ h in
        ground (arith, stale e, known)

    token-stale : token wr key call file ≡ finish wr key call file kept (fetched call.inner)
    unfolding token
    token-stale = rw (miss (lookup key kept) refl)

    -- Where keys are distinct and no entry is fresh, a failed fetch fails the call, and the file is left alone.
    pub token_fetch_failed :
        (err : GoError)
        → call.inner ≡ refused err
        → (e : GoError) × (token wr key call file ≡ (file, refused e))
    token_fetch_failed err h = (wr.wrap (codes "acquire token: ") err, token-stale ∙ rw h refl)

    token_stored :
        (t : OauthToken)
        → call.inner ≡ reply t
        → call.write_failure ≡ none
        → (k : Text)
        → lookup k (read_cache (token wr key call file).0).0 ≡ (
            if same key k
            then some (entry_of t)
            else unexpired call.expiry_now (lookup k (read_cache file).0))
    unfolding read_cache
    token_stored t h ok k =
        rw (token-stale, h, ok, lookup-insert key k)
          (rw (lookup-remove_expired call.expiry_now k (read_cache file).0 distinct) refl)

    -- Where keys are distinct and no entry is fresh, a fetched token is returned. Then the write
    -- failed, or the file holds the token under the key, and of the other entries those that have
    -- not expired.
    pub token_fetched :
        (t : OauthToken)
        → call.inner ≡ reply t
        → ((token wr key call file).1 ≡ reply t)
          × (((left : CacheContent) × (call.write_failure ≡ some left))
              ⊎ ((k : Text)
                  → lookup k (read_cache (token wr key call file).0).0 ≡ (
                      if same key k
                      then some (entry_of t)
                      else unexpired call.expiry_now (lookup k (read_cache file).0))))
    token_fetched t h = (
      ap (λ (r : CacheContent × Reply OauthToken). r.1) token-stale ∙ rw h refl,
      elim (Option-cases call.write_failure) [
        | inr lost ↦ inl lost
        | inl ok ↦ inr (token_stored t h ok)
      ],
    )

    fetched-HasDistinctKeys :
        (t : OauthToken)
        → call.inner ≡ reply t
        → call.write_failure ≡ none
        → HasDistinctKeys (read_cache (token wr key call file).0).0
    unfolding read_cache
    fetched-HasDistinctKeys t h ok =
        rw (token-stale, h, ok)
          (insert-HasDistinctKeys key (entry_of t) kept
            (remove_expired-HasDistinctKeys call.expiry_now (read_cache file).0 distinct))

-- A token that was fetched and written is returned by the next call as well, without a fetch and with
-- the file left alone, as long as it lives for more than 15 seconds then, where the first call found
-- distinct keys and no fresh entry, and the clock does not go back during the second.
pub token_reused :
    (wr : Wrapping) (key : Text) (call next : Call) (file : CacheContent) (t : OauthToken)
    → HasDistinctKeys (read_cache file).0
    → ((e : CacheEntry) → ¬ IsFresh key call file e)
    → call.inner ≡ reply t
    → call.write_failure ≡ none
    → next.expiry_now ≤ next.ttl_now
    → next.ttl_now + min_ttl < t.expiry
    → token wr key next (token wr key call file).0 ≡ ((token wr key call file).0, reply t)
token_reused wr key call next file t distinct stale h ok later fresh =
    let found : lookup key (read_cache (token wr key call file).0).0 ≡ some (entry_of t) =
      token_stored wr key call file distinct stale t h ok key ∙ rw (same_refl key) in
    token_fresh wr key next (token wr key call file).0
      (fetched-HasDistinctKeys wr key call file distinct stale t h ok) (entry_of t) later
      (found, fresh)
