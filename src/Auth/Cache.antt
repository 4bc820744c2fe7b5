-- ===== src/Auth/Cache.antt =====
-- redpanda/cloud/auth/cache.go: the file of cached tokens.
pub mod Expiry
use terraform_provider_redpa.Base.{
  ℕ, zero, suc, ◌+◌, ◌-◌, ◌*◌, ◌/◌, ◌%◌, ◌^◌, ◌≤◌, ◌<◌, ◌≡◌, refl, sym, ap, ◌∙◌, ◌≢◌, ◌↔◌, ◌⊎◌, inl,
  inr, Bool, true, false, not, ◌&&◌, ◌||◌, Option, none, some, List, [], ◌∷◌, ◌++◌, map, arith, ltb,
  leb, ◌==◌, if◌then◌else◌, ltb→lt, ==_iff, ==_refl, Bool-cases, is_some, Option-cases, length,
  drop, length-append, length-drop, drop-append, All, All-append, Text, codes, same, is_empty,
  strip, has_prefix, or_else, trim_prefix, trim_suffix, contains, to_lower, cut, split, trim_func,
  trim_space, trim_quotes, join, same_sound, same_refl, same_iff, strip-append, strip_sound,
  has_prefix-append, trim_prefix-append, contains-append_middle, to_lower-append, Dict, lookup,
  insert, delete, lookup-insert, lookup-delete, HasDistinctKeys, insert-HasDistinctKeys,
  delete-HasDistinctKeys,
}
use terraform_provider_redpa.Errors.{GoError}

pub record CacheEntry : Type 0 where
  pub access_token : Text
  pub token_type : Text
  pub expiry : ℕ

-- What reading and decoding the file gives: no file, another error of the read, a file that is not
-- JSON of the right shape, or its service principals, `none` for a nil map.
pub data CacheContent : Type 0 where
  absent unreadable malformed : CacheContent
  decoded : Option (Dict CacheEntry) → CacheContent

-- readCache: the entries, and whether there was an error. The error branches return an empty file.
unfoldable pub read_cache : CacheContent → Dict CacheEntry × Bool
read_cache absent = ([], false)
read_cache unreadable = ([], true)
read_cache malformed = ([], true)
read_cache (decoded none) = ([], false)
read_cache (decoded (some principals)) = (principals, false)

-- `entry.Expiry.Before(now)` deletes the entry.
unfoldable pub remove_expired : ℕ → Dict CacheEntry → Dict CacheEntry
remove_expired now [] = []
remove_expired now ((k, e) ∷ m) =
    let rest = remove_expired now m in if ltb e.expiry now then rest else (k, e) ∷ rest
