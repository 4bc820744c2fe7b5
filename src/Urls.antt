-- ===== src/Urls.antt =====
-- redpanda/utils/utils.go: the URLs of a cluster, and the IDs that a resource is imported by.
pub mod Normal
pub mod ImportId
mod Tests
use terraform_provider_redpa.Base.{
  ℕ, zero, suc, ◌+◌, ◌-◌, ◌*◌, ◌/◌, ◌%◌, ◌^◌, ◌≤◌, ◌<◌, ◌≡◌, refl, sym, ap, ◌∙◌, ◌≢◌, ◌↔◌, ◌⊎◌, inl,
  inr, Bool, true, false, not, ◌&&◌, ◌||◌, Option, none, some, List, [], ◌∷◌, ◌++◌, map, arith, ltb,
  leb, ◌==◌, if◌then◌else◌, ltb→lt, ==_iff, ==_refl, Bool-cases, is_some, Option-cases, length,
  drop, length-append, length-drop, drop-append, All, All-append, Text, codes, same, is_empty,
  strip, has_prefix, or_else, trim_prefix, trim_suffix, contains, to_lower, cut, split, trim_func,
  trim_space, trim_quotes, join, same_sound, same_refl, same_iff, strip-append, strip_sound,
  has_prefix-append, trim_prefix-append, contains-append_middle, to_lower-append, Dict, lookup,
  insert, delete, lookup-insert, lookup-delete, HasDistinctKeys, ℤ, pos, negsuc, atoi,
  insert-HasDistinctKeys, delete-HasDistinctKeys,
}

-- NormalizeClusterAPIURL.
abbrev pub bare_host : Text → Text
bare_host raw =
    trim_suffix
      (trim_suffix (trim_prefix (trim_prefix raw (codes "https://")) (codes "http://")) (codes "/"))
      (codes ":443")

unfoldable pub normalize_cluster_api_url : Text → Text
normalize_cluster_api_url [] = []
normalize_cluster_api_url (c ∷ raw) = codes "https://" ++ bare_host (c ∷ raw)

-- SplitImportID: the head and the tail, if the separator is there.
unfoldable pub split_import_id : (id sep : Text) → Option (Text × Text)
unfolding cut
split_import_id id sep = cut id sep
