-- ===== src/Auth/Cache/Expiry.antt =====
-- What removing the expired entries keeps.
use terraform_provider_redpa.Base.{
  ℕ, ◌≡◌, refl, Option, none, some, [], ◌∷◌, arith, ltb, if◌then◌else◌, Text, same_iff, Dict,
  lookup, HasDistinctKeys,
}
use terraform_provider_redpa.Auth.Cache.{CacheEntry, remove_expired}

abbrev pub unexpired : ℕ → Option CacheEntry → Option CacheEntry
unexpired now none = none
unexpired now (some e) = if ltb e.expiry now then none else some e

lookup-remove_expired-none :
    (now : ℕ) (k : Text) (m : Dict CacheEntry)
    → lookup k m ≡ none
    → lookup k (remove_expired now m) ≡ none
unfolding lookup remove_expired
lookup-remove_expired-none now k [] h = refl
lookup-remove_expired-none now k ((j, e) ∷ m) h = ground (arith, lookup-remove_expired-none now k m)

-- Removing the expired entries changes no other one.
pub lookup-remove_expired :
    (now : ℕ) (k : Text) (m : Dict CacheEntry)
    → HasDistinctKeys m
    → lookup k (remove_expired now m) ≡ unexpired now (lookup k m)
unfolding lookup remove_expired
lookup-remove_expired now k [] h = refl
lookup-remove_expired now k ((j, e) ∷ m) (fresh, h) =
    ground
      (arith, same_iff j k, lookup-remove_expired now k m h, lookup-remove_expired-none now k m)

pub remove_expired-HasDistinctKeys :
    (now : ℕ) (m : Dict CacheEntry) → HasDistinctKeys m → HasDistinctKeys (remove_expired now m)
unfolding remove_expired
remove_expired-HasDistinctKeys now [] h = tt
remove_expired-HasDistinctKeys now ((j, e) ∷ m) (fresh, h) =
    ground (arith, lookup-remove_expired-none now j m, remove_expired-HasDistinctKeys now m h)
