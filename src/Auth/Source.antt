-- ===== src/Auth/Source.antt =====
-- redpanda/cloud/auth/source.go and paths.go: which source of tokens is built.
use terraform_provider_redpa.Base.{
  ◌≡◌, refl, ◌≢◌, ◌↔◌, Bool, true, false, Option, none, some, [], ◌∷◌, ◌++◌, arith, if◌then◌else◌,
  Text, codes, same, is_empty,
}
use terraform_provider_redpa.Errors.{plain_error, Reply, reply, refused}

unfoldable pub cache_key : Text → Text → Text
cache_key audience client_id = audience ++ (codes ":" ++ client_id)

-- The environment: the user's cache directory, if there is one, and the variable that disables the
-- cache. `filepath.Join` is the standard library's.
pub record Environment : Type 0 where
  pub user_cache_dir : Option Text
  pub cache_disable : Text
  pub file_path_join : Text → Text → Text → Text

unfoldable pub cache_disabled : Environment → Bool
cache_disabled env = same env.cache_disable (codes "1")

unfoldable pub cache_file_path : Environment → Text
cache_file_path env = elim env.user_cache_dir [
  | none ↦ []
  | some dir ↦ env.file_path_join dir (codes "redpanda/provider") (codes "creds-cache.json")
]

-- The inner client_credentials source alone, or behind the cache file.
pub data TokenSource : Type 0 where
  uncached : TokenSource
  caching : (file key : Text) → TokenSource

unfoldable pub build_token_source :
    Environment → (token_url audience client_id client_secret : Text) → Reply TokenSource
build_token_source env token_url audience client_id client_secret =
    if is_empty client_id
    then refused (plain_error (codes "client id is empty"))
    else if is_empty client_secret
    then refused (plain_error (codes "client secret is empty"))
    else if is_empty token_url
    then refused (plain_error (codes "token url is empty"))
    else if cache_disabled env
    then reply uncached
    else if is_empty (cache_file_path env)
    then reply uncached
    else reply (caching (cache_file_path env) (cache_key audience client_id))

abbrev pub HasNoColon : Text → Type 0
HasNoColon [] = Unit
HasNoColon (c ∷ s) = (c ≢ b':') × HasNoColon s

colon_inside : (s t : Text) → ¬ HasNoColon (s ++ b':' ∷ t)
colon_inside [] t h = h.0 refl
colon_inside (c ∷ s) t h = colon_inside s t h.1

split_at_colon :
    (a b c d : Text)
    → HasNoColon c
    → HasNoColon d
    → a ++ b':' ∷ c ≡ b ++ b':' ∷ d
    → (a ≡ b) × (c ≡ d)
split_at_colon [] [] c d h k e = (refl, cc)
split_at_colon [] (x ∷ b) c d h k e =
    let inside : c ≡ b ++ b':' ∷ d = cc in absurd (colon_inside b d (rw inside at h))
split_at_colon (x ∷ a) [] c d h k e =
    let inside : a ++ b':' ∷ c ≡ d = cc in absurd (colon_inside a c (rw (← inside) at k))
split_at_colon (x ∷ a) (y ∷ b) c d h k e =
    let (same_a, same_c) = split_at_colon a b c d h k (cc) in (cc, same_c)

-- Two service principals share an entry of the cache only if they are one, as long as client IDs
-- hold no colon.
cache_key_injective :
    (audience audience' client client' : Text)
    → HasNoColon client
    → HasNoColon client'
    → cache_key audience client ≡ cache_key audience' client'
    → (audience ≡ audience') × (client ≡ client')
unfolding cache_key
cache_key_injective audience audience' client client' h k e =
    split_at_colon audience audience' client client' h k e

is_empty_iff : (s : Text) → (is_empty s ≡ true) ↔ (s ≡ [])
is_empty_iff [] = (λ h. refl, λ h. refl)
is_empty_iff (c ∷ s) = (λ h. cc, λ h. cc)

-- The cache is used exactly when the credentials are complete, it is not disabled, and there is a
-- directory for it; then its key is the principal's.
build_token_source-caching_iff :
    (env : Environment) (token_url audience client_id client_secret file key : Text)
    → (build_token_source env token_url audience client_id client_secret ≡ reply (caching file key))
      ↔ ((client_id ≢ [])
          × (client_secret ≢ [])
          × (token_url ≢ [])
          × (cache_disabled env ≡ false)
          × (cache_file_path env ≢ [])
          × (file ≡ cache_file_path env)
          × (key ≡ cache_key audience client_id))
unfolding build_token_source
build_token_source-caching_iff env url aud [] secret file key = (λ h. cc, λ h. absurd (h.0 refl))
build_token_source-caching_iff env url aud id [] file key = (λ h. cc, λ h. absurd (h.1 refl))
build_token_source-caching_iff env url aud id secret file key =
    ground (arith, is_empty_iff url, is_empty_iff (cache_file_path env))
