-- ===== src/Schema/Import.antt =====
-- parseImportID and ImportState of redpanda/resources/schema/resource_schema.go. The error of
-- strconv.ParseInt is told by its text alone.
use terraform_provider_redpa.Base.{
  ℕ, ◌+◌, ◌≡◌, refl, ap, ◌∙◌, inl, inr, Option, none, some, List, [], ◌∷◌, ◌++◌, ◌==◌,
  if◌then◌else◌, ==_iff, ==_refl, Bool-cases, length, Text, codes, is_empty, split, ℤ, pos, atoi,
}
use terraform_provider_redpa.Errors.{GoError, plain_error, Reply, reply, refused}
use terraform_provider_redpa.Protobuf.{decimal}
use terraform_provider_redpa.Urls.ImportId.{HasNo}

pub record ImportIdComponents : Type 0 where
  pub cluster_id : Text
  pub subject : Text
  pub version : ℤ
  pub username : Text
  pub password : Text

abbrev wrong_parts : ℕ → GoError
wrong_parts n = plain_error (
    codes
      "expected one of:\n  Bearer auth (default): cluster_id,subject,version\n  Basic auth (optional): cluster_id,subject,version,username,password\ngot "
    ++ (decimal (pos n) ++ codes " parts"))

module _ (parse_error : Text → Text) where
  abbrev versioned :
      (cluster_id subject version username password : Text) → Option ℤ → Reply ImportIdComponents
  versioned c s v u p none =
      refused (plain_error (codes "version must be a valid integer: " ++ parse_error v))
  versioned c s v u p (some n) =
      reply (record { cluster_id = c; subject = s; version = n; username = u; password = p })

  abbrev components : List Text → Reply ImportIdComponents
  components (c ∷ s ∷ v ∷ []) = versioned c s v [] [] (atoi v)
  components (c ∷ s ∷ v ∷ u ∷ p ∷ []) = versioned c s v u p (atoi v)
  components [] = refused (wrong_parts 0)
  components (c ∷ []) = refused (wrong_parts 1)
  components (c ∷ s ∷ []) = refused (wrong_parts 2)
  components (c ∷ s ∷ v ∷ u ∷ []) = refused (wrong_parts 4)
  components (c ∷ s ∷ v ∷ u ∷ p ∷ q ∷ parts) = refused (wrong_parts (6 + length parts))

  unfoldable pub parse_import_id : Text → Reply ImportIdComponents
  parse_import_id import_id = components (split import_id 44)

  -- The password of the import: the one of the environment, if there is one.
  unfoldable pub import_password : (env_password : Text) → ImportIdComponents → Text
  import_password env_password c = if is_empty env_password then c.password else env_password

split-clean : (sep : ℕ) (s : Text) → HasNo sep s → split s sep ≡ s ∷ []
unfolding split
split-clean sep [] clean = refl
split-clean sep (c ∷ s) (other, clean) = elim (Bool-cases (c == sep)) [
  | inl e ↦ absurd (other ((==_iff c sep).0 e))
  | inr e ↦ rw (e, split-clean sep s clean) refl
]

split-append : (sep : ℕ) (h t : Text) → HasNo sep h → split (h ++ sep ∷ t) sep ≡ h ∷ split t sep
unfolding split
split-append sep [] t clean = rw (==_refl sep) refl
split-append sep (c ∷ h) t (other, clean) = elim (Bool-cases (c == sep)) [
  | inl e ↦ absurd (other ((==_iff c sep).0 e))
  | inr e ↦ rw (e, split-append sep h t clean) refl
]

-- Parts without commas, the third of which is an integer of 64 bits, are what an import ID of the
-- three, with commas between, is split into; and what one of five is split into.
pub parse_import_id_join :
    (parse_error : Text → Text) (c s v u p : Text) (n : ℤ)
    → HasNo 44 c
    → HasNo 44 s
    → HasNo 44 v
    → HasNo 44 u
    → HasNo 44 p
    → atoi v ≡ some n
    → (parse_import_id parse_error (c ++ 44 ∷ (s ++ 44 ∷ v))
        ≡ reply (record { cluster_id = c; subject = s; version = n; username = []; password = [] }))
      × (parse_import_id parse_error (c ++ 44 ∷ (s ++ 44 ∷ (v ++ 44 ∷ (u ++ 44 ∷ p))))
          ≡ reply (record { cluster_id = c; subject = s; version = n; username = u; password = p }))
unfolding parse_import_id
parse_import_id_join parse_error c s v u p n clean_c clean_s clean_v clean_u clean_p number =
    let three =
      split-append 44 c (s ++ 44 ∷ v) clean_c
      ∙ ap (λ ps. c ∷ ps) (split-append 44 s v clean_s)
      ∙ ap (λ ps. c ∷ s ∷ ps) (split-clean 44 v clean_v) in
    let five =
      split-append 44 c (s ++ 44 ∷ (v ++ 44 ∷ (u ++ 44 ∷ p))) clean_c
      ∙ ap (λ ps. c ∷ ps) (split-append 44 s (v ++ 44 ∷ (u ++ 44 ∷ p)) clean_s)
      ∙ ap (λ ps. c ∷ s ∷ ps) (split-append 44 v (u ++ 44 ∷ p) clean_v)
      ∙ ap (λ ps. c ∷ s ∷ v ∷ ps) (split-append 44 u p clean_u)
      ∙ ap (λ ps. c ∷ s ∷ v ∷ u ∷ ps) (split-clean 44 p clean_p) in
    (
      ap (components parse_error) three ∙ ap (versioned parse_error c s v [] []) number,
      ap (components parse_error) five ∙ ap (versioned parse_error c s v u p) number,
    )
