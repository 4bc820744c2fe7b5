-- ===== src/User/Mechanism.antt =====
-- The names of mechanisms, redpanda/utils/enums/handrolled.go: there and back.
use terraform_provider_redpa.Base.{
  ℕ, ◌≤◌, ◌≡◌, refl, ◌⊎◌, Option, [], ◌∷◌, ◌++◌, map, arith, All, Text, codes, or_else, to_lower,
  trim_prefix-append, ℤ, pos,
}
use terraform_provider_redpa.Schema.Model.{upper}
use terraform_provider_redpa.Base.{lower}
use terraform_provider_redpa.User.Model.{
  replaced, sasl_mechanism_to_string, string_to_sasl_mechanism,
}
use terraform_provider_redpa.Schema.Model.{to_upper}

-- The characters of the protocol's names: capitals, digits and underscores.
abbrev pub IsNameChar : ℕ → Type 0
IsNameChar c = ((65 ≤ c) × (c ≤ 90)) ⊎ (((48 ≤ c) × (c ≤ 57)) ⊎ (c ≡ 95))

abbrev there_and_back : ℕ → ℕ
there_and_back c = replaced b'-' b'_' (upper (replaced b'_' b'-' (lower c)))

there_and_back-same : (c : ℕ) → IsNameChar c → there_and_back c ≡ c
there_and_back-same c h = ground arith

restored :
    (s : Text)
    → All IsNameChar s
    → map (replaced b'-' b'_') (to_upper (map (replaced b'_' b'-') (to_lower s))) ≡ s
unfolding to_lower
restored [] h = refl
restored (c ∷ s) (p, h) = (λ i. there_and_back-same c p i ∷ restored s h i)

-- For a name of capitals, digits and underscores behind SASL_MECHANISM_, reading back the text that
-- the provider shows for it gives the number that the table has for the name, and the unspecified
-- mechanism where the table has none.
pub string_to_sasl_mechanism-sasl_mechanism_to_string :
    (table : Text → Option ℤ) (s : Text)
    → All IsNameChar s
    → string_to_sasl_mechanism table (sasl_mechanism_to_string (codes "SASL_MECHANISM_" ++ s))
      ≡ or_else (table (codes "SASL_MECHANISM_" ++ s)) (pos 0)
unfolding string_to_sasl_mechanism sasl_mechanism_to_string
string_to_sasl_mechanism-sasl_mechanism_to_string table s h =
    rw (trim_prefix-append (codes "SASL_MECHANISM_") s, restored s h)
