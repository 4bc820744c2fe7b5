-- ===== src/Values.antt =====
-- Values of the Terraform framework: `types.String`, `types.Bool` and the like are null, unknown or
-- known (terraform-plugin-framework's documented three states).
use mathlib.Core.Bool.{Bool, true, false}
use mathlib.Core.List.{[]}
use terraform_provider_redpa.Base.{Text}

pub data TfValue {ℓ} (A : Type ℓ) : Type ℓ where
  null : TfValue A
  unknown : TfValue A
  known : A → TfValue A

abbrev pub is_null {ℓ} : {A : Type ℓ} → TfValue A → Bool
is_null null = true
is_null unknown = false
is_null (known a) = false

abbrev pub is_unknown {ℓ} : {A : Type ℓ} → TfValue A → Bool
is_unknown null = false
is_unknown unknown = true
is_unknown (known a) = false

-- `ValueString`, `ValueBool`: the zero value where nothing is known.
abbrev pub value_string : TfValue Text → Text
value_string (known s) = s
value_string null = []
value_string unknown = []

abbrev pub value_bool : TfValue Bool → Bool
value_bool (known b) = b
value_bool null = false
value_bool unknown = false
