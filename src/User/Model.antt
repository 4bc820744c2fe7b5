-- ===== src/User/Model.antt =====
-- The model of a user: redpanda/models/user/conv_gen.go (Flatten, ExpandCreate), resource_model_gen.go,
-- and the names of mechanisms in redpanda/utils/enums/handrolled.go. The names and numbers that the
-- protocol gives them are a parameter.
use terraform_provider_redpa.Base.{
  ℕ, Bool, Option, none, some, ◌++◌, map, ◌==◌, if◌then◌else◌, Text, codes, trim_prefix, or_else,
  to_lower, ℤ, pos,
}
use terraform_provider_redpa.Values.{TfValue, known, value_string}
use terraform_provider_redpa.Topic.Model.{carried, or_false}
use terraform_provider_redpa.Schema.Model.{to_upper, get_effective_password}

-- `strings.ReplaceAll` of one character by another.
abbrev pub replaced : ℕ → ℕ → ℕ → ℕ
replaced old new c = if c == old then new else c

abbrev replace_all : Text → ℕ → ℕ → Text
replace_all s old new = map (replaced old new) s

-- A mechanism, by the name that its String gives.
unfoldable pub sasl_mechanism_to_string : Text → Text
sasl_mechanism_to_string e =
    replace_all (to_lower (trim_prefix e (codes "SASL_MECHANISM_"))) b'_' b'-'

-- The mechanism that a string names in the table of names; 0 is the unspecified one.
unfoldable pub string_to_sasl_mechanism : (Text → Option ℤ) → Text → ℤ
string_to_sasl_mechanism sasl_mechanism_value s =
    or_else (sasl_mechanism_value (codes "SASL_MECHANISM_" ++ replace_all (to_upper s) b'-' b'_'))
      (pos 0)

pub record UserModel : Type 0 where
  pub allow_deletion : TfValue Bool
  pub cluster_api_url : TfValue Text
  pub id : TfValue Text
  pub mechanism : TfValue Text
  pub name : TfValue Text
  pub password : TfValue Text
  pub password_wo : TfValue Text
  pub password_wo_version : TfValue ℤ

-- A user of a reply, with the name of its mechanism where it has one.
pub record UserResponse : Type 0 where
  pub name : Text
  pub mechanism : Option Text

pub record CreateUserRequest : Type 0 where
  pub name : Text
  pub password : Text
  pub mechanism : ℤ

pub record UpdateUserRequest : Type 0 where
  pub name : Text
  pub password : Text
  pub mechanism : ℤ

abbrev mechanism_or : Option Text → TfValue Text → TfValue Text
mechanism_or (some e) prev = known (sasl_mechanism_to_string e)
mechanism_or none prev = carried prev

-- Flatten, with a previous model.
unfoldable pub flatten_user : UserResponse → UserModel → UserModel
flatten_user u prev = record {
  allow_deletion = or_false (carried prev.allow_deletion);
  cluster_api_url = carried prev.cluster_api_url;
  id = known u.name;
  mechanism = mechanism_or u.mechanism prev.mechanism;
  name = known u.name;
  password = carried prev.password;
  password_wo = carried prev.password_wo;
  password_wo_version = carried prev.password_wo_version;
}

unfoldable pub expand_create_user : (Text → Option ℤ) → UserModel → CreateUserRequest
expand_create_user sasl_mechanism_value m = record {
  name = value_string m.name;
  password = get_effective_password m.password m.password_wo;
  mechanism = string_to_sasl_mechanism sasl_mechanism_value (value_string m.mechanism);
}

unfoldable pub expand_update_user : (Text → Option ℤ) → UserModel → UpdateUserRequest
expand_update_user sasl_mechanism_value m = record {
  name = value_string m.name;
  password = get_effective_password m.password m.password_wo;
  mechanism = string_to_sasl_mechanism sasl_mechanism_value (value_string m.mechanism);
}
