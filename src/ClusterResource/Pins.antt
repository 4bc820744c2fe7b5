-- ===== src/ClusterResource/Pins.antt =====
-- The plan modifiers of redpanda/resources/cluster/plan_modifiers.go: whether the planned value of an
-- attribute that the control plane computes is pinned to the state's. Reading the sibling attribute
-- does not fail.
use terraform_provider_redpa.Base.{
  Bool, true, false, not, ◌&&◌, ◌||◌, List, if◌then◌else◌, Text, is_empty,
}
use terraform_provider_redpa.Values.{TfValue, null, unknown, known, is_null, is_unknown, value_bool}

-- `Equal` of two Booleans, null and unknown included.
abbrev pub same_flag : TfValue Bool → TfValue Bool → Bool
same_flag null null = true
same_flag unknown unknown = true
same_flag (known a) (known b) = (a && b) || (not a && not b)
same_flag null unknown = false
same_flag null (known b) = false
same_flag unknown null = false
same_flag unknown (known b) = false
same_flag (known a) null = false
same_flag (known a) unknown = false

abbrev pub has_no_element {ℓ} : {A : Type ℓ} → TfValue (List A) → Bool
has_no_element (known xs) = is_empty xs
has_no_element null = true
has_no_element unknown = true

unfoldable pub release_pin_for_server_assign {ℓ} :
    {A : Type ℓ} → (plan_enabled state_enabled : TfValue Bool) → TfValue (List A) → Bool
release_pin_for_server_assign plan_enabled state_enabled state_value =
    let rise = value_bool plan_enabled && not (value_bool state_enabled) in
    if is_unknown plan_enabled then true else rise && has_no_element state_value

unfoldable pub release_string_pin_for_server_assign {ℓ} :
    {A : Type ℓ} → (plan_enabled state_enabled : TfValue Bool) → TfValue A → Bool
release_string_pin_for_server_assign plan_enabled state_enabled state_value =
    if is_unknown plan_enabled || is_null state_value
    then true
    else not (same_flag (known (value_bool plan_enabled)) (known (value_bool state_enabled)))

-- What the three modifiers share: a new resource and a planned value that is not unknown are left
-- alone, and else the state's value is planned, unless it is released.
abbrev pub pinned {ℓ} :
    {A : Type ℓ} → (is_new : Bool) → (planned state : TfValue A) → (released : Bool) → TfValue A
pinned is_new planned state released =
    if is_new || not (is_unknown planned) || released then planned else state

-- rpsql.zones; an unknown configuration is left alone too.
unfoldable pub plan_modify_list {ℓ} :
    {A : Type ℓ}
    → (is_new : Bool) → (config planned state : TfValue (List A))
    → (plan_enabled state_enabled : TfValue Bool) → TfValue (List A)
unfolding release_pin_for_server_assign
plan_modify_list is_new config planned state plan_enabled state_enabled =
    pinned is_new planned state
      (is_unknown config || release_pin_for_server_assign plan_enabled state_enabled state)

-- gcp_global_access_api_gateway_enabled, whose sibling is an input.
unfoldable pub plan_modify_bool :
    (is_new : Bool)
    → (planned state : TfValue Bool) → (plan_sib state_sib : TfValue Bool) → TfValue Bool
plan_modify_bool is_new planned state plan_sib state_sib =
    pinned is_new planned state (is_unknown plan_sib || not (same_flag plan_sib state_sib))

-- rpsql.url and rpsql.version.
unfoldable pub plan_modify_string :
    (is_new : Bool)
    → (planned state : TfValue Text) → (plan_enabled state_enabled : TfValue Bool) → TfValue Text
unfolding release_string_pin_for_server_assign
plan_modify_string is_new planned state plan_enabled state_enabled =
    pinned is_new planned state
      (release_string_pin_for_server_assign plan_enabled state_enabled state)
