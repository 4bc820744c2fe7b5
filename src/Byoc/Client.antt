-- ===== src/Byoc/Client.antt =====
-- The client's settings, the process environment, and the arguments for AWS and Azure.
use terraform_provider_redpa.Base.{
  Bool, true, false, not, ◌||◌, List, [], ◌∷◌, ◌++◌, if◌then◌else◌, Text, codes, same, is_empty,
  has_prefix, or_else, trim_prefix, to_lower, Dict, lookup,
}
use terraform_provider_redpa.Errors.{plain_error, Reply, reply, refused}
use terraform_provider_redpa.Lookup.{quote}

pub record ByocClient : Type 0 where
  pub internal_api_url : Text
  pub gcp_project : Text
  pub azure_subscription_id : Text
  pub azure_client_id : Text
  pub azure_client_secret : Text
  pub azure_tenant_id : Text
  pub google_credentials : Text
  pub public_api_url : Text
  pub aws_access_key_id : Text
  pub aws_secret_access_key : Text
  pub aws_session_token : Text

-- The environment of the process.
abbrev pub getenv : Dict Text → Text → Text
getenv env name = or_else (lookup name env) []

-- `os.Environ()`: a text key=value for each variable.
abbrev pub environ : Dict Text → List Text
environ [] = []
environ ((k, v) ∷ env) = (k ++ 61 ∷ v) ∷ environ env

infixl 5 ◌>>=◌
abbrev pub ◌>>=◌ {ℓ κ} : {A : Type ℓ} {B : Type κ} → Reply A → (A → Reply B) → Reply B
refused err >>= k = refused err
reply a >>= k = k a

-- `name=value`, if there is a value.
abbrev pub setting : Text → Text → List Text
setting name value = if is_empty value then [] else (name ++ 61 ∷ value) ∷ []

-- The arguments and the environment for AWS.
unfoldable pub generate_aws_args_and_env : ByocClient → List Text × List Text
generate_aws_args_and_env cl = (
  [],
  setting (codes "AWS_ACCESS_KEY_ID") cl.aws_access_key_id
      ++ (setting (codes "AWS_SECRET_ACCESS_KEY") cl.aws_secret_access_key
          ++ setting (codes "AWS_SESSION_TOKEN") cl.aws_session_token),
)

abbrev boolean_text : Text → Text → Reply Bool
boolean_text name value =
    if is_empty value
      || same value (codes "false")
      || same value (codes "no")
      || same value (codes "0")
    then reply false
    else if same value (codes "true") || same value (codes "yes") || same value (codes "1")
    then reply true
    else refused (plain_error (codes "bad boolean value " ++ (name ++ (codes "=" ++ quote value))))

unfoldable pub get_env_boolean : Dict Text → Text → Reply Bool
get_env_boolean env name = boolean_text name (to_lower (getenv env name))

pub record AuthMethod : Type 0 where
  pub env_name : Text
  pub credential_source : Text
  pub identity : Text

abbrev pub auth_methods : List AuthMethod
auth_methods =
    record {
      env_name = codes "ARM_USE_MSI";
      credential_source = codes "msi";
      identity = codes "msi";
    }
    ∷ record {
      env_name = codes "ARM_USE_OIDC";
      credential_source = codes "env";
      identity = codes "oidc";
    }
    ∷ record {
      env_name = codes "ARM_USE_CLI";
      credential_source = codes "cli";
      identity = codes "cli";
    }
    ∷ record {
      env_name = codes "ARM_USE_AKS_WORKLOAD_IDENTITY";
      credential_source = codes "workload";
      identity = codes "none";
    }
    ∷ []

abbrev pub method_args : AuthMethod → List Text
method_args m =
    codes "--credential-source" ∷ m.credential_source ∷ codes "--identity" ∷ m.identity ∷ []

-- One round of the loop over the methods: whether one was seen, and the arguments so far.
abbrev pub choose_method : AuthMethod → Bool → List Text → Bool → Reply (Bool × List Text)
choose_method m seen args false = reply (seen, args)
choose_method m seen args true =
    if seen
    then refused (
        plain_error (
          codes
            "only one of ARM_USE_MSI, ARM_USE_OIDC, ARM_USE_CLI, or ARM_USE_AKS_WORKLOAD_IDENTITY can be set"))
    else reply (true, args ++ method_args m)

unfoldable pub choose_methods :
    Dict Text → List AuthMethod → Bool × List Text → Reply (Bool × List Text)
choose_methods env [] (seen, args) = reply (seen, args)
choose_methods env (m ∷ ms) (seen, args) = do
  wanted ← get_env_boolean env m.env_name
  next ← choose_method m seen args wanted
  choose_methods env ms next

-- The credential source where no method was chosen.
abbrev pub fallback_args : ByocClient → Dict Text → Bool → List Text
fallback_args cl env true = []
fallback_args cl env false =
    if not (is_empty cl.azure_client_secret)
      || not (is_empty (getenv env (codes "ARM_CLIENT_CERTIFICATE")))
      || not (is_empty (getenv env (codes "ARM_CLIENT_CERTIFICATE_PATH")))
    then codes "--credential-source" ∷ codes "env" ∷ []
    else []

abbrev pub subscription_args : ByocClient → List Text
subscription_args cl =
    codes "--subscription-id"
    ∷ cl.azure_subscription_id
    ∷ codes "--client-id"
    ∷ cl.azure_client_id
    ∷ codes "--client-secret"
    ∷ cl.azure_client_secret
    ∷ []

-- The ARM_ variables once more, as AZURE_ ones.
unfoldable pub azure_env : List Text → List Text
azure_env [] = []
azure_env (s ∷ env) =
    let rest = azure_env env in
    if has_prefix s (codes "ARM_")
    then (codes "AZURE_" ++ trim_prefix s (codes "ARM_")) ∷ rest
    else rest

abbrev pub with_subscription :
    ByocClient → Dict Text → Bool × List Text → Reply (List Text × List Text)
with_subscription cl env (seen, args) =
    if is_empty cl.azure_subscription_id
    then refused (plain_error (codes "value must be set for Azure Subscription ID"))
    else reply
        ((args ++ fallback_args cl env seen) ++ subscription_args cl, azure_env (environ env))

unfoldable pub generate_azure_args_and_env : ByocClient → Dict Text → Reply (List Text × List Text)
unfolding choose_methods
generate_azure_args_and_env cl env = do
  chosen ← choose_methods env auth_methods (false, [])
  with_subscription cl env chosen
