-- ===== src/Byoc/Arguments/NoTerraform.antt =====
-- No variable of Terraform reaches the plugin.
use terraform_provider_redpa.Base.{
  ℕ, ◌≡◌, refl, ◌≢◌, inl, inr, false, Option, none, some, List, [], ◌∷◌, arith, Bool-cases, All,
  All-append, Text, codes, same, is_empty, has_prefix, to_lower, Dict,
}
use terraform_provider_redpa.Errors.{GoError, Reply, reply, refused}
use terraform_provider_redpa.Lookup.{Wrapping}
use terraform_provider_redpa.Byoc.Client.{
  ByocClient, environ, setting, generate_aws_args_and_env, azure_env, generate_azure_args_and_env,
}
use terraform_provider_redpa.Byoc.Azure.{generate_azure_args_and_env_sound}
use terraform_provider_redpa.Byoc.Arguments.{
  Disk, CloudCluster, Outside, Setup, generate_gcp_args_and_env, without_terraform, provider_setup,
  generate_byoc_args_and_env, with_base, without_dir, gcp_written, gcp_credentials, acquired,
  base_args, base_env,
}

abbrev pub IsForeign : Text → Type 0
IsForeign s = has_prefix s (codes "TF_") ≡ false

without_terraform-All : (env : List Text) → All IsForeign (without_terraform env)
unfolding without_terraform
without_terraform-All [] = tt
without_terraform-All (s ∷ env) = elim (Bool-cases (has_prefix s (codes "TF_"))) [
  | inl t ↦ rw t (without_terraform-All env)
  | inr f ↦ rw f (f, without_terraform-All env)
]

azure_env-All : (env : List Text) → All IsForeign (azure_env env)
unfolding azure_env has_prefix
azure_env-All [] = tt
azure_env-All (s ∷ env) = elim (Bool-cases (has_prefix s (codes "ARM_"))) [
  | inl t ↦ rw t (refl, azure_env-All env)
  | inr f ↦ rw f (azure_env-All env)
]

setting-All : (a : ℕ) (name value : Text) → a ≢ b'T' → All IsForeign (setting (a ∷ name) value)
unfolding has_prefix
setting-All a name [] h = tt
setting-All a name (c ∷ s) h = (ground arith, tt)

aws-All : (cl : ByocClient) → All IsForeign (generate_aws_args_and_env cl).1
unfolding generate_aws_args_and_env
aws-All cl =
    All-append IsForeign _ _
      (setting-All b'A' (codes "WS_ACCESS_KEY_ID") cl.aws_access_key_id (omega arith))
      (All-append IsForeign _ _
        (setting-All b'A' (codes "WS_SECRET_ACCESS_KEY") cl.aws_secret_access_key (omega arith))
        (setting-All b'A' (codes "WS_SESSION_TOKEN") cl.aws_session_token (omega arith)))

abbrev IsForeignSetup : Reply Setup → Type 0
IsForeignSetup (refused err) = Unit
IsForeignSetup (reply s) = All IsForeign s.1

azure-IsForeignSetup :
    (cl : ByocClient) (env : Dict Text) (r : Reply (List Text × List Text))
    → generate_azure_args_and_env cl env ≡ r
    → IsForeignSetup (without_dir r)
azure-IsForeignSetup cl env (refused err) e = tt
azure-IsForeignSetup cl env (reply (args, vars)) e =
    let (chosen, found, few, given, same_args, same_vars) =
      generate_azure_args_and_env_sound cl env args vars e in
    rw same_vars (azure_env-All (environ env))

written-IsForeignSetup :
    (cl : ByocClient) (out : Outside) (disk : Disk) (o : Option GoError)
    → IsForeignSetup (gcp_written cl out disk o).1
unfolding has_prefix
written-IsForeignSetup cl out disk none = (refl, tt)
written-IsForeignSetup cl out disk (some err) = tt

credentials-IsForeignSetup :
    (cl : ByocClient) (out : Outside) (disk : Disk) (o : Option GoError)
    → IsForeignSetup (gcp_credentials cl out disk o).1
credentials-IsForeignSetup cl out disk none = written-IsForeignSetup cl out disk out.gcp_write
credentials-IsForeignSetup cl out disk (some err) = tt

gcp-IsForeignSetup :
    (cl : ByocClient) (out : Outside) (disk : Disk)
    → IsForeignSetup (generate_gcp_args_and_env cl out disk).1
unfolding generate_gcp_args_and_env
gcp-IsForeignSetup cl out disk = elim (Bool-cases (is_empty cl.gcp_project)) [
  | inl e ↦ rw e tt
  | inr e ↦ rw e (elim (Bool-cases (is_empty cl.google_credentials)) [
    | inl f ↦ rw f tt
    | inr f ↦ rw f (credentials-IsForeignSetup cl out disk out.gcp_mkdir)
  ])
]

provider_setup-IsForeignSetup :
    (cl : ByocClient) (env : Dict Text) (out : Outside) (cloud : Text) (disk : Disk)
    → IsForeignSetup (provider_setup cl env out cloud disk).1
unfolding provider_setup
provider_setup-IsForeignSetup cl env out cloud disk = elim (Bool-cases (same cloud (codes "aws"))) [
  | inl a ↦ rw a (aws-All cl)
  | inr a ↦ rw a (elim (Bool-cases (same cloud (codes "azure"))) [
    | inl b ↦ rw b (azure-IsForeignSetup cl env (generate_azure_args_and_env cl env) refl)
    | inr b ↦ rw b (elim (Bool-cases (same cloud (codes "gcp"))) [
      | inl c ↦ rw c (gcp-IsForeignSetup cl out disk)
      | inr c ↦ rw c tt
    ])
  ])
]

with_base-IsForeignSetup :
    (args env : List Text) (r : Disk × Reply Setup)
    → All IsForeign env
    → IsForeignSetup r.1
    → IsForeignSetup (with_base args env r).1
with_base-IsForeignSetup args env (disk, refused err) h k = tt
with_base-IsForeignSetup args env (disk, reply (more, vars, dir)) h k =
    All-append IsForeign env vars h k

acquired-IsForeignSetup :
    (wr : Wrapping) (cl : ByocClient) (env : Dict Text) (out : Outside) (cluster : CloudCluster)
    (verb : Text) (disk : Disk) (t : Reply Text)
    → IsForeignSetup (acquired wr cl env out cluster verb disk t).1
unfolding has_prefix
acquired-IsForeignSetup wr cl env out cluster verb disk (refused err) = tt
acquired-IsForeignSetup wr cl env out cluster verb disk (reply token) =
    let cloud = to_lower cluster.provider in
    with_base-IsForeignSetup (base_args cloud verb token cluster.id) (base_env cl env)
      (provider_setup cl env out cloud disk) (refl, (refl, without_terraform-All (environ env)))
      (provider_setup-IsForeignSetup cl env out cloud disk)

-- No text of the environment that the plugin is given starts with TF_, whatever the cloud, the
-- settings and the environment of the process.
pub generate_byoc_args_and_env-IsForeign :
    (wr : Wrapping) (cl : ByocClient) (env : Dict Text) (out : Outside) (cluster : CloudCluster)
    (verb : Text) (disk : Disk) (args vars : List Text) (dir : Option ℕ)
    → (generate_byoc_args_and_env wr cl env out cluster verb disk).1 ≡ reply (args, vars, dir)
    → All IsForeign vars
unfolding generate_byoc_args_and_env
generate_byoc_args_and_env-IsForeign wr cl env out cluster verb disk args vars dir h =
    rw h at (acquired-IsForeignSetup wr cl env out cluster verb disk out.args_token)
