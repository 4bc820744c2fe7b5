-- ===== src/Byoc/Arguments.antt =====
-- The arguments and the environment of the plugin, for each cloud. Temporary directories are
-- numbers, given out in turn; what a call of the outside answers is a field of `Outside`.
pub mod NoTerraform
use terraform_provider_redpa.Base.{
  ℕ, zero, suc, ◌+◌, ◌-◌, ◌*◌, ◌/◌, ◌%◌, ◌^◌, ◌≤◌, ◌<◌, ◌≡◌, refl, sym, ap, ◌∙◌, ◌≢◌, ◌↔◌, ◌⊎◌, inl,
  inr, Bool, true, false, not, ◌&&◌, ◌||◌, Option, none, some, List, [], ◌∷◌, ◌++◌, map, arith, ltb,
  leb, ◌==◌, if◌then◌else◌, ltb→lt, ==_iff, ==_refl, Bool-cases, is_some, Option-cases, length,
  drop, length-append, length-drop, drop-append, All, All-append, Text, codes, same, is_empty,
  strip, has_prefix, or_else, trim_prefix, trim_suffix, contains, to_lower, cut, split, trim_func,
  trim_space, trim_quotes, join, same_sound, same_refl, same_iff, strip-append, strip_sound,
  has_prefix-append, trim_prefix-append, contains-append_middle, to_lower-append, Dict, lookup,
  insert, delete, lookup-insert, lookup-delete, HasDistinctKeys, ℤ, pos, negsuc, atoi,
  insert-HasDistinctKeys, delete-HasDistinctKeys,
}
use terraform_provider_redpa.Errors.{GoError, plain_error, Reply, reply, refused}
use terraform_provider_redpa.Lookup.{Wrapping}
use terraform_provider_redpa.Byoc.Client.{
  ByocClient, environ, generate_aws_args_and_env, generate_azure_args_and_env,
}

-- The temporary directories that exist, and the number of the next one.
pub record Disk : Type 0 where
  pub live : List ℕ
  pub next : ℕ

-- `os.RemoveAll`.
unfoldable pub remove_all : ℕ → List ℕ → List ℕ
remove_all d [] = []
remove_all d (x ∷ xs) = let rest = remove_all d xs in if x == d then rest else x ∷ rest

abbrev pub clean_up : Option ℕ → Disk → Disk
clean_up none disk = disk
clean_up (some d) disk = record disk { live = remove_all d disk.live }

-- `os.MkdirTemp`, where it succeeds: a new directory.
abbrev pub make_dir : Disk → Disk
make_dir disk = record disk { live = disk.next ∷ disk.live; next = disk.next + 1 }

-- The cluster, as cloudapi describes it.
pub record CloudCluster : Type 0 where
  pub id : Text
  pub provider : Text
  pub install_pack_version : Text

-- The answers of the outside to one run of the plugin, in the order of the calls; `none` where a
-- call that gives nothing back succeeds. `dir_path` is the path of a temporary directory.
pub record Outside : Type 0 where
  pub token : Reply Text
  pub args_token : Reply Text
  pub pack_token : Reply Text
  pub cluster : Reply CloudCluster
  pub gcp_mkdir : Option GoError
  pub gcp_write : Option GoError
  pub install_pack : Reply (Option Text)
  pub pack_mkdir : Option GoError
  pub download : Reply Text
  pub pack_write : Option GoError
  pub run_mkdir : Option GoError
  pub stdout_pipe : Option GoError
  pub stderr_pipe : Option GoError
  pub start : Option GoError
  pub wait : Option GoError
  pub context_error : Option GoError
  pub dir_path : ℕ → Text

-- The arguments, the environment, and the directory that the cleanup removes.
abbrev pub Setup : Type 0
Setup = List Text × List Text × Option ℕ

abbrev gcp_file : Outside → ℕ → Text
gcp_file out d = out.dir_path d ++ codes "/creds.json"

abbrev pub gcp_written : ByocClient → Outside → Disk → Option GoError → Disk × Reply Setup
gcp_written cl out disk (some err) = (clean_up (some disk.next) (make_dir disk), refused err)
gcp_written cl out disk none = (
  make_dir disk,
  reply (
    codes "--project-id" ∷ cl.gcp_project ∷ [],
    (codes "GOOGLE_APPLICATION_CREDENTIALS=" ++ gcp_file out disk.next) ∷ [],
    some disk.next,
  ),
)

abbrev pub gcp_credentials : ByocClient → Outside → Disk → Option GoError → Disk × Reply Setup
gcp_credentials cl out disk (some err) = (disk, refused err)
gcp_credentials cl out disk none = gcp_written cl out disk out.gcp_write

unfoldable pub generate_gcp_args_and_env : ByocClient → Outside → Disk → Disk × Reply Setup
generate_gcp_args_and_env cl out disk =
    if is_empty cl.gcp_project
    then (disk, refused (plain_error (codes "value must be set for GCP Project")))
    else if not (is_empty cl.google_credentials)
    then gcp_credentials cl out disk out.gcp_mkdir
    else (disk, reply (codes "--project-id" ∷ cl.gcp_project ∷ [], [], none))

-- The current environment without Terraform's variables.
unfoldable pub without_terraform : List Text → List Text
without_terraform [] = []
without_terraform (s ∷ env) =
    let rest = without_terraform env in if not (has_prefix s (codes "TF_")) then s ∷ rest else rest

abbrev pub without_dir : Reply (List Text × List Text) → Reply Setup
without_dir (refused err) = refused err
without_dir (reply (args, env)) = reply (args, env, none)

abbrev aws_setup : List Text × List Text → Setup
aws_setup (args, env) = (args, env, none)

-- The `switch` on the cloud provider.
unfoldable pub provider_setup : ByocClient → Dict Text → Outside → Text → Disk → Disk × Reply Setup
unfolding generate_gcp_args_and_env
provider_setup cl env out cloud_provider disk =
    if same cloud_provider (codes "aws")
    then (disk, reply (aws_setup (generate_aws_args_and_env cl)))
    else if same cloud_provider (codes "azure")
    then (disk, without_dir (generate_azure_args_and_env cl env))
    else if same cloud_provider (codes "gcp")
    then generate_gcp_args_and_env cl out disk
    else (
      disk,
      refused (
          plain_error (
            codes "unimplemented cloud provider "
            ++ (cloud_provider ++ codes ". please report this issue to the provider developers"))),
    )

abbrev pub base_args : Text → Text → Text → Text → List Text
base_args cloud_provider verb token id =
    cloud_provider
    ∷ verb
    ∷ codes "--cloud-api-token"
    ∷ token
    ∷ codes "--redpanda-id"
    ∷ id
    ∷ codes "--debug"
    ∷ []

abbrev pub base_env : ByocClient → Dict Text → List Text
base_env cl env =
    (codes "CLOUD_URL=" ++ (cl.internal_api_url ++ codes "/api/v1"))
    ∷ (codes "RPK_PUBLIC_API_URL=https://" ++ trim_suffix cl.public_api_url (codes ":443"))
    ∷ without_terraform (environ env)

abbrev pub with_base : List Text → List Text → Disk × Reply Setup → Disk × Reply Setup
with_base args env (disk, refused err) = (disk, refused err)
with_base args env (disk, reply (more, vars, dir)) = (disk, reply (args ++ more, env ++ vars, dir))

abbrev with_token :
    ByocClient → Dict Text → Outside → CloudCluster → Text → Disk → Text → Disk × Reply Setup
with_token cl env out cluster verb disk token =
    let cloud_provider = to_lower cluster.provider in
    with_base (base_args cloud_provider verb token cluster.id) (base_env cl env)
      (provider_setup cl env out cloud_provider disk)

module _ (wr : Wrapping) where
  abbrev pub acquired :
      ByocClient
      → Dict Text
      → Outside
      → CloudCluster
      → Text
      → Disk
      → Reply Text
      → Disk × Reply Setup
  acquired cl env out cluster verb disk (refused err) =
      (disk, refused (wr.wrap (codes "acquire bearer token: ") err))
  acquired cl env out cluster verb disk (reply token) =
      with_token cl env out cluster verb disk token

  unfoldable pub generate_byoc_args_and_env :
      ByocClient → Dict Text → Outside → CloudCluster → Text → Disk → Disk × Reply Setup
  unfolding provider_setup
  generate_byoc_args_and_env cl env out cluster verb disk =
      acquired cl env out cluster verb disk out.args_token
