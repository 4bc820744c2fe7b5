-- ===== src/Byoc/Run/Cleanup.antt =====
-- A run leaves no temporary directory behind.
use terraform_provider_redpa.Base.{
  ℕ, ◌+◌, ◌<◌, ◌≡◌, refl, ap, ◌∙◌, inl, inr, Option, none, some, List, [], ◌∷◌, arith, ==_refl,
  Bool-cases, Option-cases, All, Text, codes, same, is_empty, to_lower, Dict,
}
use terraform_provider_redpa.Errors.{GoError, Reply, reply, refused}
use terraform_provider_redpa.Lookup.{Wrapping}
use terraform_provider_redpa.Byoc.Client.{ByocClient, generate_azure_args_and_env}
use terraform_provider_redpa.Byoc.Arguments.{
  Disk, CloudCluster, Outside, Setup, remove_all, clean_up, make_dir, generate_byoc_args_and_env,
  generate_gcp_args_and_env, provider_setup, without_dir, with_base, acquired, base_args, base_env,
}
use terraform_provider_redpa.Byoc.Run.{
  run_subprocess, in_dir, get_byoc_executable, saved, unpacked, with_pack, executed, prepared,
  described, with_api, run_byoc,
}

-- The directories that exist have been given out.
abbrev pub IsOrderly : Disk → Type 0
IsOrderly disk = All (λ d. d < disk.next) disk.live

All-below : (n : ℕ) (ds : List ℕ) → All (λ d. d < n) ds → All (λ d. d < n + 1) ds
All-below n [] h = tt
All-below n (d ∷ ds) (p, h) = (omega arith, All-below n ds h)

remove_all-below : (n : ℕ) (ds : List ℕ) → All (λ d. d < n) ds → remove_all n ds ≡ ds
unfolding remove_all
remove_all-below n [] h = refl
remove_all-below n (d ∷ ds) (p, h) = ground (arith, remove_all-below n ds h)

abbrev removed : Option ℕ → List ℕ → List ℕ
removed none ds = ds
removed (some d) ds = remove_all d ds

live-clean_up : (dir : Option ℕ) (disk : Disk) → (clean_up dir disk).live ≡ removed dir disk.live
live-clean_up none disk = refl
live-clean_up (some d) disk = refl

-- A step that owns the directory `dir`: its cleanup brings back the directories from before.
abbrev pub Owns : Option ℕ → Disk → Disk → Type 0
Owns dir before after = IsOrderly after × (removed dir after.live ≡ before.live)

make_dir-Owns : (disk : Disk) → IsOrderly disk → Owns (some disk.next) disk (make_dir disk)
unfolding remove_all
make_dir-Owns disk h = (
  (omega arith, All-below disk.next disk.live h),
  rw (==_refl disk.next) (remove_all-below disk.next disk.live h),
)

-- Making a directory and cleaning it up at once changes nothing.
dropped-Owns :
    (disk : Disk) → IsOrderly disk → Owns none disk (clean_up (some disk.next) (make_dir disk))
dropped-Owns disk h =
    let gone : remove_all disk.next (disk.next ∷ disk.live) ≡ disk.live =
      (make_dir-Owns disk h).1 in
    (rw gone (All-below disk.next disk.live h), gone)

abbrev dir_of : Reply Setup → Option ℕ
dir_of (refused err) = none
dir_of (reply (args, env, dir)) = dir

abbrev Keeps : Disk → Disk × Reply Setup → Type 0
Keeps disk r = Owns (dir_of r.1) disk r.0

gcp-Keeps :
    (cl : ByocClient) (out : Outside) (disk : Disk)
    → IsOrderly disk
    → Keeps disk (generate_gcp_args_and_env cl out disk)
unfolding generate_gcp_args_and_env
gcp-Keeps cl out disk h = elim (Bool-cases (is_empty cl.gcp_project)) [
  | inl e ↦ rw e (h, refl)
  | inr e ↦ rw e (elim (Bool-cases (is_empty cl.google_credentials)) [
    | inl f ↦ rw f (h, refl)
    | inr f ↦ rw f (elim (Option-cases out.gcp_mkdir) [
      | inr (err, bad) ↦ rw bad (h, refl)
      | inl made ↦ rw made (elim (Option-cases out.gcp_write) [
        | inr (err, bad) ↦ rw bad (dropped-Owns disk h)
        | inl wrote ↦ rw wrote (make_dir-Owns disk h)
      ])
    ])
  ])
]

azure-Keeps :
    (r : Reply (List Text × List Text)) (disk : Disk)
    → IsOrderly disk
    → Keeps disk (disk, without_dir r)
azure-Keeps (refused err) disk h = (h, refl)
azure-Keeps (reply (args, env)) disk h = (h, refl)

provider-Keeps :
    (cl : ByocClient) (env : Dict Text) (out : Outside) (cloud : Text) (disk : Disk)
    → IsOrderly disk
    → Keeps disk (provider_setup cl env out cloud disk)
unfolding provider_setup
provider-Keeps cl env out cloud disk h = elim (Bool-cases (same cloud (codes "aws"))) [
  | inl a ↦ rw a (h, refl)
  | inr a ↦ rw a (elim (Bool-cases (same cloud (codes "azure"))) [
    | inl b ↦ rw b (azure-Keeps (generate_azure_args_and_env cl env) disk h)
    | inr b ↦ rw b (elim (Bool-cases (same cloud (codes "gcp"))) [
      | inl c ↦ rw c (gcp-Keeps cl out disk h)
      | inr c ↦ rw c (h, refl)
    ])
  ])
]

with_base-Keeps :
    (args env : List Text) (disk : Disk) (r : Disk × Reply Setup)
    → Keeps disk r
    → Keeps disk (with_base args env r)
with_base-Keeps args env disk (d, refused err) h = h
with_base-Keeps args env disk (d, reply (more, vars, dir)) h = h

acquired-Keeps :
    (wr : Wrapping) (cl : ByocClient) (env : Dict Text) (out : Outside) (cluster : CloudCluster)
    (verb : Text) (disk : Disk) (t : Reply Text)
    → IsOrderly disk
    → Keeps disk (acquired wr cl env out cluster verb disk t)
acquired-Keeps wr cl env out cluster verb disk (refused err) h = (h, refl)
acquired-Keeps wr cl env out cluster verb disk (reply token) h =
    let cloud = to_lower cluster.provider in
    with_base-Keeps (base_args cloud verb token cluster.id) (base_env cl env) disk
      (provider_setup cl env out cloud disk) (provider-Keeps cl env out cloud disk h)

abbrev exec_dir : Reply ℕ → Option ℕ
exec_dir (refused err) = none
exec_dir (reply d) = some d

module _ (wr : Wrapping) (out : Outside) where
  saved-Owns :
      (disk : Disk) (r : Reply Text)
      → IsOrderly disk
      → Owns (exec_dir (saved wr out disk r).1) disk (saved wr out disk r).0
  saved-Owns disk (refused err) h = dropped-Owns disk h
  saved-Owns disk (reply raw) h = elim (Option-cases out.pack_write) [
    | inr (err, bad) ↦ rw bad (dropped-Owns disk h)
    | inl wrote ↦ rw wrote (make_dir-Owns disk h)
  ]

  unpacked-Owns :
      (cluster : CloudCluster) (disk : Disk) (r : Reply (Option Text))
      → IsOrderly disk
      → Owns (exec_dir (unpacked wr out cluster disk r).1) disk (unpacked wr out cluster disk r).0
  unpacked-Owns cluster disk (refused err) h = (h, refl)
  unpacked-Owns cluster disk (reply none) h = (h, refl)
  unpacked-Owns cluster disk (reply (some l)) h = elim (Option-cases out.pack_mkdir) [
    | inr (err, bad) ↦ rw bad (h, refl)
    | inl made ↦ rw made (saved-Owns disk out.download h)
  ]

  with_pack-Owns :
      (cluster : CloudCluster) (disk : Disk) (r : Reply Text)
      → IsOrderly disk
      → Owns (exec_dir (with_pack wr out cluster disk r).1) disk (with_pack wr out cluster disk r).0
  with_pack-Owns cluster disk (refused err) h = (h, refl)
  with_pack-Owns cluster disk (reply t) h = unpacked-Owns cluster disk out.install_pack h

  module _ (with_logs : GoError → GoError) where
    in_dir-Owns :
        (disk : Disk) (o : Option GoError)
        → IsOrderly disk
        → Owns none disk (in_dir with_logs out disk o).0
    in_dir-Owns disk (some err) h = (h, refl)
    in_dir-Owns disk none h = dropped-Owns disk h

    executed-live :
        (disk : Disk) (r : Disk × Reply ℕ)
        → Owns (exec_dir r.1) disk r.0
        → (executed wr with_logs out r).0.live ≡ disk.live
    unfolding run_subprocess
    executed-live disk (d, refused err) h = h.1
    executed-live disk (d, reply dir) h =
        ap (remove_all dir) (in_dir-Owns d out.run_mkdir h.0).1 ∙ h.1

    prepared-live :
        (cluster : CloudCluster) (disk : Disk) (r : Disk × Reply Setup)
        → Keeps disk r
        → (prepared wr with_logs out cluster r).0.live ≡ disk.live
    unfolding get_byoc_executable
    prepared-live cluster disk (d, refused err) h = h.1
    prepared-live cluster disk (d, reply (args, env, dir)) h =
        live-clean_up dir _
        ∙ (ap (removed dir) (executed-live d _ (with_pack-Owns cluster d out.pack_token h.0)) ∙ h.1)

    described-live :
        (cl : ByocClient) (env : Dict Text) (cluster_id verb : Text) (disk : Disk)
        (r : Reply CloudCluster)
        → IsOrderly disk
        → (described wr with_logs cl env out cluster_id verb disk r).0.live ≡ disk.live
    unfolding generate_byoc_args_and_env
    described-live cl env cluster_id verb disk (refused err) h = refl
    described-live cl env cluster_id verb disk (reply cluster) h =
        prepared-live cluster disk _
          (acquired-Keeps wr cl env out cluster verb disk out.args_token h)

    with_api-live :
        (cl : ByocClient) (env : Dict Text) (cluster_id verb : Text) (disk : Disk) (r : Reply Text)
        → IsOrderly disk
        → (with_api wr with_logs cl env out cluster_id verb disk r).0.live ≡ disk.live
    with_api-live cl env cluster_id verb disk (refused err) h = refl
    with_api-live cl env cluster_id verb disk (reply t) h =
        described-live cl env cluster_id verb disk out.cluster h

-- Whatever the outside answers at whatever call, a run of the plugin leaves exactly the temporary
-- directories that there were before, where removing a directory succeeds: the one with the GCP
-- credentials, that of the executable and that of the subprocess are gone on every path.
pub run_byoc-live :
    (wr : Wrapping) (with_logs : GoError → GoError) (cl : ByocClient) (env : Dict Text)
    (out : Outside) (cluster_id verb : Text) (disk : Disk)
    → IsOrderly disk
    → (run_byoc wr with_logs cl env out cluster_id verb disk).0.live ≡ disk.live
unfolding run_byoc
run_byoc-live wr with_logs cl env out cluster_id verb disk h =
    with_api-live wr out with_logs cl env cluster_id verb disk out.token h
