-- ===== src/Byoc/Tests.antt =====
-- Runs of the plugin with small settings.
use terraform_provider_redpa.Base.{
  ◌≡◌, refl, none, some, List, [], ◌∷◌, ◌++◌, map, arith, All, Text, codes, same, has_prefix,
  trim_prefix, trim_suffix, to_lower, Dict, lookup,
}
use terraform_provider_redpa.Errors.{plain_error, reply}
use terraform_provider_redpa.Lookup.{Wrapping}
use terraform_provider_redpa.Byoc.Client.{
  ByocClient, generate_azure_args_and_env, get_env_boolean, azure_env, choose_methods,
}
use terraform_provider_redpa.Byoc.Arguments.{
  Disk, CloudCluster, Outside, generate_byoc_args_and_env, without_terraform,
}
use terraform_provider_redpa.Byoc.Arguments.NoTerraform.{
  IsForeign, generate_byoc_args_and_env-IsForeign,
}
use terraform_provider_redpa.Byoc.Run.{run_byoc}
use terraform_provider_redpa.Byoc.Run.Cleanup.{IsOrderly, run_byoc-live}
use terraform_provider_redpa.Byoc.Logs.{ZapLine, forward_logs}
use terraform_provider_redpa.Byoc.Logs.Laws.{forward_logs-last}

abbrev prefixing : Wrapping
prefixing = record {
  wrap = λ t err. record err { text = t ++ err.text };
  wrap-text = λ t err. refl;
}

abbrev client : ByocClient
client = record {
  internal_api_url = codes "https://api";
  gcp_project = codes "p1";
  azure_subscription_id = codes "s1";
  azure_client_id = codes "c1";
  azure_client_secret = codes "hush";
  azure_tenant_id = codes "t1";
  google_credentials = codes "{}";
  public_api_url = codes "api.redpanda.com:443";
  aws_access_key_id = codes "a";
  aws_secret_access_key = codes "b";
  aws_session_token = [];
}

abbrev environment : Dict Text
environment = (codes "ARM_USE_MSI", codes "True") ∷ (codes "TF_LOG", codes "debug") ∷ []

abbrev azure_args : List Text
azure_args =
    codes "--credential-source"
    ∷ codes "msi"
    ∷ codes "--identity"
    ∷ codes "msi"
    ∷ codes "--subscription-id"
    ∷ codes "s1"
    ∷ codes "--client-id"
    ∷ codes "c1"
    ∷ codes "--client-secret"
    ∷ codes "hush"
    ∷ []

abbrev azure_vars : List Text
azure_vars = codes "AZURE_USE_MSI=True" ∷ []

azure_args_found : generate_azure_args_and_env client environment ≡ reply (azure_args, azure_vars)
unfolding generate_azure_args_and_env choose_methods get_env_boolean azure_env to_lower lookup same
    has_prefix trim_prefix
azure_args_found = refl

abbrev cluster : CloudCluster
cluster = record { id = codes "c9"; provider = codes "GCP"; install_pack_version = codes "24.1" }

abbrev outside : Outside
outside = record {
  token = reply (codes "t");
  args_token = reply (codes "t");
  pack_token = reply (codes "t");
  cluster = reply cluster;
  gcp_mkdir = none;
  gcp_write = none;
  install_pack = reply (some (codes "https://pack"));
  pack_mkdir = none;
  download = reply (codes "elf");
  pack_write = none;
  run_mkdir = none;
  stdout_pipe = none;
  stderr_pipe = none;
  start = none;
  wait = some (plain_error (codes "exit status 1"));
  context_error = none;
  dir_path = λ d. codes "/tmp/d";
}

abbrev disk : Disk
disk = record { live = 2 ∷ 0 ∷ []; next = 3 }

abbrev gcp_args : List Text
gcp_args =
    codes "gcp"
    ∷ codes "apply"
    ∷ codes "--cloud-api-token"
    ∷ codes "t"
    ∷ codes "--redpanda-id"
    ∷ codes "c9"
    ∷ codes "--debug"
    ∷ codes "--project-id"
    ∷ codes "p1"
    ∷ []

abbrev gcp_vars : List Text
gcp_vars =
    codes "CLOUD_URL=https://api/api/v1"
    ∷ codes "RPK_PUBLIC_API_URL=https://api.redpanda.com"
    ∷ codes "ARM_USE_MSI=True"
    ∷ codes "GOOGLE_APPLICATION_CREDENTIALS=/tmp/d/creds.json"
    ∷ []

gcp_args_found :
    (generate_byoc_args_and_env prefixing client environment outside cluster (codes "apply") disk).1
    ≡ reply (gcp_args, gcp_vars, some 3)
unfolding generate_byoc_args_and_env without_terraform same to_lower trim_suffix has_prefix
gcp_args_found = refl

generate_byoc_args_and_env-IsForeign_example : All IsForeign gcp_vars
generate_byoc_args_and_env-IsForeign_example =
    generate_byoc_args_and_env-IsForeign prefixing client environment outside cluster
      (codes "apply") disk gcp_args gcp_vars (some 3) gcp_args_found

disk-IsOrderly : IsOrderly disk
disk-IsOrderly = (omega arith, (omega arith, tt))

run_byoc-live_example :
    (run_byoc prefixing
      (λ err. err)
      client
      environment
      outside
      (codes "c9")
      (codes "apply")
      disk).0.live
    ≡ 2 ∷ 0 ∷ []
run_byoc-live_example =
    run_byoc-live prefixing (λ err. err) client environment outside (codes "c9") (codes "apply")
      disk disk-IsOrderly

abbrev sixty_lines : List Text
sixty_lines =
    map (λ n. n ∷ [])
      (30 ∷ 31 ∷ 32 ∷ 33 ∷ 34 ∷ 35 ∷ 36 ∷ 37 ∷ 38 ∷ 39 ∷ 40 ∷ 41 ∷ 42 ∷ 43 ∷ 44 ∷ 45 ∷ 46 ∷ 47 ∷ 48
        ∷ 49 ∷ 50 ∷ 51 ∷ 52 ∷ 53 ∷ 54 ∷ 55 ∷ 56 ∷ 57 ∷ 58 ∷ 59 ∷ 60 ∷ 61 ∷ 62 ∷ 63 ∷ 64 ∷ 65 ∷ 66
        ∷ 67 ∷ 68 ∷ 69 ∷ 70 ∷ 71 ∷ 72 ∷ 73 ∷ 74 ∷ 75 ∷ 76 ∷ 77 ∷ 78 ∷ 79 ∷ 80 ∷ 81 ∷ 82 ∷ 83 ∷ 84
        ∷ 85 ∷ 86 ∷ 87 ∷ 88 ∷ 89 ∷ [])

forward_logs-last_example : (forward_logs (λ l. l) [] (codes "first" ∷ sixty_lines)).0 ≡ sixty_lines
forward_logs-last_example = forward_logs-last (λ l. l) (codes "first" ∷ sixty_lines)

abbrev log_line : ZapLine
log_line = record {
  date_time = codes "now";
  level = codes "WARN";
  logger = codes "rpk";
  file = codes "main.go";
  message = codes "odd\tthing";
}
