-- ===== src/ClusterResource/Tests.antt =====
-- Deletions against a cloud that always answers the same.
use terraform_provider_redpa.ClusterResource.Pins.{
  plan_modify_string, release_string_pin_for_server_assign,
}
use terraform_provider_redpa.Operation.{Operation, completed, Server}
use terraform_provider_redpa.Operation.Outcome.{IsServerClock}
use terraform_provider_redpa.ClusterResource.Mask.{
  is_taken, accepted_top_level, expand_leaf_paths, expand_leaf_paths-taken,
}
use terraform_provider_redpa.ClusterResource.Update.{
  Updater, UpdateHolds, update_resource, update_resource-holds,
}
use terraform_provider_redpa.ClusterResource.Read.{
  View, Justified, read_resource, read_resource-Justified,
}
use terraform_provider_redpa.ClusterResource.Create.{Creator, Stored, created, create_resource}
use terraform_provider_redpa.ClusterResource.Creation.{Explained, create_resource_ends}
use terraform_provider_redpa.Errors.{
  reply, GoError, plain_error, is_not_found, is_retryable_byoc_error,
}
use terraform_provider_redpa.Base.{
  All, ◌∷◌, same, ℕ, ◌+◌, ◌≡◌, refl, ◌≢◌, ◌⊎◌, inl, true, false, none, some, List, [], ◌++◌, arith,
  codes, contains, to_lower, Text,
}
use terraform_provider_redpa.Values.{TfValue, unknown, known}
use terraform_provider_redpa.Removal.{Diagnostic}
use terraform_provider_redpa.Removal.Laws.{errors}
use terraform_provider_redpa.Retry.{retry, round, retry_loop}
use terraform_provider_redpa.Retry.Round.{IsSane}
use terraform_provider_redpa.ClusterWait.{retry_get_cluster, poll_cluster}
use terraform_provider_redpa.ClusterResource.{
  ClusterState, deleting, deleting_agent, Cloud, deletion_step, ready,
}
use terraform_provider_redpa.ClusterResource.Delete.{finished, Doomed, delete_resource}
use terraform_provider_redpa.ClusterResource.Steps.{IsCloudClock}
use terraform_provider_redpa.ClusterResource.Deletion.{CountsAsGone, delete_resource_ends}

abbrev failed_destroy : GoError
failed_destroy = plain_error (codes "exit status 1:\n12:00:07.404Z destroy failed")

-- One BYOC cluster, in the given state; a failing plugin; time passes while waiting only.
abbrev standing : ClusterState → Cloud ClusterState ℕ
standing state = record {
  world = record { now = λ t. t; rand = λ n t. (0, t); wait = λ d t. (t + d, none) };
  state_of = λ cl. cl;
  is_byoc = λ cl. true;
  cluster_for_id = λ id t. (reply state, t);
  delete_cluster = λ id t. (t, none);
  run_byoc = λ id verb t. (t, some failed_destroy);
  wrap = λ text err. record err { text = text ++ err.text };
  duration_text = λ d. [];
}

standing-IsCloudClock : (state : ClusterState) → IsCloudClock (standing state)
standing-IsCloudClock state = record {
  look_later = λ id t. omega arith;
  run_later = λ id verb t. omega arith;
  rand_later = λ n t. omega arith;
  rand_below = λ n t h. h;
  wait_lasts = λ d t e. omega arith;
}

abbrev doomed : Doomed
doomed = record { id = codes "c1"; allow_deletion = known true; delete_timeout = inl 50 }

small-IsSane : IsSane 10 40
small-IsSane = record {
  initial_pos = omega arith;
  most_pos = omega arith;
  initial_small = omega arith;
  most_small = omega arith;
}

delete_resource_ends_example :
    (ds : List Diagnostic) × (s : ℕ) × (delete_resource (standing deleting) doomed 10 40 52 0
      ≡ some (finished ds s))
    × ((errors ds ≢ 0)
        ⊎ ((doomed.allow_deletion ≡ known true) × CountsAsGone (standing deleting) doomed 10 40 0))
delete_resource_ends_example =
    delete_resource_ends (standing deleting) doomed 10 40 (standing-IsCloudClock deleting)
      small-IsSane 0

-- The plugin failed, and Delete reports success: the digits of the time stamp read as not found.
failed_destroy_test :
    delete_resource (standing deleting_agent) doomed 10 40 52 0 ≡ some (finished [] 0)
unfolding delete_resource retry_get_cluster retry retry_loop round poll_cluster deletion_step
    is_not_found is_retryable_byoc_error to_lower contains
failed_destroy_test = refl

abbrev creator : Creator Text ClusterState ℕ ℕ
creator = record {
  request = inl (codes "blue");
  create_timeout = inl 50;
  create_cluster = λ name t. (reply (codes "c1"), t);
  flatten = λ cl. inl 7;
}

create_resource_ends_example :
    (ds : List Diagnostic) × (kept : Stored ℕ) × (s : ℕ) × (create_resource
        (standing ready)
        creator
        10
        40
        52
        0
      ≡ some (created ds kept s))
    × Explained (standing ready) creator 10 40 0 ds kept
create_resource_ends_example =
    create_resource_ends (standing ready) creator 10 40 (standing-IsCloudClock ready) small-IsSane 0

abbrev view : View ClusterState ℕ
view = record { id_of = λ cl. codes "c1"; state_of = λ cl. cl; flatten = λ cl. inl 7 }

read_resource-Justified_example :
    Justified view (codes "c1") (reply ready) (read_resource view (codes "c1") (reply ready))
read_resource-Justified_example = read_resource-Justified view (codes "c1") (reply ready)

abbrev finished_operation : Operation
finished_operation = record { id = codes "op"; state = completed; error_message = [] }

abbrev server : Server ℕ
server = record {
  world = record { now = λ t. t; rand = λ n t. (0, t); wait = λ d t. (t + d, none) };
  get_operation = λ id t. (reply (some finished_operation), t);
  duration_text = λ d. [];
  wrap = λ text err. record err { text = text ++ err.text };
}

server-IsServerClock : IsServerClock server
server-IsServerClock = record {
  call_later = λ id t. omega arith;
  rand_later = λ n t. omega arith;
  rand_below = λ n t h. h;
  wait_lasts = λ d t e. omega arith;
}

abbrev updater : Updater Text ClusterState ℕ ℕ
updater = record {
  id = codes "c1";
  id_text = codes "\"c1\"";
  server = server;
  request = inl (codes "payload", codes "rpsql" ∷ codes "name" ∷ []);
  update_timeout = inl 50;
  update_cluster = λ q paths t. (reply (some finished_operation), t);
  cluster_for_id = λ id t. (reply ready, t);
  flatten = λ cl. inl 7;
}

update_resource-holds_example : UpdateHolds updater 10 40 0 (update_resource updater 10 40 0)
update_resource-holds_example =
    update_resource-holds updater 10 40 0 server-IsServerClock small-IsSane

expand_leaf_paths-taken_example :
    All (λ p. is_taken p ≡ true) (expand_leaf_paths (codes "rpsql" ∷ codes "name" ∷ []))
unfolding accepted_top_level same
expand_leaf_paths-taken_example =
    expand_leaf_paths-taken (codes "rpsql" ∷ codes "name" ∷ []) (refl, (refl, tt))

-- SQL is turned on, and the control plane chooses a zone and a URL.
abbrev no_zones : TfValue (List ℕ)
no_zones = known []

abbrev no_url : TfValue Text
no_url = known []

-- The URL is planned anew too when SQL is turned off.
disabled_string_test :
    plan_modify_string false unknown (known (codes "url")) (known false) (known true) ≡ unknown
unfolding plan_modify_string release_string_pin_for_server_assign
disabled_string_test = refl
