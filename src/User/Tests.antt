-- ===== src/User/Tests.antt =====
-- A creation where the user is there already, and the name of a mechanism.
use terraform_provider_redpa.Base.{
  ◌++◌, ℕ, ◌+◌, ◌≡◌, refl, true, Option, none, some, arith, Text, codes, contains, to_lower, pos,
}
use terraform_provider_redpa.Values.{TfValue, null, unknown, known}
use terraform_provider_redpa.Errors.{plain_error, Reply, reply, refused}
use terraform_provider_redpa.Retry.Round.{IsSane}
use terraform_provider_redpa.User.Mechanism.{string_to_sasl_mechanism-sasl_mechanism_to_string}
use terraform_provider_redpa.User.Model.{
  UserModel, UserResponse, string_to_sasl_mechanism, sasl_mechanism_to_string,
}
use terraform_provider_redpa.Topic.Handler.{Returns}
use terraform_provider_redpa.User.Read.{
  ReadExplained, read_user_resource, read_user_resource-Returns,
}
use terraform_provider_redpa.User.Delete.{
  DropExplained, delete_user_resource, delete_user_resource-Returns,
}
use terraform_provider_redpa.User.Update.{
  ChangeExplained, update_user_resource, update_user_resource-Returns,
}
use terraform_provider_redpa.User.Service.{Users, IsUsersClock}
use terraform_provider_redpa.User.{
  Created, created, crashed, create_user_resource, UserExplained, create_user_resource-Explained,
}

abbrev alice : UserResponse
alice = record { name = codes "alice"; mechanism = some (codes "SASL_MECHANISM_SCRAM_SHA_256") }

-- Somebody else has made the user; time passes while waiting only.
abbrev taken : Users ℕ
taken = record {
  world = record { now = λ t. t; rand = λ n t. (0, t); wait = λ d t. (t + d, none) };
  sasl_mechanism_value = λ s. some (pos 1);
  create_user_client = λ url t. (t, none);
  create_user = λ r t. (refused (plain_error (codes "already exists")), t);
  find_user = λ n t. (reply alice, t);
  update_user = λ r t. (reply alice, t);
  delete_user = λ n t. (refused (plain_error (codes "not found")), t);
}

taken-IsUsersClock : IsUsersClock taken
taken-IsUsersClock = record {
  create_later = λ r t. omega arith;
  find_later = λ n t. omega arith;
  update_later = λ r t. omega arith;
  delete_later = λ n t. omega arith;
  rand_later = λ n t. omega arith;
  rand_below = λ n t h. h;
  wait_lasts = λ d t e. omega arith;
}

small-IsSane : IsSane 10 40
small-IsSane = record {
  initial_pos = omega arith;
  most_pos = omega arith;
  initial_small = omega arith;
  most_small = omega arith;
}

abbrev wanted : UserModel
wanted = record {
  allow_deletion = known true;
  cluster_api_url = known (codes "https://api.example.com");
  id = unknown;
  mechanism = known (codes "scram-sha-256");
  name = known (codes "alice");
  password = known (codes "secret");
  password_wo = null;
  password_wo_version = null;
}

create_user_resource-Explained_example :
    UserExplained taken wanted wanted (create_user_resource taken wanted wanted 10 40 0)
create_user_resource-Explained_example =
    create_user_resource-Explained taken wanted wanted 0 taken-IsUsersClock small-IsSane

abbrev stored_password : Option (Created ℕ) → TfValue Text
stored_password (some (created ds (some m) o)) = m.password
stored_password (some (created ds none o)) = null
stored_password (some crashed) = null
stored_password none = null

-- The state holds the planned password, which the user does not have.
adopted_test :
    stored_password (create_user_resource taken wanted wanted 10 40 0) ≡ known (codes "secret")
unfolding create_user_resource terraform_provider_redpa.Retry.Attempt.retry_attempt
    terraform_provider_redpa.Retry.retry terraform_provider_redpa.Retry.retry_loop
    terraform_provider_redpa.Retry.round terraform_provider_redpa.Retry.Attempt.closure
    terraform_provider_redpa.User.user_attempt terraform_provider_redpa.Errors.is_already_exists
    contains to_lower terraform_provider_redpa.User.Model.flatten_user
adopted_test = refl

string_to_sasl_mechanism-sasl_mechanism_to_string_example :
    string_to_sasl_mechanism taken.sasl_mechanism_value
      (sasl_mechanism_to_string (codes "SASL_MECHANISM_" ++ codes "SCRAM_SHA_256"))
    ≡ pos 1
string_to_sasl_mechanism-sasl_mechanism_to_string_example =
    string_to_sasl_mechanism-sasl_mechanism_to_string taken.sasl_mechanism_value
      (codes "SCRAM_SHA_256") (ground arith)

read_user_resource-Returns_example :
    Returns (ReadExplained taken wanted) (read_user_resource taken wanted 10 40 0)
read_user_resource-Returns_example =
    read_user_resource-Returns taken wanted 0 taken-IsUsersClock small-IsSane

delete_user_resource-Returns_example :
    Returns (DropExplained taken wanted) (delete_user_resource taken wanted 10 40 0)
delete_user_resource-Returns_example =
    delete_user_resource-Returns taken wanted 0 taken-IsUsersClock small-IsSane

-- The state has another password.
abbrev before : UserModel
before = record wanted { password = known (codes "old") }

update_user_resource-Returns_example :
    Returns
      (ChangeExplained taken wanted wanted before)
      (update_user_resource taken wanted wanted before 10 40 0)
update_user_resource-Returns_example =
    update_user_resource-Returns taken wanted wanted before 0 taken-IsUsersClock small-IsSane
