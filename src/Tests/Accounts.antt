-- ===== src/Tests/Accounts.antt =====
-- Runs of the theorems on the accounts.
use vestirust.Prelude
use vestirust.Prelude.{
  none, some, String, [], ◌∷◌, ◌≡◌, ◌≢◌, ◌↔◌, false, refl, ok, str_eq, if◌then◌else◌,
}
use vestirust.Prelude.Tables.{replace_or_push}
use vestirust.Model.{StatusCode, User, Config}
use vestirust.Configuration.{from_file}
use vestirust.Users.Accounts.{trim, add_user, local_auth}
use vestirust.Users.Accounts.Login.{IsAccepted, local_auth-add_user}
use vestirust.Tests.Storage.{
  backend_for, backend_for-IsStorage, backend_for-IsPasswordHash, to_file_saved,
}

abbrev ada : User
ada = record { login = "ada"; password = "secret"; roles = "ADMINS" ∷ [] }

abbrev bob : User
bob = record { login = "bob"; password = " b "; roles = "USERS" ∷ [] }

abbrev stored_bob : User
stored_bob = record bob { password = "b" }

abbrev before : Config
before = record {
  hostname = "example.com";
  debug_mode = false;
  http_port = 8080;
  auto_tls = false;
  letsencrypt_email = "";
  apps = [];
  davs = [];
  users = ada ∷ [];
}

abbrev with_bob : Config
with_bob = record before { users = ada ∷ stored_bob ∷ [] }

abbrev created_user : StatusCode × String
created_user = (StatusCode.created, "user created or updated successfully")

adds_bob :
    add_user (backend_for before with_bob) "salt" "vestibule.yaml" before bob none
    ≡ (some "saved", ok created_user)
unfolding add_user Prelude.find replace_or_push trim
adds_bob = to_file_saved before with_bob "vestibule.yaml" created_user none

reads_with_bob :
    from_file (backend_for before with_bob) (some "saved") "vestibule.yaml" ≡ some with_bob
unfolding from_file
reads_with_bob = refl

given_password : bob.password ≢ ""
given_password e = cc

-- The password " b " is stored as "b", which is the one that is accepted.
local_auth-add_user_example :
    IsAccepted
      (backend_for before with_bob)
      (local_auth (backend_for before with_bob) with_bob "example.com:8080" "bob" " b ")
    ↔ (" b " ≡ trim " b ")
local_auth-add_user_example =
    local_auth-add_user (backend_for-IsStorage before with_bob)
      (backend_for-IsPasswordHash before with_bob) "salt" "vestibule.yaml" before with_bob bob none
      (some "saved") created_user "example.com:8080" " b " "bob" given_password adds_bob
      reads_with_bob refl
