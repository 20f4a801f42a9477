-- ===== src/Server/Admin.antt =====
-- src/server.rs: the routes below /api/admin, with the extractors of their handlers.
pub mod Guard
pub mod Keys
pub mod Failures
pub mod Revoked
pub mod Promises
pub mod Races
pub mod Tasks
use vestirust.Prelude.{ℕ, Option, none, some, String, Result, ok, err}
use vestirust.Model.{StatusCode, User, App, Dav, Config}
use vestirust.Configuration.{Reply, from_file}
use vestirust.Configuration.Interface.{Backend}
use vestirust.Users.Accounts
use vestirust.Users.Accounts.{admin_from_request}
use vestirust.Apps
use vestirust.Davs.Model

-- What an extractor of axum makes of the path or of the body, or its rejection.
abbrev pub Extracted : Type 0 → Type 0
Extracted A = Result (StatusCode × String) A

-- A request that the router matched, with what its handler's last extractor gives.
pub data AdminRequest : Type 0 where
  get_users get_apps get_davs : AdminRequest
  add_user : Extracted User → AdminRequest
  add_app : Extracted App → AdminRequest
  add_dav : Extracted Dav → AdminRequest
  delete_user : Extracted String → AdminRequest
  delete_app : Extracted ℕ → AdminRequest
  delete_dav : Extracted ℕ → AdminRequest

-- A handler runs only if its last extractor accepts.
abbrev pub with_extracted :
    {A World : Type 0} → Extracted A → (A → World → World × Reply) → World → World × Reply
with_extracted (ok a) handler w = handler a w
with_extracted (err rejection) handler w = (w, err rejection)

module _ {World : Type 0} (backend : Backend World) (salt config_file : String) where
  unfoldable pub admin_handler : Config → AdminRequest → World → World × Reply
  admin_handler config get_users w = (w, Accounts.get_users backend config)
  admin_handler config get_apps w = (w, Apps.get_apps backend config)
  admin_handler config get_davs w = (w, Model.get_davs backend config)
  admin_handler config (add_user payload) w =
      with_extracted payload (Accounts.add_user backend salt config_file config) w
  admin_handler config (add_app payload) w =
      with_extracted payload (Apps.add_app backend config_file config) w
  admin_handler config (add_dav payload) w =
      with_extracted payload (Model.add_dav backend config_file config) w
  admin_handler config (delete_user login) w =
      with_extracted login (Accounts.delete_user backend config_file config) w
  admin_handler config (delete_app id) w =
      with_extracted id (Apps.delete_app backend config_file config) w
  admin_handler config (delete_dav id) w =
      with_extracted id (Model.delete_dav backend config_file config) w

  -- The extractors run in the order of the handlers' parameters: the configuration, the admin, and
  -- then, in `admin_handler`, the path or the body.
  -- The rejection of an extractor is a response with an empty body.
  unfoldable pub admin_router : Option String → AdminRequest → World → World × Reply
  unfolding admin_handler
  admin_router cookie request w = elim (from_file backend w config_file) [
    | none ↦ (w, err (StatusCode.internal_server_error, ""))
    | some config ↦ elim (admin_from_request backend cookie) [
      | err status ↦ (w, err (status, ""))
      | ok admin ↦ admin_handler config request w
    ]
  ]
