-- ===== src/Model.antt =====
-- The data of the program: the records of src/configuration.rs, src/apps.rs, src/users.rs and
-- src/davs/model.rs, whose files refer to one another.
use vestirust.Prelude.{ℕ, Bool, Option, String, List}

-- The status codes that the program answers with.
pub data StatusCode : Type 0 where
  ok created no_content partial_content multi_status : StatusCode
  not_modified : StatusCode
  bad_request unauthorized forbidden not_found method_not_allowed not_acceptable : StatusCode
  conflict precondition_failed unsupported_media_type range_not_satisfiable : StatusCode
  internal_server_error : StatusCode

pub record User : Type 0 where
  pub login : String
  pub password : String
  pub roles : List String

pub record App : Type 0 where
  pub id : ℕ
  pub name : String
  pub icon : String
  pub color : String
  pub is_proxy : Bool
  pub host : String
  pub forward_to : String
  pub secured : Bool
  pub login : String
  pub password : String
  pub openpath : String
  pub roles : List String

pub record Dav : Type 0 where
  pub id : ℕ
  pub host : String
  pub directory : String
  pub writable : Bool
  pub name : String
  pub icon : String
  pub color : String
  pub secured : Bool
  pub allow_symlinks : Bool
  pub roles : List String
  pub passphrase : String
  pub key : Option (List ℕ)

pub data Scheme : Type 0 where
  http https : Scheme

-- `Authority` and `Uri` are types of the crate `http`.
pub record AppWithUri (Authority Uri : Type 0) : Type 0 where
  pub inner : App
  pub app_scheme : Scheme
  pub app_authority : Authority
  pub forward_uri : Uri
  pub forward_scheme : Scheme
  pub forward_authority : Authority
  pub forward_host : String

pub data HostType (Authority Uri : Type 0) : Type 0 where
  app : AppWithUri Authority Uri → HostType Authority Uri
  dav : Dav → HostType Authority Uri

pub record Config : Type 0 where
  pub hostname : String
  pub debug_mode : Bool
  pub http_port : ℕ
  pub auto_tls : Bool
  pub letsencrypt_email : String
  pub apps : List App
  pub davs : List Dav
  pub users : List User

module _ {Authority Uri : Type 0} where
  -- `HostType::roles`
  unfoldable pub roles : HostType Authority Uri → List String
  roles (app a) = a.inner.roles
  roles (dav d) = d.roles

  -- `HostType::secured`
  unfoldable pub secured : HostType Authority Uri → Bool
  secured (app a) = a.inner.secured
  secured (dav d) = d.secured
