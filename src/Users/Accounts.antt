-- ===== src/Users/Accounts.antt =====
-- src/users.rs: the accounts, their cookie, and the handlers that change them.
pub mod Laws
pub mod Login
pub mod Session
use Prim.Native.Char.{code}
use vestirust.Prelude.{
  ℕ, Bool, true, false, not, ◌&&◌, ◌||◌, Option, none, some, String, List, [], ◌∷◌, Result, ok, err,
  ◌>>=◌, ok_or, str_eq, eq_iff, leb, ◌==◌, if◌then◌else◌,
}
use vestirust.Prelude.Tables.{Keyed, find_key, replace_or_push, remove_found}
use vestirust.Model.{StatusCode, User, Config}
use vestirust.Configuration.{Reply, to_file_or_internal_server_error}
use vestirust.Configuration.Interface.{Backend}

-- `u.login == login`
abbrev pub by_login : Keyed User String
by_login = record { key = λ u. u.login; beq = str_eq; beq_iff = eq_iff }

-- `roles.contains(&"ADMINS")`
unfoldable pub is_admin : List String → Bool
is_admin [] = false
is_admin (role ∷ rest) = str_eq role "ADMINS" || is_admin rest

-- `char::is_whitespace`
is_whitespace : ℕ → Bool
is_whitespace c =
    (leb 9 c && leb c 13)
    || c == 32
    || c == 0x85
    || c == 0xa0
    || c == 0x1680
    || (leb 0x2000 c && leb c 0x200a)
    || c == 0x2028
    || c == 0x2029
    || c == 0x202f
    || c == 0x205f
    || c == 0x3000

trim_start : String → String
unfolding is_whitespace
trim_start String.[] = ""
trim_start (String.◌∷◌ c s) = if is_whitespace (code c) then trim_start s else String.◌∷◌ c s

trim_end : String → String
unfolding is_whitespace
trim_end String.[] = ""
trim_end (String.◌∷◌ c s) =
    let rest = trim_end s in
    if is_whitespace (code c) && str_eq rest "" then "" else String.◌∷◌ c rest

-- `str::trim`
unfoldable pub trim : String → String
unfolding trim_start trim_end
trim s = trim_end (trim_start s)

-- `hostname.split(":").next()`
before_colon : String → String
before_colon String.[] = ""
before_colon (String.◌∷◌ c s) =
    let rest = before_colon s in if code c == b':' then "" else String.◌∷◌ c rest

-- The cookie that `local_auth` adds to the jar, which signs it.
pub record Cookie : Type 0 where
  pub name : String
  pub value : String
  pub domain : String
  pub path : String
  pub same_site : String
  pub secure : Bool
  pub http_only : Bool

abbrev pub cookie_name : String
cookie_name = "VESTIBULE_AUTH"

module _ {World : Type 0} (backend : Backend World) where
  -- `User::from_request`: the value of the signed cookie, if there is one and its signature holds
  unfoldable pub user_from_request : Option String → Result StatusCode User
  user_from_request cookie = do
    serialized_user ← ok_or cookie StatusCode.unauthorized
    ok_or (backend.user_from_json serialized_user) StatusCode.internal_server_error

  -- `Admin::from_request`
  unfoldable pub admin_from_request : Option String → Result StatusCode User
  unfolding user_from_request is_admin
  admin_from_request cookie = do
    user ← user_from_request cookie
    if not (is_admin user.roles) then err StatusCode.unauthorized else ok user

  -- `Ok(true)` of the verification, its failure, and a hash that does not parse
  verified : Option Bool → Result StatusCode (Unit {0})
  verified none = err StatusCode.internal_server_error
  verified (some true) = ok tt
  verified (some false) = err StatusCode.unauthorized

  unfoldable pub local_auth : Config → String → String → String → Result StatusCode Cookie
  unfolding verified before_colon
  local_auth config hostname login password = do
    user ← ok_or (find_key by_login login config.users) StatusCode.unauthorized
    checked ← verified (backend.argon2_verify user.password password)
    encoded ←
        ok_or (backend.user_to_json (record user { password = "" }))
          StatusCode.internal_server_error
    ok (record {
      name = cookie_name;
      value = encoded;
      domain = before_colon hostname;
      path = "/";
      same_site = "Lax";
      secure = false;
      http_only = false;
    })

  unfoldable pub get_users : Config → Reply
  get_users config = elim (backend.users_to_json config.users) [
    | none ↦ err (StatusCode.internal_server_error, "could not encode users")
    | some encoded ↦ ok (StatusCode.ok, encoded)
  ]

  unfoldable pub delete_user : String → Config → String → World → World × Reply
  delete_user config_file config user_login w =
      elim (remove_found by_login user_login config.users) [
        | none ↦ (w, err (StatusCode.bad_request, "user doesn't exist"))
        | some users ↦
            to_file_or_internal_server_error backend (record config { users = users }) config_file
              (StatusCode.ok, "user deleted successfully") w
      ]

  -- The salt is drawn by the handler's random generator.
  hash_password : String → User → Option User
  hash_password salt payload = elim (backend.argon2_hash (trim payload.password) salt) [
    | none ↦ none
    | some hash ↦ some (record payload { password = hash })
  ]

  -- the user to store, from the user found under the login and the payload
  unfoldable pub user_to_store : String → Option User → User → Result (StatusCode × String) User
  unfolding hash_password
  user_to_store salt (some user) payload =
      if not (str_eq payload.password "")
      then ok_or (hash_password salt payload)
          (StatusCode.internal_server_error, "password hash failed")
      else ok (record payload { password = user.password })
  user_to_store salt none payload =
      if str_eq payload.password ""
      then err (StatusCode.not_acceptable, "password is required")
      else ok_or (hash_password salt payload)
          (StatusCode.internal_server_error, "password hash failed")

  unfoldable pub add_user : String → String → Config → User → World → World × Reply
  unfolding user_to_store
  add_user salt config_file config payload w =
      elim (user_to_store salt (find_key by_login payload.login config.users) payload) [
        | err refusal ↦ (w, err refusal)
        | ok user ↦
            to_file_or_internal_server_error backend
              (record config { users = replace_or_push by_login user config.users }) config_file
              (StatusCode.created, "user created or updated successfully") w
      ]
