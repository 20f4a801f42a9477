-- ===== src/Server/Website/Session.antt =====
-- Sessions: from `local_auth` to the requests that bring its cookie.
use vestirust.Prelude.{
  ℕ, Result, true, arith, ◌==◌, if◌then◌else◌, none, some, String, ◌≡◌, ◌≢◌, refl, ap, ok, err,
  >>=-eq-ok, ok_or-eq-ok,
}
use vestirust.Prelude.Tables.{find_key}
use vestirust.Model.{StatusCode, User, Config}
use vestirust.Configuration.{from_file}
use vestirust.Configuration.Interface.{Backend}
use vestirust.Users.Accounts.{by_login, Cookie, user_from_request}
use vestirust.Users.Accounts.Session.{IsUserJson, without_password, local_auth-user}
use vestirust.Server.Admin.{Extracted}
use vestirust.Server.Routes.{
  reload, local_auth, website_handler, list_services, for_admin, Found, path_not_found,
  method_not_allowed, found,
}
use vestirust.Server.Website.{
  WebRequest, WebApi, logged_in, panicked, reload_sent, Server, cookie_value, answer_login,
  with_status, log_in, admin, answer_list, send_reload, serve, serve_found, website,
}

-- A jar reads what was signed with its key, and nothing that was signed with another.
pub record IsSigned {Key : Type 0} (web_api : WebApi Key) : Type 0 where
  pub read_own :
      (key : Key) (text : String) → web_api.read_signed key (web_api.signed key text) ≡ some text
  pub read_other :
      (key other : Key) (text : String)
      → other ≢ key
      → web_api.read_signed other (web_api.signed key text) ≡ none

module _ {World : Type 0} (backend : Backend World) {Key : Type 0} (web_api : WebApi Key)
    {Authority Uri : Type 0} (server : Server Key Authority Uri) where
  -- What a server's extractor of `User` makes of a cookie that was signed with a key.
  abbrev pub user_of_signed : Key → Cookie → Result StatusCode User
  user_of_signed key cookie =
      user_from_request backend
        (cookie_value backend web_api server (some (web_api.signed key cookie.value)))

  with_status-ok :
      {A : Type 0} (r : Result StatusCode A) {a : A}
      → with_status backend web_api server r ≡ ok a
      → r ≡ ok a
  unfolding with_status
  with_status-ok (ok a) h = cc
  with_status-ok (err status) h = cc

  answer_login-logged_in :
      (r : Extracted Cookie) {cookie : Cookie}
      → answer_login backend web_api server r ≡ logged_in cookie
      → r ≡ ok cookie
  unfolding answer_login
  answer_login-logged_in (ok c) h = cc
  answer_login-logged_in (err rejection) h = cc

  answer_list-not_logged_in :
      (r : Result StatusCode User) {cookie : Cookie}
      → ¬ (answer_list backend web_api server r ≡ logged_in cookie)
  unfolding answer_list
  answer_list-not_logged_in (ok user) h = cc
  answer_list-not_logged_in (err status) h = cc

  if_reloaded :
      (receivers : ℕ) {cookie : Cookie}
      → ¬ ((if receivers == 0 then panicked else reload_sent "Apps reloaded !") ≡ logged_in cookie)
  if_reloaded receivers h = ground arith

  -- Where the website answers with a cookie, `local_auth` gave it out.
  serve_found-logged_in :
      (receivers : ℕ) (salt : String) (f : Found) (req : WebRequest) (w : World) (cookie : Cookie)
      → (serve_found backend web_api server receivers salt f req w).1 ≡ logged_in cookie
      → (log_in backend web_api server req w ≡ ok cookie)
        × ((serve_found backend web_api server receivers salt f req w).0 ≡ w)
  unfolding serve_found serve send_reload admin
  serve_found-logged_in receivers salt path_not_found req w cookie h = absurd (cc)
  serve_found-logged_in receivers salt method_not_allowed req w cookie h = absurd (cc)
  serve_found-logged_in receivers salt (found reload params) req w cookie h =
      absurd (if_reloaded receivers h)
  serve_found-logged_in receivers salt (found local_auth params) req w cookie h =
      (answer_login-logged_in _ h, refl)
  serve_found-logged_in receivers salt (found list_services params) req w cookie h =
      absurd (answer_list-not_logged_in _ h)
  serve_found-logged_in receivers salt (found website_handler params) req w cookie h = absurd (cc)
  serve_found-logged_in receivers salt (found (for_admin endpoint) params) req w cookie h =
      absurd (cc)

module _ {World : Type 0} {backend : Backend World} (json : IsUserJson backend) {Key : Type 0}
    {web_api : WebApi Key} (jar : IsSigned web_api) {Authority Uri : Type 0}
    (server : Server Key Authority Uri) where
  log_in-user :
      (req : WebRequest) (w : World) (cookie : Cookie)
      → log_in backend web_api server req w ≡ ok cookie
      → (config : Config) × (from_file backend w server.config_file ≡ some config)
        × (login password : String) × (req.credentials ≡ ok (login, password))
        × (user : User) × (find_key by_login login config.users ≡ some user)
        × (backend.argon2_verify user.password password ≡ some true)
        × (user_from_request backend (some cookie.value) ≡ ok (without_password user))
  unfolding log_in
  log_in-user req w cookie h =
      let (config, read, h1) = >>=-eq-ok _ _ h in
      let (hostname, host, h2) = >>=-eq-ok req.host _ h1 in
      let ((login, password), given, h3) = >>=-eq-ok req.credentials _ h2 in
      let (user, known, accepted, decoded) =
        local_auth-user json config hostname login password cookie
          (with_status-ok backend web_api server _ h3) in
      (config, ok_or-eq-ok _ _ read, login, password, given, user, known, accepted, decoded)

  -- The website answers a request with a cookie only for the password of a user whom the file holds;
  -- it then leaves the world as it was, and signed with the server's key, the cookie stands for
  -- that user without the password. A server with another key, as after a reload, answers it with 401.
  pub website-logged_in :
      (other : Server Key Authority Uri) (receivers : ℕ) (salt : String) (req : WebRequest)
      (w w' : World) (cookie : Cookie)
      → website backend web_api server receivers salt req w ≡ (w', logged_in cookie)
      → other.key ≢ server.key
      → (config : Config) × (from_file backend w server.config_file ≡ some config)
        × (login password : String) × (req.credentials ≡ ok (login, password))
        × (user : User) × (find_key by_login login config.users ≡ some user)
        × (backend.argon2_verify user.password password ≡ some true)
        × (w' ≡ w)
        × (user_of_signed backend web_api server server.key cookie ≡ ok (without_password user))
        × (user_of_signed backend web_api other server.key cookie ≡ err StatusCode.unauthorized)
  unfolding website user_from_request
  website-logged_in other receivers salt req w w' cookie h differ =
      let (given, same) =
        serve_found-logged_in backend web_api server receivers salt _ req w cookie
          (ap (λ t. t.1) h) in
      let (config, read, login, password, credentials, user, known, accepted, decoded) =
        log_in-user req w cookie given in
      (
        config,
        read,
        login,
        password,
        credentials,
        user,
        known,
        accepted,
        rw (← ap (λ t. t.0) h) same,
        rw (jar.read_own server.key cookie.value) decoded,
        rw (jar.read_other server.key other.key cookie.value differ) refl,
      )
