-- ===== src/Server/Website.antt =====
-- src/server.rs: `website_router`, with the extractors of its handlers.
pub mod Guard
pub mod Keys
pub mod Session
use vestirust.Prelude.{
  ℕ, Option, none, some, String, List, map, Result, ok, err, ◌>>=◌, ok_or, ◌==◌, if◌then◌else◌,
}
use vestirust.Model.{StatusCode, User, App, Dav}
use vestirust.Configuration.{Reply, from_file}
use vestirust.Configuration.Interface.{Backend}
use vestirust.Configuration.Services.{Service}
use vestirust.Users.Accounts
use vestirust.Users.Accounts.{Cookie, user_from_request}
use vestirust.Users.Authorization
use vestirust.Server.Admin.{AdminRequest, Extracted, admin_router}
use vestirust.Server.Routes.{
  AdminEndpoint, get_users, add_user, delete_user, get_apps, add_app, delete_app, get_davs, add_dav,
  delete_dav, Endpoint, reload, local_auth, website_handler, list_services, for_admin, RouterApi,
  Found, path_not_found, method_not_allowed, found, find_route, website_router,
}

-- A request for the website. `cookie` is the signed text of the cookie, and the extractors `Host` and
-- `Json` of axum have been at the rest.
pub record WebRequest : Type 0 where
  pub method : String
  pub path : String
  pub cookie : Option String
  pub host : Extracted String
  pub credentials : Extracted (String × String)
  pub user : Extracted User
  pub app : Extracted App
  pub dav : Extracted Dav

-- What the handlers use of axum and of the crate `cookie`: the second parameter of a path, and a jar
-- that signs a cookie's text and reads a signed text.
pub record WebApi (Key : Type 0) : Type 0 where
  pub router : RouterApi
  pub second_text : List String → Extracted String
  pub second_number : List String → Extracted ℕ
  pub signed : Key → String → String
  pub read_signed : Key → String → Option String

-- An answer of the website. `reload_sent` is a page behind which a reload was sent on the channel, to all
-- that have subscribed: src/main.rs then builds a new server.
pub data WebReply : Type 0 where
  replied : Reply → WebReply
  logged_in : Cookie → WebReply
  listed : List App × List Dav → WebReply
  page : String → WebReply
  reload_sent : String → WebReply
  panicked : WebReply

-- A rejection with an empty body.
abbrev pub rejected_with : StatusCode → WebReply
rejected_with status = replied (err (status, ""))

-- What `Server::build` gives its handlers.
pub record Server (Key Authority Uri : Type 0) : Type 0 where
  pub config_file : String
  pub key : Key
  pub config_map : List (Service Authority Uri)
  pub port : ℕ

module _ {World : Type 0} (backend : Backend World) {Key : Type 0} (web_api : WebApi Key)
    {Authority Uri : Type 0} (server : Server Key Authority Uri) where
  -- `jar.get`
  abbrev pub cookie_value : Option String → Option String
  cookie_value none = none
  cookie_value (some text) = web_api.read_signed server.key text

  answer_login : Result (StatusCode × String) Cookie → WebReply
  answer_login (ok cookie) = logged_in cookie
  answer_login (err rejection) = replied (err rejection)

  with_status : {A : Type 0} → Result StatusCode A → Extracted A
  with_status (ok a) = ok a
  with_status (err status) = err (status, "")

  -- the extractors of `local_auth`, and the handler
  log_in : WebRequest → World → Extracted Cookie
  unfolding with_status
  log_in req w = do
    config ← ok_or (from_file backend w server.config_file) (StatusCode.internal_server_error, "")
    hostname ← req.host
    (login, password) ← req.credentials
    with_status (Accounts.local_auth backend config hostname login password)

  answer_list : Result StatusCode User → WebReply
  answer_list (ok user) =
      listed (Authorization.list_services (map (λ s. s.1) server.config_map) user)
  answer_list (err status) = rejected_with status

  -- what the last extractor of an admin's handler gives
  admin_request : AdminEndpoint → List String → WebRequest → AdminRequest
  admin_request get_users params req = AdminRequest.get_users
  admin_request add_user params req = AdminRequest.add_user req.user
  admin_request delete_user params req = AdminRequest.delete_user (web_api.second_text params)
  admin_request get_apps params req = AdminRequest.get_apps
  admin_request add_app params req = AdminRequest.add_app req.app
  admin_request delete_app params req = AdminRequest.delete_app (web_api.second_number params)
  admin_request get_davs params req = AdminRequest.get_davs
  admin_request add_dav params req = AdminRequest.add_dav req.dav
  admin_request delete_dav params req = AdminRequest.delete_dav (web_api.second_number params)

  -- `receivers` is how many tasks have subscribed to the reloads.
  module _ (receivers : ℕ) (salt : String) where
    admin : AdminRequest → WebRequest → World → World × WebReply
    admin request req w =
        let (w', r) =
          admin_router backend salt server.config_file (cookie_value req.cookie) request w in
        (w', replied r)

    -- `tx.send(()).unwrap()`, which fails where nobody has subscribed, and the page behind it
    send_reload : WebReply
    send_reload = if receivers == 0 then panicked else reload_sent "Apps reloaded !"

    -- the handlers, with the parameters of the path
    serve : Endpoint → List String → WebRequest → World → World × WebReply
    unfolding send_reload admin admin_request answer_login log_in answer_list
    serve reload params req w = (w, send_reload)
    serve local_auth params req w = (w, answer_login (log_in req w))
    serve website_handler params req w = (w, page "Hello world from main server !")
    serve list_services params req w =
        (w, answer_list (user_from_request backend (cookie_value req.cookie)))
    serve (for_admin endpoint) params req w = admin (admin_request endpoint params req) req w

    serve_found : Found → WebRequest → World → World × WebReply
    unfolding serve
    serve_found path_not_found req w = (w, rejected_with StatusCode.not_found)
    serve_found method_not_allowed req w = (w, rejected_with StatusCode.method_not_allowed)
    serve_found (found endpoint params) req w = serve endpoint params req w

    unfoldable pub website : WebRequest → World → World × WebReply
    unfolding serve_found
    website req w = serve_found (find_route web_api.router req.method req.path website_router) req w
