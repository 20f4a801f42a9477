-- ===== src/Tests/Website.antt =====
-- Runs of the theorems on the website: logging in, and a forged cookie.
use Prim.Native.Char.{Char, code}
use vestirust.Prelude
use vestirust.Prelude.{
  ℕ, Bool, true, false, Option, none, some, String, List, [], ◌∷◌, ◌≡◌, ◌≢◌, refl, ok, err, ◌==◌,
  ◌||◌, All, str_eq, if◌then◌else◌, inl,
}
use vestirust.Prelude.Tables.{find_key}
use vestirust.Model.{StatusCode, User, Config}
use vestirust.Configuration.{from_file}
use vestirust.Users.Accounts.{by_login, Cookie, local_auth}
use vestirust.Users.Accounts.Session.{without_password}
use vestirust.Configuration.Interface.{Backend}
use vestirust.Server.Admin.Guard.{IsAdminCookie}
use vestirust.Server.Routes.{
  Filter, RouterApi, nest, find_route, website_router, for_admin, found, add_user,
}
use vestirust.Server.Website.Guard.{IsGuarded, website-IsGuarded}
use vestirust.Prelude.Texts.{concat}
use vestirust.Server.Admin.{Extracted}
use vestirust.Server.Website.{WebRequest, WebApi, logged_in, Server, cookie_value, website}
use vestirust.Server.Website.Session.{IsSigned, user_of_signed, website-logged_in}
use vestirust.Tests.Storage.{World, backend_with, backend_with-IsUserJson, encodes_known}

-- A path fits the pattern that it is.
abbrev pub router : RouterApi
router = record {
  path_params = λ pattern path. if str_eq pattern path then some [] else none;
  accepts = λ filter method. elim filter [
    | Filter.get ↦ str_eq method "GET" || str_eq method "HEAD"
    | Filter.post ↦ str_eq method "POST"
    | Filter.delete ↦ str_eq method "DELETE"
    | Filter.any ↦ true
  ];
}

-- A signature is one character in front of the text.
abbrev pub mark : Bool → Char
mark true = "1"
mark false = "0"

abbrev pub read_marked : Bool → String → Option String
read_marked key String.[] = none
read_marked key (String.◌∷◌ c s) = if code c == code (mark key) then some s else none

abbrev pub web_api : WebApi Bool
web_api = record {
  router = router;
  second_text = λ params. ok "ada";
  second_number = λ params. ok 1;
  signed = λ key text. String.◌∷◌ (mark key) text;
  read_signed = read_marked;
}

web_api-IsSigned : IsSigned web_api
web_api-IsSigned = record { read_own = own; read_other = other }
  where
    own : (key : Bool) (text : String) → read_marked key (String.◌∷◌ (mark key) text) ≡ some text
    own true text = refl
    own false text = refl

    other :
        (key k : Bool) (text : String) → k ≢ key → read_marked k (String.◌∷◌ (mark key) text) ≡ none
    other true true text n = absurd (n refl)
    other true false text n = refl
    other false true text n = refl
    other false false text n = absurd (n refl)

abbrev pub ada : User
ada = record { login = "ada"; password = "secret"; roles = "ADMINS" ∷ [] }

abbrev pub without_ada : Config
without_ada = record {
  hostname = "example.com";
  debug_mode = false;
  http_port = 8080;
  auto_tls = false;
  letsencrypt_email = "";
  apps = [];
  davs = [];
  users = [];
}

abbrev pub with_ada : Config
with_ada = record without_ada { users = ada ∷ [] }

abbrev pub backend : Backend World
backend = backend_with with_ada without_ada (without_password ada)

abbrev pub server : Server Bool String String
server = record { config_file = "vestibule.yaml"; key = true; config_map = []; port = 8080 }

abbrev reloaded_server : Server Bool String String
reloaded_server = record server { key = false }

abbrev pub request : String → String → Option String → WebRequest
request method path cookie = record {
  method = method;
  path = path;
  cookie = cookie;
  host = ok "example.com:8080";
  credentials = ok ("ada", "secret");
  user = ok ada;
  app = err (StatusCode.bad_request, "no app");
  dav = err (StatusCode.bad_request, "no dav");
}

abbrev pub ada_cookie : Cookie
ada_cookie = record {
  name = "VESTIBULE_AUTH";
  value = "saved";
  domain = "example.com";
  path = "/";
  same_site = "Lax";
  secure = false;
  http_only = false;
}

pub accepts_ada : local_auth backend with_ada "example.com:8080" "ada" "secret" ≡ ok ada_cookie
unfolding local_auth Prelude.find
accepts_ada = rw (encodes_known with_ada without_ada (without_password ada)) refl

pub logs_in :
    website backend web_api server 1 "salt" (request "POST" "/auth/local" none) (some "before")
    ≡ (some "before", logged_in ada_cookie)
unfolding website find_route website_router nest from_file
logs_in = rw accepts_ada refl

other_key : reloaded_server.key ≢ server.key
other_key e = cc

website-logged_in_example :
    (config : Config) × (from_file backend (some "before") "vestibule.yaml" ≡ some config)
    × (login password : String) × (◌≡◌ {A = Extracted (String × String)}
        (ok ("ada", "secret"))
        (ok (login, password)))
    × (user : User) × (find_key by_login login config.users ≡ some user)
    × (backend.argon2_verify user.password password ≡ some true)
    × (◌≡◌ {A = World} (some "before") (some "before"))
    × (user_of_signed backend web_api server true ada_cookie ≡ ok (without_password user))
    × (user_of_signed backend web_api reloaded_server true ada_cookie ≡ err StatusCode.unauthorized)
website-logged_in_example =
    website-logged_in (backend_with-IsUserJson with_ada without_ada (without_password ada))
      web_api-IsSigned server reloaded_server 1 "salt" (request "POST" "/auth/local" none)
      (some "before") (some "before") ada_cookie logs_in other_key

-- The cookie of another key, for the user "ada".
abbrev pub forged : WebRequest
forged = request "POST" "/api/admin/users" (some "0ada")

forged-not_admin : ¬ IsAdminCookie backend (cookie_value backend web_api server (some "0ada"))
forged-not_admin (text, user, is_text, parsed, admin) = cc

website-IsGuarded_example :
    ((website backend web_api server 1 "salt" forged (some "before")).0 ≡ some "before")
    × IsGuarded backend 1
        (found (for_admin add_user) [])
        (website backend web_api server 1 "salt" forged (some "before")).1
unfolding find_route website_router nest concat
website-IsGuarded_example =
    website-IsGuarded backend web_api server 1 "salt" forged (some "before") forged-not_admin
