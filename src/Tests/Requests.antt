-- ===== src/Tests/Requests.antt =====
-- Runs of the theorems on who may use a service, and on the map of the services.
use vestirust.Prelude.{
  Bool, In, ℕ, none, some, String, List, [], ◌∷◌, ◌++◌, ◌≡◌, ◌↔◌, ◌⊎◌, true, false, refl, ok, ok_or,
}
use vestirust.Prelude.Texts
use vestirust.Prelude.Tables.{replace_or_push}
use vestirust.Model.{StatusCode, User, App, Dav, http, AppWithUri, HostType, app, dav, Config}
use mathlib.Core.Option
use vestirust.Configuration.Services.Lookup.{or_else, last_with, config_map_lookup}
use vestirust.Configuration.Services.{
  given_host, host_rejected, app_services, dav_services, UriApi, Service,
  from_app_domain_and_http_port, config_map, host_type_from_request,
}
use vestirust.Configuration.{from_file}
use vestirust.Server.Website.{Server}
use vestirust.Server.Build.{loaded, load_config, build}
use vestirust.Main.Domains.{domains, build-domains}
use vestirust.Tests.Storage.{backend_for}
use vestirust.Users.Authorization.{check_authorization, list_services}
use vestirust.Users.Authorization.Laws.{MayUse, check_authorization_iff}
use vestirust.Users.Authorization.Services.{
  allowed, redacted_apps, redacted_davs, list_services_lem,
}

abbrev wiki : App
wiki = record {
  id = 1;
  name = "Wiki";
  icon = "book";
  color = "";
  is_proxy = true;
  host = "wiki";
  forward_to = "localhost:3000";
  secured = true;
  login = "admin";
  password = "hidden";
  openpath = "";
  roles = "USERS" ∷ [];
}

abbrev served_wiki : AppWithUri String String
served_wiki = record {
  inner = wiki;
  app_scheme = http;
  app_authority = "wiki.example.com:8080";
  forward_uri = "localhost:3000";
  forward_scheme = http;
  forward_authority = "localhost:3000";
  forward_host = "localhost:3000";
}

abbrev files : Dav
files = record {
  id = 1;
  host = "files";
  directory = "/srv/files";
  writable = true;
  name = "Files";
  icon = "folder";
  color = "";
  secured = true;
  allow_symlinks = false;
  roles = "ADMINS" ∷ [];
  passphrase = "secret";
  key = none;
}

abbrev bob : User
bob = record { login = "bob"; password = ""; roles = "GUESTS" ∷ "USERS" ∷ [] }

check_authorization_iff_example :
    ((check_authorization (app served_wiki) (some bob) ≡ none)
      ↔ MayUse (app served_wiki) (some bob))
    × ((check_authorization (app served_wiki) (some bob) ≡ none)
        ⊎ (check_authorization (app served_wiki) (some bob) ≡ some StatusCode.forbidden))
check_authorization_iff_example = check_authorization_iff (app served_wiki) (some bob)

-- of both services, the user is let through to one
abbrev services : List (HostType String String)
services = dav files ∷ app served_wiki ∷ []

list_services_lem_example :
    list_services services bob
    ≡ (redacted_apps (allowed bob services), redacted_davs (allowed bob services))
list_services_lem_example = list_services_lem services bob

-- Every text is an authority, and an URI with that authority.
abbrev pub uris : UriApi String String
uris = record {
  parse_authority = λ text. some text;
  parse_uri = λ text. some text;
  uri_authority = λ uri. some uri;
  authority_host = λ authority. authority;
  root_uri = λ scheme authority. some authority;
}

abbrev pub sha256 : String → List ℕ
sha256 passphrase = 1 ∷ 2 ∷ 3 ∷ []

abbrev config : Config
config = record {
  hostname = "example.com";
  debug_mode = false;
  http_port = 8080;
  auto_tls = false;
  letsencrypt_email = "";
  apps = wiki ∷ [];
  davs = files ∷ [];
  users = [];
}

abbrev apps : List (Service String String)
apps = ("wiki.example.com", app served_wiki) ∷ []

abbrev davs : List (Service String String)
davs = ("files.example.com", dav (record files { key = some (1 ∷ 2 ∷ 3 ∷ []) })) ∷ []

map_loaded : config_map uris sha256 config ≡ some (apps ++ davs)
unfolding config_map from_app_domain_and_http_port replace_or_push Texts.concat Texts.decimal
map_loaded = refl

apps_loaded : app_services uris sha256 config config.apps ≡ some apps
unfolding app_services from_app_domain_and_http_port Texts.concat Texts.decimal
apps_loaded = refl

config_map_lookup_example :
    host_type_from_request (apps ++ davs) (given_host "files.example.com")
    ≡ ok_or
        (Option.map
          (λ s. s.1)
          (or_else
            (last_with "files.example.com" (dav_services uris sha256 config config.davs))
            (last_with "files.example.com" apps)))
        (host_rejected StatusCode.not_found)
config_map_lookup_example =
    config_map_lookup uris sha256 config apps (apps ++ davs) "files.example.com" apps_loaded
      map_loaded

abbrev server : Server Bool String String
server = record {
  config_file = "vestibule.yaml";
  key = true;
  config_map = apps ++ davs;
  port = 8080;
}

builds :
    build (backend_for config config) uris sha256 "vestibule.yaml" true (some "before")
    ≡ loaded server
unfolding build load_config from_file
builds = rw map_loaded refl

build-domains_example :
    (c : Config) × (from_file (backend_for config config) (some "before") "vestibule.yaml" ≡ some c)
    × (server.port ≡ c.http_port)
    × (hosts : List String) × (domains c ≡ c.hostname ∷ hosts)
    × (((service : HostType String String) × (host_type_from_request server.config_map
              (given_host "files.example.com")
            ≡ ok service))
        ↔ In "files.example.com" hosts)
build-domains_example =
    build-domains (backend_for config config) uris sha256 "vestibule.yaml" true (some "before")
      server "files.example.com" builds
