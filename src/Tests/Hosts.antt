-- ===== src/Tests/Hosts.antt =====
-- Runs of the theorems on the router and on the proxy, for an app on the host "wiki.example.com".
use vestirust.Prelude.{
  Bool, ℕ, true, false, none, some, String, List, [], ◌∷◌, ◌≡◌, ◌⊎◌, refl, find,
}
use vestirust.Model.{secured, User, http, https, AppWithUri, app}
use vestirust.Users.Authorization.Laws.{MayUse}
use vestirust.Configuration.Services.{given_host, Service, host_type_from_request}
use vestirust.Apps.Proxy.{Parts, HttpApi, HttpRequest, HttpResponse}
use vestirust.Davs.Webdav.Dispatch.{Method}
use vestirust.Davs.Webdav.SendFile.Whole.{no_conditions}
use vestirust.Server.Routing.{Parties, route}
use vestirust.Server.Routing.Guard.{forbidden_reply, route-MayUse}
use vestirust.Configuration.Interface.{Backend}
use vestirust.Server.Website.{Server}
use vestirust.Server.Build.{Surroundings, handle}
use vestirust.Server.Build.Strangers.{handle-nobody}
use vestirust.Tests.Website
use vestirust.Tests.Cipher.{counting_cipher, reads_all}
use vestirust.Tests.Files.{OneFile, one_file, libraries, texts, chance}

-- An URI is its parts, of which the text shows the authority and the path.
abbrev SmallUri : Type 0
SmallUri = Parts String String

abbrev wiki_page : SmallUri
wiki_page = record {
  scheme = some http;
  authority = some "wiki.local";
  path_and_query = some "/page";
}

abbrev small_api : HttpApi String SmallUri String String
small_api = record {
  parse_uri = λ text. some wiki_page;
  uri_text = λ uri. "https://wiki.example.com/page";
  uri_host = λ uri. uri.authority;
  into_parts = λ uri. uri;
  from_parts = λ parts. some parts;
  parse_authority = λ text. some text;
  authority_text = λ authority. authority;
  authority_port = λ authority. none;
  value_text = λ value. some value;
  value_from = λ text. some text;
}

abbrev served_wiki : AppWithUri String SmallUri
served_wiki = record {
  inner = record {
    id = 1;
    name = "Wiki";
    icon = "";
    color = "";
    is_proxy = true;
    host = "wiki";
    forward_to = "wiki.local";
    secured = true;
    login = "";
    password = "";
    openpath = "";
    roles = "USERS" ∷ [];
  };
  app_scheme = https;
  app_authority = "wiki.example.com";
  forward_uri = wiki_page;
  forward_scheme = http;
  forward_authority = "wiki.local";
  forward_host = "wiki.local";
}

abbrev redirect : HttpResponse String
redirect = record {
  status = 302;
  message = record {
    headers =
        ("location", "http://wiki.local/page") ∷ ("server", "wiki") ∷ ("location", "/other") ∷ [];
    body = [];
  };
}

abbrev eve : User
eve = record { login = "eve"; password = ""; roles = "GUESTS" ∷ [] }

abbrev parties : Parties String SmallUri String String ℕ OneFile
parties = record {
  http_api = small_api;
  client = λ address req w. (w, some redirect);
  website = λ req w. (w, 1);
  fs = one_file;
  user = λ req. some eve;
  host = λ req. given_host "wiki.example.com";
  read = λ req. record {
    method = Method.get;
    path = "/page";
    query = none;
    conditions = no_conditions;
    depth = [];
    overwrite = [];
    destination = none;
    body = record { bytes = []; fails = false };
  };
}

abbrev services : List (Service String SmallUri)
services = ("wiki.example.com", app served_wiki) ∷ []

abbrev request : HttpRequest SmallUri String
request = record { method = "GET"; uri = wiki_page; message = record { headers = []; body = [] } }

route-MayUse_example :
    (route counting_cipher reads_all texts libraries 0 chance parties services request none
      ≡ (none, forbidden_reply (app served_wiki)))
    ⊎ MayUse (app served_wiki) (some eve)
unfolding host_type_from_request find
route-MayUse_example =
    route-MayUse counting_cipher reads_all texts libraries 0 chance parties services request
      (app served_wiki) none refl

-- No file holds a configuration.
abbrev no_backend : Backend OneFile
no_backend = record {
  read_to_string = λ w filepath. none;
  write = λ w filepath contents. (w, false);
  to_yaml = λ c. none;
  from_yaml = λ text. none;
  users_to_json = λ users. none;
  apps_to_json = λ apps. none;
  davs_to_json = λ davs. none;
  user_to_json = λ user. none;
  user_from_json = λ text. none;
  argon2_hash = λ password salt. none;
  argon2_verify = λ hash password. none;
}

abbrev around : Surroundings String SmallUri String String OneFile
around = record {
  http_api = small_api;
  client = parties.client;
  fs = one_file;
  host = parties.host;
  read = parties.read;
  web = λ req. Website.request "GET" "/reload" none;
}

abbrev server : Server Bool String SmallUri
server = record { config_file = ""; key = true; config_map = services; port = 8080 }

handle-nobody_example :
    ((handle no_backend Website.web_api around 1 "salt" server counting_cipher reads_all texts
        libraries 0 chance request none).0
      ≡ none)
    × ((handle no_backend Website.web_api around 1 "salt" server counting_cipher reads_all texts
          libraries 0 chance request none).1
        ≡ forbidden_reply (app served_wiki))
unfolding host_type_from_request find secured
handle-nobody_example =
    handle-nobody no_backend Website.web_api around 1 "salt" server request none refl
      counting_cipher reads_all texts libraries 0 chance refl
