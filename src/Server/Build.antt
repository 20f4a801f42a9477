-- ===== src/Server/Build.antt =====
-- src/server.rs and src/configuration.rs: `load_config`, `Server::build`, and what the router that it
-- builds does with a request, for a service or for the website.
pub mod Strangers
pub mod Read
pub mod Reload
use vestirust.Prelude.{ℕ, Option, none, some, String, List, Result, ok, err}
use vestirust.Model.{StatusCode, User, Config}
use vestirust.Configuration.{from_file}
use vestirust.Configuration.Interface.{Backend}
use vestirust.Configuration.Services.{HostHeader, UriApi, Service, config_map}
use vestirust.Users.Accounts.{user_from_request}
use vestirust.Apps.Proxy.{HttpApi, HttpRequest, HttpResponse}
use vestirust.Davs.EncryptedStreamer.Cipher.{StreamCipher}
use vestirust.Davs.Streamer.{ReadSize}
use vestirust.Davs.Webdav.FileSystem.{FileSystem}
use vestirust.Davs.Webdav.PathItem.{Libraries}
use vestirust.Davs.Webdav.Upload.{Chance}
use vestirust.Davs.Webdav.SendFile.{Texts}
use vestirust.Davs.Webdav.Dispatch.{Request}
use vestirust.Server.Website.{WebRequest, WebApi, WebReply, Server, cookie_value, website}
use vestirust.Server.Routing.{Reply, Parties, route}

-- The file cannot be read or decoded, or the parts of an app's URI cannot be parsed.
pub data Loaded (A : Type 0) : Type 0 where
  loaded : A → Loaded A
  load_failed load_panicked : Loaded A

infixl 5 ◌>>=◌
abbrev pub ◌>>=◌ : {A B : Type 0} → Loaded A → (A → Loaded B) → Loaded B
loaded a >>= f = f a
load_failed >>= f = load_failed
load_panicked >>= f = load_panicked

abbrev or_failed : {A : Type 0} → Option A → Loaded A
or_failed none = load_failed
or_failed (some a) = loaded a

abbrev or_panicked : {A : Type 0} → Option A → Loaded A
or_panicked none = load_panicked
or_panicked (some a) = loaded a

module _ {World : Type 0} (backend : Backend World) {Authority Uri : Type 0}
    (uris : UriApi Authority Uri) (sha256 : String → List ℕ) where
  unfoldable pub load_config : String → World → Loaded (Config × List (Service Authority Uri))
  load_config config_file w = do
    config ← or_failed (from_file backend w config_file)
    services ← or_panicked (config_map uris sha256 config)
    loaded (config, services)

  -- `Server::build`, with the key that it generates
  unfoldable pub build : {Key : Type 0} → String → Key → World → Loaded (Server Key Authority Uri)
  unfolding load_config
  build config_file key w = do
    (config, services) ← load_config config_file w
    loaded (record {
      config_file = config_file;
      key = key;
      config_map = services;
      port = config.http_port;
    })

-- What a request meets besides the server: the client of the proxy, the files, and how its header
-- `Host` and its parts are read.
pub record Surroundings (Authority Uri Query Value World : Type 0) : Type 0 where
  pub http_api : HttpApi Authority Uri Query Value
  pub client : String → HttpRequest Uri Value → World → World × Option (HttpResponse Value)
  pub fs : FileSystem World
  pub host : HttpRequest Uri Value → HostHeader
  pub read : HttpRequest Uri Value → Request
  pub web : HttpRequest Uri Value → WebRequest

-- the extractor `Option<User>`
abbrev optional_user : Result StatusCode User → Option User
optional_user (ok user) = some user
optional_user (err status) = none

module _ {World : Type 0} (backend : Backend World) {Key : Type 0} (web_api : WebApi Key)
    {Authority Uri Query Value : Type 0} (around : Surroundings Authority Uri Query Value World)
    (receivers : ℕ) (salt : String) (server : Server Key Authority Uri) where
  -- the handlers behind the router, with the key and the map of the server
  abbrev pub parties_of : Parties Authority Uri Query Value WebReply World
  parties_of = record {
    http_api = around.http_api;
    client = around.client;
    website = λ req w. website backend web_api server receivers salt (around.web req) w;
    fs = around.fs;
    user = λ req.
        optional_user
          (user_from_request backend (cookie_value backend web_api server (around.web req).cookie));
    host = around.host;
    read = around.read;
  }

  -- A request to the built server.
  unfoldable pub handle :
      {Encryptor Decryptor : Type 0}
      → StreamCipher Encryptor Decryptor
      → ReadSize
      → Texts
      → Libraries
      → ℕ
      → Chance
      → HttpRequest Uri Value
      → World
      → World × Reply Value WebReply
  handle cipher read_size texts libraries fuel chance req w =
      route cipher read_size texts libraries fuel chance parties_of server.config_map req w
