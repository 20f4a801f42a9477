-- ===== src/Main/Broken.antt =====
-- What an app that cannot be parsed does to the program.
use vestirust.Prelude.{ℕ, Bool, Option, none, some, String, List, ◌≡◌, refl, ap, ◌∙◌, ok, eq→==}
use vestirust.Prelude.Tables.{find_key}
use vestirust.Prelude.Tables.Members.{find_key-In}
use vestirust.Model.{StatusCode, App, Config}
use vestirust.Configuration.{from_file}
use vestirust.Configuration.Interface.{Backend, IsStorage}
use vestirust.Configuration.Services.{UriApi, from_app_domain_and_http_port, config_map}
use vestirust.Configuration.Services.Panics.{app_port, config_map-none}
use vestirust.Apps.{by_id}
use vestirust.Server.Admin.{AdminRequest, admin_router}
use vestirust.Server.Admin.Keys.{HasUniqueKeys}
use vestirust.Server.Admin.Promises.{admin_router-Keeps}
use vestirust.Server.Build.{load_panicked, load_config, build}
use vestirust.Main.{Built, Round, Event}
use vestirust.Main.Entry.{panicked, main}

module _ {World : Type 0} {backend : Backend World} (storage : IsStorage backend)
    (salt config_file : String) {Authority Uri : Type 0} (uris : UriApi Authority Uri)
    (sha256 : String → List ℕ) where
  module _ (config : Config) (w : World) (read : from_file backend w config_file ≡ some config)
      (map : config_map uris sha256 config ≡ none) where
    load_config-panics : load_config backend uris sha256 config_file w ≡ load_panicked
    unfolding load_config
    load_config-panics = rw (read, load_config, map) refl

    build-panics :
        {Key : Type 0} (key : Key) → build backend uris sha256 config_file key w ≡ load_panicked
    unfolding build
    build-panics key = rw (load_config-panics, build) refl

  -- Where the file holds a configuration with unique keys, and the addition of an app whose host name
  -- or target cannot be parsed is answered with a success: after that each build of a server from the
  -- file panics, and so does the program when it is started with the file, whatever happens then.
  pub added-panics :
      {Key Router : Type 0} (before : Config) (cookie : Option String) (payload : App)
      (w w' : World) (r : StatusCode × String) (key : Key) (bind : String → Bool)
      (first : Built Router) (events : List (Event Router)) (rounds : List (Round Router))
      → from_file backend w config_file ≡ some before
      → HasUniqueKeys before
      → from_app_domain_and_http_port uris sha256 payload before.hostname (app_port before) ≡ none
      → admin_router backend salt config_file cookie (AdminRequest.add_app (ok payload)) w
        ≡ (w', ok r)
      → (build backend uris sha256 config_file key w' ≡ load_panicked)
        × (main bind (load_config backend uris sha256 config_file w') first events rounds
            ≡ panicked)
  unfolding main
  added-panics before cookie payload w w' r key bind first events rounds read u panics h =
      let (after, now, promised) =
        admin_router-Keeps storage salt config_file before cookie
          (AdminRequest.add_app (ok payload)) w w' r read u h in
      let found : find_key by_id payload.id after.apps ≡ some payload =
        promised.0 payload.id ∙ rw (eq→== payload.id payload.id refl) refl in
      let hostname : after.hostname ≡ before.hostname =
        ap (λ (c : Config). c.hostname) promised.1 in
      let port : app_port after ≡ app_port before = ap app_port promised.1 in
      let still : from_app_domain_and_http_port uris sha256 payload after.hostname (app_port after)
          ≡ none =
        rw (hostname, port) panics in
      let map =
        config_map-none uris sha256 after payload still
          (find_key-In by_id payload.id payload after.apps found).0 in
      (build-panics after w' now map key, rw (load_config-panics after w' now map) refl)
