-- ===== src/Tests/Reload.antt =====
-- Runs of the theorems on the servers that are built after a change of the configuration.
use vestirust.Prelude
use vestirust.Prelude.{
  true, none, some, String, List, [], ◌∷◌, ◌≡◌, ◌≢◌, ℕ, Bool, refl, ok, str_eq, ◌==◌, if◌then◌else◌,
  ◌++◌,
}
use vestirust.Prelude.Tables.{replace_or_push, remove_found}
use vestirust.Prelude.Texts
use vestirust.Model.{StatusCode, App, Dav, dav, Config}
use vestirust.Configuration.{from_file}
use vestirust.Configuration.Interface.{without_key}
use vestirust.Configuration.Services.{
  given_host, UriApi, with_key, config_map, host_type_from_request, from_app_domain_and_http_port,
}
use vestirust.Configuration.Services.Panics.{app_port}
use vestirust.Apps.{add_app}
use vestirust.Main.{built_app}
use vestirust.Main.Entry.{panicked, main}
use vestirust.Main.Broken.{added-panics}
use vestirust.Users.Accounts.{admin_from_request}
use vestirust.Davs.Model.{add_dav, delete_dav}
use vestirust.Server.Admin.{AdminRequest, admin_router}
use vestirust.Server.Admin.Keys.{HasUniqueKeys}
use vestirust.Server.Website.{Server}
use vestirust.Server.Build.{loaded, load_panicked, load_config, build}
use vestirust.Server.Build.Reload.{added-reached, deleted-unreached}
use vestirust.Tests.Storage.{backend_for, backend_for-IsStorage, to_file_saved}
use vestirust.Tests.Services.{few, files, wiki, created_app, created_dav}
use vestirust.Tests.Requests.{uris, sha256}

abbrev bare : Config
bare = record few { apps = [] }

abbrev with_files : Config
with_files = record bare { davs = files ∷ [] }

abbrev photos : Dav
photos = record files { id = 2; host = "photos" }

abbrev with_photos : Config
with_photos = record bare { davs = photos ∷ [] }

abbrev with_both : Config
with_both = record bare { davs = files ∷ photos ∷ [] }

-- an app without a target
abbrev broken : App
broken = record wiki { forward_to = "" }

abbrev strict_uris : UriApi String String
strict_uris = record uris { parse_uri = λ text. if str_eq text "" then none else some text }

abbrev with_broken : Config
with_broken = record bare { apps = broken ∷ [] }

bare-HasUniqueKeys : HasUniqueKeys bare
bare-HasUniqueKeys = record { apps = tt; davs = tt; users = tt }

with_both-HasUniqueKeys : HasUniqueKeys with_both
unfolding Prelude.find
with_both-HasUniqueKeys = record { apps = tt; davs = (refl, (refl, tt)); users = tt }

adds_files :
    admin_router
      (backend_for bare with_files)
      "salt"
      "vestibule.yaml"
      (some "ada")
      (AdminRequest.add_dav (ok files))
      (some "before")
    ≡ (some "saved", ok created_dav)
unfolding admin_router from_file admin_from_request add_dav replace_or_push
adds_files = to_file_saved bare with_files "vestibule.yaml" created_dav (some "before")

abbrev deleted_dav : StatusCode × String
deleted_dav = (StatusCode.ok, "dav deleted successfully")

deletes_files :
    admin_router
      (backend_for with_both with_photos)
      "salt"
      "vestibule.yaml"
      (some "ada")
      (AdminRequest.delete_dav (ok 1))
      (some "before")
    ≡ (some "saved", ok deleted_dav)
unfolding admin_router from_file admin_from_request delete_dav remove_found
deletes_files = to_file_saved with_both with_photos "vestibule.yaml" deleted_dav (some "before")

abbrev hashed : Dav → Dav
hashed d = record d { key = some (1 ∷ 2 ∷ 3 ∷ []) }

abbrev server_with : String → Dav → Server Bool String String
server_with host d = record {
  config_file = "vestibule.yaml";
  key = true;
  config_map = (host, dav (hashed d)) ∷ [];
  port = 8080;
}

builds_files :
    build (backend_for bare with_files) uris sha256 "vestibule.yaml" true (some "saved")
    ≡ loaded (server_with "files.example.com" files)
unfolding build load_config from_file config_map replace_or_push Texts.concat
builds_files = refl

builds_photos :
    build (backend_for with_both with_photos) uris sha256 "vestibule.yaml" true (some "saved")
    ≡ loaded (server_with "photos.example.com" photos)
unfolding build load_config from_file config_map replace_or_push Texts.concat
builds_photos = refl

added-reached_example :
    host_type_from_request
      (server_with "files.example.com" files).config_map
      (given_host "files.example.com")
    ≡ ok (dav (with_key uris sha256 (without_key files)))
unfolding from_file Texts.concat
added-reached_example =
    added-reached (backend_for-IsStorage bare with_files) "salt" "vestibule.yaml" uris sha256 bare
      (some "ada") files (some "before") (some "saved") created_dav true
      (server_with "files.example.com" files) refl bare-HasUniqueKeys (λ b m. absurd m) adds_files
      builds_files

reaches_photos :
    host_type_from_request
      (server_with "photos.example.com" photos).config_map
      (given_host "photos.example.com")
    ≡ ok (dav (hashed photos))
unfolding host_type_from_request Prelude.find
reaches_photos = refl

deleted-unreached_example : (hashed photos).id ≢ 1
unfolding from_file
deleted-unreached_example =
    deleted-unreached (backend_for-IsStorage with_both with_photos) "salt" "vestibule.yaml" uris
      sha256 with_both (some "ada") 1 (some "before") (some "saved") deleted_dav true
      (server_with "photos.example.com" photos) "photos.example.com" (hashed photos) refl
      with_both-HasUniqueKeys deletes_files builds_photos reaches_photos

adds_broken :
    admin_router
      (backend_for bare with_broken)
      "salt"
      "vestibule.yaml"
      (some "ada")
      (AdminRequest.add_app (ok broken))
      (some "before")
    ≡ (some "saved", ok created_app)
unfolding admin_router from_file admin_from_request add_app replace_or_push
adds_broken = to_file_saved bare with_broken "vestibule.yaml" created_app (some "before")

cannot_parse :
    from_app_domain_and_http_port strict_uris sha256 broken bare.hostname (app_port bare) ≡ none
unfolding from_app_domain_and_http_port
cannot_parse = refl

added-panics_example :
    (build (backend_for bare with_broken) strict_uris sha256 "vestibule.yaml" true (some "saved")
      ≡ load_panicked)
    × (main {App = ℕ}
          (λ address. true)
          (load_config
            (backend_for bare with_broken)
            strict_uris
            sha256
            "vestibule.yaml"
            (some "saved"))
          (built_app 1)
          []
          []
        ≡ panicked)
unfolding from_file
added-panics_example =
    added-panics (backend_for-IsStorage bare with_broken) "salt" "vestibule.yaml" strict_uris sha256
      bare (some "ada") broken (some "before") (some "saved") created_app true (λ address. true)
      (built_app 1) [] [] refl bare-HasUniqueKeys cannot_parse adds_broken
