-- ===== src/Server/Build/Read.antt =====
-- What a server that was built has read.
use vestirust.Prelude.{ℕ, some, String, List, ◌≡◌, inl, inr, Option-cases}
use vestirust.Configuration.{from_file}
use vestirust.Configuration.Interface.{Backend}
use vestirust.Configuration.Services.{UriApi, config_map}
use vestirust.Model.{Config}
use vestirust.Server.Website.{Server}
use vestirust.Server.Build.{loaded, load_config, build}

module _ {World : Type 0} (backend : Backend World) {Authority Uri : Type 0}
    (uris : UriApi Authority Uri) (sha256 : String → List ℕ) where
  pub built_from :
      {Key : Type 0} (config_file : String) (key : Key) (w : World)
      (server : Server Key Authority Uri)
      → build backend uris sha256 config_file key w ≡ loaded server
      → (config : Config) × (from_file backend w config_file ≡ some config)
        × (config_map uris sha256 config ≡ some server.config_map)
        × (server.port ≡ config.http_port)
  unfolding build load_config
  built_from config_file key w server h = elim (Option-cases (from_file backend w config_file)) [
    | inl e ↦ cc (rw (e, build) at h)
    | inr (config, read) ↦ elim (Option-cases (config_map uris sha256 config)) [
      | inl e ↦ cc (rw (read, build, e) at h)
      | inr (services, e) ↦ let built = rw (read, build, e) at h in (config, read, cc, cc)
    ]
  ]
