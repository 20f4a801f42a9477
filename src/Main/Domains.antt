-- ===== src/Main/Domains.antt =====
-- src/main.rs: the domains that the loop with TLS wants certificates for, and the server that it
-- builds from the same file.
use vestirust.Prelude.{ℕ, some, String, List, ◌∷◌, ◌++◌, ◌≡◌, ◌↔◌, refl, ok, In}
use vestirust.Model.{HostType, Config}
use vestirust.Configuration.{from_file}
use vestirust.Configuration.Interface.{Backend}
use vestirust.Configuration.Services.{given_host, UriApi, host_type_from_request}
use vestirust.Configuration.Services.Hosts.{app_hosts, dav_hosts, host_type_from_request_iff}
use vestirust.Server.Website.{Server}
use vestirust.Server.Build.{loaded, build}
use vestirust.Server.Build.Read.{built_from}

-- `domains`, with the host name itself inserted in front
unfoldable pub domains : Config → List String
domains config = config.hostname ∷ (app_hosts config config.apps ++ dav_hosts config config.davs)

module _ {World : Type 0} (backend : Backend World) {Authority Uri : Type 0}
    (uris : UriApi Authority Uri) (sha256 : String → List ℕ) where
  -- A server that was built from a file listens on the file's port, and a host name leads to one of
  -- its services exactly if it is one of the domains of the file's configuration behind the first,
  -- which is the host name of the configuration itself.
  pub build-domains :
      {Key : Type 0} (config_file : String) (key : Key) (w : World)
      (server : Server Key Authority Uri) (host : String)
      → build backend uris sha256 config_file key w ≡ loaded server
      → (config : Config) × (from_file backend w config_file ≡ some config)
        × (server.port ≡ config.http_port)
        × (hosts : List String) × (domains config ≡ config.hostname ∷ hosts)
        × (((service : HostType Authority Uri) × (host_type_from_request server.config_map
                  (given_host host)
                ≡ ok service))
            ↔ In host hosts)
  unfolding domains
  build-domains config_file key w server host h =
      let (config, read, services, port) =
        built_from backend uris sha256 config_file key w server h in
      (
        config,
        read,
        port,
        _,
        refl,
        host_type_from_request_iff uris sha256 config server.config_map host services,
      )
