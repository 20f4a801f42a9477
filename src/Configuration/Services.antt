-- ===== src/Configuration/Services.antt =====
-- src/configuration.rs and src/apps.rs: the map from host names to services.
pub mod Lookup
pub mod Hosts
pub mod Davs
pub mod Panics
use text.Mathlib.Text.{starts_with}
use mathlib.Core.Option
use vestirust.Prelude.{
  ℕ, Bool, true, false, Option, none, some, String, List, [], ◌∷◌, ◌++◌, map, Result, ok, err,
  ok_or, str_eq, eq_iff, if◌then◌else◌,
}
use vestirust.Prelude.Tables.{Keyed, find_key, replace_or_push}
use vestirust.Prelude.Texts.{concat, decimal}
use vestirust.Model.{
  StatusCode, App, Dav, Scheme, http, https, AppWithUri, HostType, app, dav, Config,
}

-- What the program uses of the crate `http`: parsing, the parts of an `Uri` and of an `Authority`,
-- and `Uri::from_parts` with the path "/".
pub record UriApi (Authority Uri : Type 0) : Type 0 where
  pub parse_authority : String → Option Authority
  pub parse_uri : String → Option Uri
  pub uri_authority : Uri → Option Authority
  pub authority_host : Authority → String
  pub root_uri : Scheme → Authority → Option Uri

infixl 5 ◌>>=◌
abbrev ◌>>=◌ : {A B : Type 0} → Option A → (A → Option B) → Option B
none >>= k = none
some a >>= k = k a

-- The host name under which a service is reached.
abbrev pub service_host : String → String → String
service_host host hostname = concat (host ∷ "." ∷ hostname ∷ [])

-- A host name and its service.
abbrev pub Service : Type 0 → Type 0 → Type 0
Service Authority Uri = String × HostType Authority Uri

-- The header "Host" of a request, as its extractor finds it: there is none, there is one that it cannot
-- read, or there is a host name.
pub data HostHeader : Type 0 where
  no_host malformed_host : HostHeader
  given_host : String → HostHeader

-- How `HostType::from_request` fails.
pub data HostFault : Type 0 where
  host_rejected : StatusCode → HostFault
  host_panicked : HostFault

module _ {Authority Uri : Type 0} where
  abbrev pub by_host : Keyed (Service Authority Uri) String
  by_host = record { key = λ s. s.0; beq = str_eq; beq_iff = eq_iff }

  -- `collect` into a `HashMap`: one insertion after another
  collect_map :
      List (Service Authority Uri) → List (Service Authority Uri) → List (Service Authority Uri)
  collect_map entries [] = entries
  collect_map entries (s ∷ rest) = collect_map (replace_or_push by_host s entries) rest

  -- `HostType::from_request`
  unfoldable pub host_type_from_request :
      List (Service Authority Uri) → HostHeader → Result HostFault (HostType Authority Uri)
  host_type_from_request services no_host = err (host_rejected StatusCode.not_found)
  host_type_from_request services malformed_host = err host_panicked
  host_type_from_request services (given_host host) =
      ok_or (Option.map (λ s. s.1) (find_key by_host host services))
        (host_rejected StatusCode.not_found)

module _ {Authority Uri : Type 0} (uris : UriApi Authority Uri) (sha256 : String → List ℕ) where
  app_authority_text : App → String → Option ℕ → String
  app_authority_text inner domain none = service_host inner.host domain
  app_authority_text inner domain (some port) =
      concat (inner.host ∷ "." ∷ domain ∷ ":" ∷ decimal port ∷ [])

  app_scheme_for : Option ℕ → Scheme
  app_scheme_for none = https
  app_scheme_for (some port) = http

  -- `AppWithUri::from_app_domain_and_http_port`; `none` is a panic
  unfoldable pub from_app_domain_and_http_port :
      App → String → Option ℕ → Option (AppWithUri Authority Uri)
  unfolding app_authority_text app_scheme_for
  from_app_domain_and_http_port inner domain port = do
    app_authority ← uris.parse_authority (app_authority_text inner domain port)
    let forward_scheme = if starts_with inner.forward_to "https://" then https else http
    forward_uri ← uris.parse_uri inner.forward_to
    forward_authority ← uris.uri_authority forward_uri
    root ← uris.root_uri forward_scheme forward_authority
    some (record {
      inner = inner;
      app_scheme = app_scheme_for port;
      app_authority = app_authority;
      forward_uri = root;
      forward_scheme = forward_scheme;
      forward_authority = forward_authority;
      forward_host = uris.authority_host forward_authority;
    })

  unfoldable pub app_services : Config → List App → Option (List (Service Authority Uri))
  app_services config [] = some []
  app_services config (a ∷ rest) = do
    target ←
        from_app_domain_and_http_port a config.hostname
          (if config.auto_tls then none else some config.http_port)
    services ← app_services config rest
    some ((service_host a.host config.hostname, app target) ∷ services)

  -- The key of a dav is the hash of its passphrase, where it has one.
  unfoldable pub with_key : Dav → Dav
  with_key d = if str_eq d.passphrase "" then d else record d { key = some (sha256 d.passphrase) }

  pub dav_services : Config → List Dav → List (Service Authority Uri)
  unfolding with_key
  dav_services config [] = []
  dav_services config (d ∷ rest) =
      (service_host d.host config.hostname, dav (with_key d)) ∷ dav_services config rest

  -- the map that `load_config` returns
  unfoldable pub config_map : Config → Option (List (Service Authority Uri))
  unfolding app_services dav_services collect_map
  config_map config = do
    apps ← app_services config config.apps
    some (collect_map [] (apps ++ dav_services config config.davs))
