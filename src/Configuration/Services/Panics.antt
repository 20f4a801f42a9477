-- ===== src/Configuration/Services/Panics.antt =====
-- What an app whose parts cannot be parsed does to the map.
use vestirust.Prelude.{
  ℕ, Option, none, some, String, List, [], ◌∷◌, ◌≡◌, refl, inl, inr, In, Option-cases,
  if◌then◌else◌,
}
use vestirust.Model.{App, Config}
use vestirust.Configuration.Services.{
  UriApi, from_app_domain_and_http_port, app_services, config_map,
}

-- The port that an app's address has.
abbrev pub app_port : Config → Option ℕ
app_port config = if config.auto_tls then none else some config.http_port

module _ {Authority Uri : Type 0} (uris : UriApi Authority Uri) (sha256 : String → List ℕ)
    (config : Config) (a : App)
    (panics : from_app_domain_and_http_port uris sha256 a config.hostname (app_port config)
      ≡ none) where
  app_services-none : (l : List App) → In a l → app_services uris sha256 config l ≡ none
  unfolding app_services
  app_services-none [] m = absurd m
  app_services-none (x ∷ l) (inl e) = rw (e, panics) refl
  app_services-none (x ∷ l) (inr m) =
      let rest = app_services-none l m in
      elim (Option-cases
        (from_app_domain_and_http_port uris sha256 x config.hostname (app_port config))) [
          | inl e ↦ rw (e, app_services) refl
          | inr (target, e) ↦ rw (e, app_services, rest) refl
        ]

  pub config_map-none : In a config.apps → config_map uris sha256 config ≡ none
  unfolding config_map
  config_map-none m = rw (app_services-none config.apps m, config_map) refl
