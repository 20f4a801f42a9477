-- ===== src/Apps/Proxy/Rewrites.antt =====
-- What becomes of a redirect of the target service.
use vestirust.Prelude.{◌≡◌, some, String, List, [], ◌∷◌, str_eq, if◌then◌else◌}
use vestirust.Prelude.Texts.Contained.{IsIn}
use vestirust.Model.{AppWithUri}
use vestirust.Apps.Proxy.{Parts, HttpApi, HttpResponse}

module _ {Value : Type 0} where
  -- all values of a header
  abbrev pub values_of : String → List (String × Value) → List Value
  values_of name [] = []
  values_of name (header ∷ rest) =
      if str_eq header.0 name then header.1 ∷ values_of name rest else values_of name rest

module _ {Authority Uri Query Value : Type 0} (http_api : HttpApi Authority Uri Query Value)
    (target : AppWithUri Authority Uri) where
  -- the parts of a location of the target service, with the scheme and the authority of the app
  abbrev pub front_parts : Uri → Parts Authority Query
  front_parts location = record (http_api.into_parts location) {
    scheme = some target.app_scheme;
    authority = some target.app_authority;
  }

  -- The location has a host in whose name that of the target service stands.
  abbrev pub IsOwn : Uri → Type 0
  IsOwn location =
      (host : String) × (http_api.uri_host location ≡ some host) × IsIn target.forward_host host

  -- The response with its status and its body, and with one value of the header "location" in place of
  -- all that it had.
  abbrev pub IsRelocated : Value → HttpResponse Value → HttpResponse Value → Type 0
  IsRelocated value response sent =
      (sent.status ≡ response.status)
      × (sent.message.body ≡ response.message.body)
      × ((other : String)
          → values_of other sent.message.headers ≡ (
              if str_eq "location" other
              then value ∷ []
              else values_of other response.message.headers))
