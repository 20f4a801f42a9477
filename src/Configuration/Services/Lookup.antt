-- ===== src/Configuration/Services/Lookup.antt =====
-- Which service a host name leads to.
use mathlib.Core.Option
use vestirust.Prelude.{
  ℕ, Option, none, some, String, List, [], ◌∷◌, ◌++◌, ◌≡◌, refl, ap, ◌∙◌, ok_or, str_eq, find,
  if◌then◌else◌, arith,
}
use vestirust.Prelude.Tables.{find_key, replace_or_push, find-replace_or_push}
use vestirust.Model.{StatusCode, Config}
use vestirust.Configuration.Services.{
  given_host, host_rejected, UriApi, Service, by_host, app_services, dav_services, collect_map,
  config_map, host_type_from_request,
}

abbrev pub or_else : {A : Type 0} → Option A → Option A → Option A
or_else none other = other
or_else (some a) other = some a

module _ {Authority Uri : Type 0} where
  -- The last service with a host name.
  abbrev pub last_with : String → List (Service Authority Uri) → Option (Service Authority Uri)
  last_with host [] = none
  last_with host (s ∷ rest) = elim (last_with host rest) [
    | some later ↦ some later
    | none ↦ if str_eq s.0 host then some s else none
  ]

  find-collect_map :
      (host : String) (entries services : List (Service Authority Uri))
      → find_key by_host host (collect_map entries services)
        ≡ or_else (last_with host services) (find_key by_host host entries)
  unfolding collect_map
  find-collect_map host entries [] = refl
  find-collect_map host entries (s ∷ rest) =
      find-collect_map host (replace_or_push by_host s entries) rest
      ∙ ap (or_else (last_with host rest)) (find-replace_or_push by_host host s entries)
      ∙ ground arith

  last_with-append :
      (host : String) (xs ys : List (Service Authority Uri))
      → last_with host (xs ++ ys) ≡ or_else (last_with host ys) (last_with host xs)
  last_with-append host [] ys = ground arith
  last_with-append host (x ∷ xs) ys = rw (last_with-append host xs ys) (ground arith)

module _ {Authority Uri : Type 0} (uris : UriApi Authority Uri) (sha256 : String → List ℕ) where
  -- A host name leads to the last dav that is served under it, or else to the last app, or else
  -- nowhere: the status is 404.
  pub config_map_lookup :
      (config : Config) (apps services : List (Service Authority Uri)) (host : String)
      → app_services uris sha256 config config.apps ≡ some apps
      → config_map uris sha256 config ≡ some services
      → host_type_from_request services (given_host host)
        ≡ ok_or
            (Option.map
              (λ s. s.1)
              (or_else
                (last_with host (dav_services uris sha256 config config.davs))
                (last_with host apps)))
            (host_rejected StatusCode.not_found)
  unfolding host_type_from_request config_map find
  config_map_lookup config apps services host a h =
      let davs : List (Service Authority Uri) = dav_services uris sha256 config config.davs in
      let map_eq : collect_map [] (apps ++ davs) ≡ services = cc (rw (a, config_map) at h) in
      let found : find_key by_host host services
          ≡ or_else (last_with host davs) (last_with host apps) =
        rw (← map_eq) (
          find-collect_map host [] (apps ++ davs)
          ∙ rw (last_with-append host apps davs) (ground arith)) in
      rw (found, host_type_from_request)
