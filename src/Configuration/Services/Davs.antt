-- ===== src/Configuration/Services/Davs.antt =====
-- Which dav a host name leads to.
use mathlib.Core.Option
use vestirust.Prelude.{
  ℕ, Option, none, some, String, List, [], ◌∷◌, ◌≡◌, ◌⊎◌, All, refl, ap, ◌∙◌, sym, inl, inr, ok,
  ok_or, In, Bool-cases, Option-cases, str_eq, eq_iff, if◌then◌else◌,
}
use vestirust.Model.{StatusCode, App, AppWithUri, Dav, HostType, app, dav, Config}
use vestirust.Configuration.Services.{
  given_host, host_rejected, UriApi, Service, service_host, from_app_domain_and_http_port,
  app_services, dav_services, with_key, config_map, host_type_from_request,
}
use vestirust.Configuration.Services.Hosts.{
  IsSome-last_with, hosts-dav_services, dav_hosts, >>=-eq-some,
}
use vestirust.Configuration.Services.Lookup.{or_else, last_with, config_map_lookup}

last_with-cons :
    {Authority Uri : Type 0} (host : String) (s t : Service Authority Uri)
    (rest : List (Service Authority Uri))
    → last_with host (s ∷ rest) ≡ some t
    → (last_with host rest ≡ some t) ⊎ ((s.0 ≡ host) × (t ≡ s))
last_with-cons host s t rest h = elim (Option-cases (last_with host rest)) [
  | inr (later, e) ↦ inl (e ∙ (rw (e, last_with) at h))
  | inl missing ↦ elim (Bool-cases (str_eq s.0 host)) [
    | inl same ↦ inr ((eq_iff s.0 host).0 same, cc (rw (missing, last_with, same) at h))
    | inr other ↦ cc (rw (missing, last_with, other) at h)
  ]
]

last_with-All :
    {Authority Uri : Type 0} (P : Service Authority Uri → Type 0) (host : String)
    (l : List (Service Authority Uri)) (t : Service Authority Uri)
    → All P l
    → last_with host l ≡ some t
    → P t
last_with-All P host [] t all h = cc
last_with-All P host (s ∷ rest) t (p, all) h = elim (last_with-cons host s t rest h) [
  | inl later ↦ last_with-All P host rest t all later
  | inr (same, is) ↦ rw is p
]

either_is :
    {Authority Uri : Type 0} (o p : Option (Service Authority Uri))
    (service : HostType Authority Uri)
    → ok_or (Option.map (λ s. s.1) (or_else o p)) (host_rejected StatusCode.not_found) ≡ ok service
    → ((s : Service Authority Uri) × (o ≡ some s) × (s.1 ≡ service))
      ⊎ ((s : Service Authority Uri) × (p ≡ some s) × (s.1 ≡ service))
either_is (some s) p service h = inl (s, refl, cc)
either_is none (some s) service h = inr (s, refl, cc)
either_is none none service h = cc

module _ {Authority Uri : Type 0} (uris : UriApi Authority Uri) (sha256 : String → List ℕ)
    (config : Config) where
  abbrev host_of : Dav → String
  host_of d = service_host d.host config.hostname

  abbrev served : Dav → Service Authority Uri
  served d = (host_of d, dav (with_key uris sha256 d))

  -- The service that is found among the davs is that of a dav with the host name.
  last_with-dav :
      (host : String) (l : List Dav) (s : Service Authority Uri)
      → last_with host (dav_services uris sha256 config l) ≡ some s
      → (d : Dav) × In d l × (host_of d ≡ host) × (s ≡ served d)
  unfolding dav_services
  last_with-dav host [] s h = cc
  last_with-dav host (d ∷ rest) s h =
      elim (last_with-cons host (served d) s (dav_services uris sha256 config rest) h) [
        | inl later ↦
            let (found, member, same, is) = last_with-dav host rest s later in
            (found, inr member, same, is)
        | inr (same, is) ↦ (d, inl refl, same, is)
      ]

  abbrev IsApp : Service Authority Uri → Type 0
  IsApp s = (target : AppWithUri Authority Uri) × (s.1 ≡ app target)

  not_both : (s : Service Authority Uri) (d : Dav) → IsApp s → s.1 ≡ dav d → ⊥
  not_both s d (target, e) h = cc

  dav_of_served :
      (d found : Dav) (s : Service Authority Uri)
      → s.1 ≡ dav d
      → s ≡ served found
      → d ≡ with_key uris sha256 found
  dav_of_served d found s h is =
      let one : s.1 ≡ dav (with_key uris sha256 found) =
        ap (λ (t : Service Authority Uri). t.1) is in
      cc

  app_services-IsApp :
      (l : List App) (services : List (Service Authority Uri))
      → app_services uris sha256 config l ≡ some services
      → All IsApp services
  unfolding app_services
  app_services-IsApp [] services h = let same : [] ≡ services = cc in rw (← same) tt
  app_services-IsApp (a ∷ rest) services h =
      let (target, e, h1) =
        >>=-eq-some
          (from_app_domain_and_http_port uris sha256 a config.hostname
            (if config.auto_tls then none else some config.http_port))
          _ h in
      let (others, l, h2) = >>=-eq-some (app_services uris sha256 config rest) _ h1 in
      let same : (service_host a.host config.hostname, app target) ∷ others ≡ services = cc in
      rw (← same) ((target, refl), app_services-IsApp rest others l)

  In-dav_hosts : (d : Dav) (l : List Dav) → In d l → In (host_of d) (dav_hosts config l)
  In-dav_hosts d [] m = absurd m
  In-dav_hosts d (x ∷ l) (inl e) = inl (ap host_of e)
  In-dav_hosts d (x ∷ l) (inr m) = inr (In-dav_hosts d l m)

  -- The only dav with a host name is found under it.
  last_with-only :
      (d : Dav) (l : List Dav)
      → In d l
      → ((e : Dav) → In e l → host_of e ≡ host_of d → e ≡ d)
      → last_with (host_of d) (dav_services uris sha256 config l) ≡ some (served d)
  last_with-only d l m only =
      let (s, e) =
        IsSome-last_with (host_of d) (dav_services uris sha256 config l)
          (rw (hosts-dav_services uris sha256 config l) (In-dav_hosts d l m)) in
      let (found, member, same, is) = last_with-dav (host_of d) l s e in
      e ∙ ap some (is ∙ ap served (only found member same))

  module _ (services : List (Service Authority Uri))
      (h : config_map uris sha256 config ≡ some services) where
    apps_served :
        (apps : List (Service Authority Uri)) × (app_services uris sha256 config config.apps
          ≡ some apps)
    unfolding config_map
    apps_served =
        let (apps, a, h1) = >>=-eq-some (app_services uris sha256 config config.apps) _ h in
        (apps, a)

    -- The only dav with a host name is reached under it.
    pub host_type_from_request-only :
        (d : Dav)
        → In d config.davs
        → ((e : Dav) → In e config.davs → host_of e ≡ host_of d → e ≡ d)
        → host_type_from_request services (given_host (host_of d))
          ≡ ok (dav (with_key uris sha256 d))
    host_type_from_request-only d m only =
        let (apps, a) = apps_served in
        config_map_lookup uris sha256 config apps services (host_of d) a h
        ∙ rw (last_with-only d config.davs m only) refl

    -- A dav that is reached under a host name is one of the configuration's, which has that name.
    pub host_type_from_request-dav :
        (host : String) (d : Dav)
        → host_type_from_request services (given_host host) ≡ ok (dav d)
        → (e : Dav) × In e config.davs × (host_of e ≡ host) × (d ≡ with_key uris sha256 e)
    host_type_from_request-dav host d r =
        let (apps, a) = apps_served in
        let looked = sym (config_map_lookup uris sha256 config apps services host a h) ∙ r in
        elim (either_is (last_with host (dav_services uris sha256 config config.davs))
          (last_with host apps) (dav d) looked) [
            | inl (s, e, is_dav) ↦
                let (found, member, same, is) = last_with-dav host config.davs s e in
                (found, member, same, dav_of_served d found s is_dav is)
            | inr (s, e, is_dav) ↦ absurd (
                not_both s d
                  (last_with-All IsApp host apps s (app_services-IsApp config.apps apps a) e)
                  is_dav)
          ]
