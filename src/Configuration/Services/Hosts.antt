-- ===== src/Configuration/Services/Hosts.antt =====
-- Which host names have a service.
use mathlib.Core.Option
use vestirust.Prelude.{
  ℕ, Option, none, some, String, List, [], ◌∷◌, ◌++◌, map, ◌≡◌, refl, ap, ◌∙◌, ◌↔◌, ◌⊎◌, inl, inr,
  ok, ok_or, In, Bool-cases, Option-cases, str_eq, eq_iff, if◌then◌else◌, sym,
}
use vestirust.Model.{StatusCode, App, Dav, HostType, app, Config}
use vestirust.Configuration.Services.{
  given_host, host_rejected, ◌>>=◌, UriApi, Service, service_host, from_app_domain_and_http_port,
  app_services, dav_services, config_map, host_type_from_request,
}
use vestirust.Configuration.Services.Lookup.{or_else, last_with, config_map_lookup}

abbrev pub IsSome : {A : Type 0} → Option A → Type 0
IsSome {A} o = (a : A) × (o ≡ some a)

In-append : (host : String) (xs ys : List String) → In host (xs ++ ys) ↔ (In host xs ⊎ In host ys)
In-append host [] ys = (λ h. inr h, λ h. elim h [ inl e ↦ absurd e | inr e ↦ e ])
In-append host (x ∷ xs) ys = (
  λ h. elim h [
    | inl e ↦ inl (inl e)
    | inr e ↦ elim ((In-append host xs ys).0 e) [ inl p ↦ inl (inr p) | inr p ↦ inr p ]
  ],
  λ h. elim h [
    | inl p ↦ elim p [ inl e ↦ inl e | inr e ↦ inr ((In-append host xs ys).1 (inl e)) ]
    | inr p ↦ inr ((In-append host xs ys).1 (inr p))
  ],
)

module _ {Authority Uri : Type 0} where
  abbrev pub hosts : List (Service Authority Uri) → List String
  hosts l = map (λ s. s.0) l

  pub last_with-some :
      (host : String) (l : List (Service Authority Uri))
      → IsSome (last_with host l)
      → In host (hosts l)
  last_with-some host [] (a, e) = cc
  last_with-some host (s ∷ rest) (a, e) = elim (Option-cases (last_with host rest)) [
    | inr (later, l) ↦ inr (last_with-some host rest (later, l))
    | inl missing ↦ elim (Bool-cases (str_eq s.0 host)) [
      | inl same ↦ inl ((eq_iff s.0 host).0 same)
      | inr other ↦ cc (rw (missing, last_with, other) at e)
    ]
  ]

  pub IsSome-last_with :
      (host : String) (l : List (Service Authority Uri))
      → In host (hosts l)
      → IsSome (last_with host l)
  IsSome-last_with host [] h = absurd h
  IsSome-last_with host (s ∷ rest) (inr h) =
      let (later, e) = IsSome-last_with host rest h in (later, rw (e, last_with) refl)
  IsSome-last_with host (s ∷ rest) (inl h) = elim (Option-cases (last_with host rest)) [
    | inr (later, e) ↦ (later, rw (e, last_with) refl)
    | inl missing ↦ (s, rw (missing, last_with, (eq_iff s.0 host).1 h) refl)
  ]

  -- A host name that has a service in one of two lists.
  found_in_either :
      (o p : Option (Service Authority Uri)) (service : HostType Authority Uri)
      → ok_or (Option.map (λ s. s.1) (or_else o p)) (host_rejected StatusCode.not_found)
        ≡ ok service
      → IsSome o ⊎ IsSome p
  found_in_either (some s) p service h = inl (s, refl)
  found_in_either none (some s) service h = inr (s, refl)
  found_in_either none none service h = cc

  either_found :
      (o p : Option (Service Authority Uri))
      → IsSome o ⊎ IsSome p
      → (service : HostType Authority Uri) × (ok_or
            (Option.map (λ s. s.1) (or_else o p))
            (host_rejected StatusCode.not_found)
          ≡ ok service)
  either_found (some s) p h = (s.1, refl)
  either_found none (some s) h = (s.1, refl)
  either_found none none (inl (s, e)) = cc
  either_found none none (inr (s, e)) = cc

pub >>=-eq-some :
    {A B : Type 0} (o : Option A) (f : A → Option B) {b : B}
    → (o >>= f) ≡ some b
    → (a : A) × (o ≡ some a) × (f a ≡ some b)
>>=-eq-some none f h = cc
>>=-eq-some (some a) f h = (a, refl, h)

-- The host names of the apps and of the davs of a configuration.
abbrev pub app_hosts : Config → List App → List String
app_hosts config apps = map (λ a. service_host a.host config.hostname) apps

abbrev pub dav_hosts : Config → List Dav → List String
dav_hosts config davs = map (λ d. service_host d.host config.hostname) davs

module _ {Authority Uri : Type 0} (uris : UriApi Authority Uri) (sha256 : String → List ℕ)
    (config : Config) where
  hosts-app_services :
      (l : List App) (services : List (Service Authority Uri))
      → app_services uris sha256 config l ≡ some services
      → hosts services ≡ app_hosts config l
  unfolding app_services
  hosts-app_services [] services h = cc (ap hosts_of h)
    where
      hosts_of : Option (List (Service Authority Uri)) → List String
      hosts_of none = []
      hosts_of (some l) = hosts l
  hosts-app_services (a ∷ rest) services h =
      let (target, e, h1) =
        >>=-eq-some
          (from_app_domain_and_http_port uris sha256 a config.hostname
            (if config.auto_tls then none else some config.http_port))
          _ h in
      let (others, l, h2) = >>=-eq-some (app_services uris sha256 config rest) _ h1 in
      let same : (service_host a.host config.hostname, app target) ∷ others ≡ services = cc in
      rw (← same)
        (ap (λ t. service_host a.host config.hostname ∷ t) (hosts-app_services rest others l))

  pub hosts-dav_services :
      (l : List Dav) → hosts (dav_services uris sha256 config l) ≡ dav_hosts config l
  unfolding dav_services
  hosts-dav_services [] = refl
  hosts-dav_services (d ∷ rest) =
      ap (λ t. service_host d.host config.hostname ∷ t) (hosts-dav_services rest)

  -- A host name has a service exactly if it is that of an app or of a dav.
  pub host_type_from_request_iff :
      (services : List (Service Authority Uri)) (host : String)
      → config_map uris sha256 config ≡ some services
      → ((service : HostType Authority Uri) × (host_type_from_request services (given_host host)
            ≡ ok service))
        ↔ In host (app_hosts config config.apps ++ dav_hosts config config.davs)
  unfolding config_map
  host_type_from_request_iff services host h =
      let (apps, a, h1) = >>=-eq-some (app_services uris sha256 config config.apps) _ h in
      let davs : List (Service Authority Uri) = dav_services uris sha256 config config.davs in
      let looked = config_map_lookup uris sha256 config apps services host a h in
      let app_names = hosts-app_services config.apps apps a in
      let dav_names = hosts-dav_services config.davs in
      let either = In-append host (app_hosts config config.apps) (dav_hosts config config.davs) in
      (
        λ (service, e). either.1 (elim (found_in_either _ _ service (sym looked ∙ e)) [
          | inl p ↦ inr (rw (← dav_names) (last_with-some host davs p))
          | inr p ↦ inl (rw (← app_names) (last_with-some host apps p))
        ]),
        λ m. rw looked (
            either_found (last_with host davs) (last_with host apps) (elim (either.0 m) [
              | inl p ↦ inr (IsSome-last_with host apps (rw app_names p))
              | inr p ↦ inl (IsSome-last_with host davs (rw dav_names p))
            ])),
      )
