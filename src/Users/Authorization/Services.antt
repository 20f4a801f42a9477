-- ===== src/Users/Authorization/Services.antt =====
-- What `list_services` lists.
use vestirust.Prelude.{
  false, Option, some, none, List, [], ◌∷◌, ◌++◌, String, ◌≡◌, refl, sym, ap, ◌∙◌, append_assoc,
  append-nil, ◌||◌, arith,
}
use vestirust.Model.{StatusCode, User, App, Dav, HostType, app, dav, roles}
use vestirust.Users.Authorization.{
  has_common_role, any_user_role, svc_loop, check_authorization,
  strip_sensitive_data_and_push_to_vec, list_service, list_services_loop, list_services,
}

module _ {Authority Uri : Type 0} where
  abbrev pub keep_if :
      Option StatusCode
      → HostType Authority Uri
      → List (HostType Authority Uri)
      → List (HostType Authority Uri)
  keep_if none svc rest = svc ∷ rest
  keep_if (some status) svc rest = rest

  -- The services that a user's requests are let through to.
  abbrev pub allowed : User → List (HostType Authority Uri) → List (HostType Authority Uri)
  allowed user [] = []
  allowed user (svc ∷ rest) = keep_if (check_authorization svc (some user)) svc (allowed user rest)

  abbrev pub redacted_apps : List (HostType Authority Uri) → List App
  redacted_apps [] = []
  redacted_apps (app a ∷ rest) =
      (record a.inner { login = "REDACTED"; password = "REDACTED" }) ∷ redacted_apps rest
  redacted_apps (dav d ∷ rest) = redacted_apps rest

  abbrev pub redacted_davs : List (HostType Authority Uri) → List Dav
  redacted_davs [] = []
  redacted_davs (app a ∷ rest) = redacted_davs rest
  redacted_davs (dav d ∷ rest) = (record d { passphrase = "REDACTED" }) ∷ redacted_davs rest

-- The two nests of loops, over the user's roles first and over the service's first, find the same.
has_common_role-nil : (xs : List String) → has_common_role xs [] ≡ false
unfolding has_common_role
has_common_role-nil [] = refl
has_common_role-nil (x ∷ xs) = has_common_role-nil xs

has_common_role-cons :
    (y : String) (ys xs : List String)
    → has_common_role xs (y ∷ ys) ≡ (any_user_role y xs || has_common_role xs ys)
unfolding has_common_role any_user_role
has_common_role-cons y ys [] = refl
has_common_role-cons y ys (x ∷ xs) = rw (has_common_role-cons y ys xs) (ground arith)

svc_loop-has_common_role : (ys xs : List String) → svc_loop ys xs ≡ has_common_role xs ys
unfolding svc_loop
svc_loop-has_common_role [] xs = sym (has_common_role-nil xs)
svc_loop-has_common_role (y ∷ ys) xs =
    rw (svc_loop-has_common_role ys xs, has_common_role-cons y ys xs)

module _ {Authority Uri : Type 0} where
  -- what `list_service` does with an authorization
  abbrev push_if :
      Option StatusCode → HostType Authority Uri → List App × List Dav → List App × List Dav
  push_if none svc acc = strip_sensitive_data_and_push_to_vec svc acc
  push_if (some status) svc acc = acc

  list_service-push_if :
      (user : User) (svc : HostType Authority Uri) (acc : List App × List Dav)
      → list_service user svc acc ≡ push_if (check_authorization svc (some user)) svc acc
  unfolding list_service check_authorization
  list_service-push_if user svc acc =
      rw (svc_loop-has_common_role (roles svc) user.roles) (ground arith)

  module _ (user : User) (rest : List (HostType Authority Uri))
      (listed : List (HostType Authority Uri)) where
    abbrev LoopLists : Type 0
    LoopLists =
        (apps : List App) (davs : List Dav)
        → list_services_loop user rest (apps, davs)
          ≡ (apps ++ redacted_apps listed, davs ++ redacted_davs listed)

    loop-push_if :
        LoopLists
        → (answer : Option StatusCode) (svc : HostType Authority Uri) (apps : List App)
          (davs : List Dav)
        → list_services_loop user rest (push_if answer svc (apps, davs)) ≡ (
          apps ++ redacted_apps (keep_if answer svc listed),
          davs ++ redacted_davs (keep_if answer svc listed),
        )
    unfolding strip_sensitive_data_and_push_to_vec
    loop-push_if ih (some status) svc apps davs = ih apps davs
    loop-push_if ih none (app a) apps davs =
        ih _ davs ∙ ap (λ l. (l, davs ++ redacted_davs listed)) (append_assoc apps _ _)
    loop-push_if ih none (dav d) apps davs =
        ih apps _ ∙ ap (λ l. (apps ++ redacted_apps listed, l)) (append_assoc davs _ _)

  list_services_loop-allowed :
      (user : User) (services : List (HostType Authority Uri)) (apps : List App) (davs : List Dav)
      → list_services_loop user services (apps, davs) ≡ (
        apps ++ redacted_apps (allowed user services),
        davs ++ redacted_davs (allowed user services),
      )
  unfolding list_services_loop
  list_services_loop-allowed user [] apps davs = rw (append-nil apps, append-nil davs)
  list_services_loop-allowed user (svc ∷ rest) apps davs =
      rw (list_service-push_if user svc (apps, davs)) (
        loop-push_if user rest (allowed user rest) (list_services_loop-allowed user rest) _ svc apps
          davs)

  -- `list_services` lists the services that `check_authorization` lets the user through to, in the
  -- order of the map, with "REDACTED" for the login and the password of an app and for the
  -- passphrase of a dav.
  pub list_services_lem :
      (services : List (HostType Authority Uri)) (user : User)
      → list_services services user
        ≡ (redacted_apps (allowed user services), redacted_davs (allowed user services))
  unfolding list_services
  list_services_lem services user = list_services_loop-allowed user services [] []
