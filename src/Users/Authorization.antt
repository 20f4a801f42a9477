-- ===== src/Users/Authorization.antt =====
-- src/users.rs: who may use a service. A response of the source is its status here, as its body is
-- empty.
pub mod Laws
pub mod Services
use vestirust.Prelude.{
  Bool, false, not, Option, none, some, List, [], ◌∷◌, ◌++◌, String, str_eq, ◌||◌, if◌then◌else◌,
}
use vestirust.Model.{StatusCode, User, App, Dav, HostType, app, dav, roles, secured}

-- the loop over a target's roles, for one role of the user
pub has_role : String → List String → Bool
has_role user_role [] = false
has_role user_role (role ∷ rest) = str_eq user_role role || has_role user_role rest

-- the loop over the user's roles
pub has_common_role : List String → List String → Bool
unfolding has_role
has_common_role [] target_roles = false
has_common_role (user_role ∷ rest) target_roles =
    has_role user_role target_roles || has_common_role rest target_roles

-- the inner loop of `list_services`, over the user's roles for one role of the service
any_user_role : String → List String → Bool
any_user_role svc_role [] = false
any_user_role svc_role (user_role ∷ rest) = str_eq user_role svc_role || any_user_role svc_role rest

-- `'svc_loop`, which ends at the first match
svc_loop : List String → List String → Bool
svc_loop [] user_roles = false
svc_loop (svc_role ∷ rest) user_roles =
    any_user_role svc_role user_roles || svc_loop rest user_roles

module _ {Authority Uri : Type 0} where
  unfoldable pub check_user_has_role_or_forbid :
      Option User → HostType Authority Uri → Option StatusCode
  unfolding has_common_role
  check_user_has_role_or_forbid none target = some StatusCode.forbidden
  check_user_has_role_or_forbid (some user) target =
      if has_common_role user.roles (roles target) then none else some StatusCode.forbidden

  unfoldable pub check_authorization : HostType Authority Uri → Option User → Option StatusCode
  unfolding check_user_has_role_or_forbid
  check_authorization target user =
      if secured target then check_user_has_role_or_forbid user target else none

  -- `strip_sensitive_data_and_push_to_vec`
  strip_sensitive_data_and_push_to_vec :
      HostType Authority Uri → List App × List Dav → List App × List Dav
  strip_sensitive_data_and_push_to_vec (app a) (apps, davs) =
      (apps ++ (record a.inner { login = "REDACTED"; password = "REDACTED" }) ∷ [], davs)
  strip_sensitive_data_and_push_to_vec (dav d) (apps, davs) =
      (apps, davs ++ (record d { passphrase = "REDACTED" }) ∷ [])

  -- one service of `list_services`
  list_service : User → HostType Authority Uri → List App × List Dav → List App × List Dav
  unfolding strip_sensitive_data_and_push_to_vec svc_loop any_user_role
  list_service user svc acc =
      if not (secured svc)
      then strip_sensitive_data_and_push_to_vec svc acc
      else if svc_loop (roles svc) user.roles
      then strip_sensitive_data_and_push_to_vec svc acc
      else acc

  list_services_loop :
      User → List (HostType Authority Uri) → List App × List Dav → List App × List Dav
  unfolding list_service
  list_services_loop user [] acc = acc
  list_services_loop user (svc ∷ rest) acc =
      list_services_loop user rest (list_service user svc acc)

  -- The values of the map, in the order in which it is iterated over.
  unfoldable pub list_services : List (HostType Authority Uri) → User → List App × List Dav
  unfolding list_services_loop
  list_services services user = list_services_loop user services ([], [])
