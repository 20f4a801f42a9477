-- ===== src/Server/Admin/Revoked.antt =====
-- An admin who was deleted, with the cookie of before.
use vestirust.Prelude.{
  Bool, true, none, some, String, List, [], ◌∷◌, ◌≡◌, refl, ◌∙◌, inl, inr, ok, In, eq_refl, ◌||◌,
  str_eq,
}
use vestirust.Prelude.Tables.{find_key, IsUnique}
use vestirust.Model.{StatusCode, User, Config}
use vestirust.Configuration.{from_file}
use vestirust.Configuration.Interface.{Backend, IsStorage}
use vestirust.Users.Accounts.{
  by_login, is_admin, Cookie, admin_from_request, local_auth, delete_user,
}
use vestirust.Users.Accounts.Laws.{delete_user-saved}
use vestirust.Users.Accounts.Session.{IsUserJson, without_password, local_auth-user}
use vestirust.Server.Admin.{AdminRequest, admin_handler, admin_router}

In-is_admin : (roles : List String) → In "ADMINS" roles → is_admin roles ≡ true
unfolding is_admin
In-is_admin [] h = absurd h
In-is_admin (r ∷ rs) (inl e) = rw e (rw (eq_refl "ADMINS"))
In-is_admin (r ∷ rs) (inr h) = rw (In-is_admin rs h) (or_true (str_eq r "ADMINS"))
  where
    or_true : (b : Bool) → (b || true) ≡ true
    or_true true = refl
    or_true Bool.false = refl

module _ {World : Type 0} {backend : Backend World} (storage : IsStorage backend)
    (json : IsUserJson backend) where
  admin_router-admin :
      (salt config_file text : String) (admin : User) (config : Config) (request : AdminRequest)
      (w : World)
      → from_file backend w config_file ≡ some config
      → admin_from_request backend (some text) ≡ ok admin
      → admin_router backend salt config_file (some text) request w
        ≡ admin_handler backend salt config_file config request w
  unfolding admin_router
  admin_router-admin salt config_file text admin config request w read e =
      rw (read, admin_router, e)

  -- The cookie that an admin got by logging in still lets its bearer do everything that an admin may,
  -- after that admin was deleted from the configuration, if the logins were unique.
  pub deleted-still_admin :
      (salt config_file : String) (config later : Config) (hostname login password : String)
      (cookie : Cookie) (user : User) (request : AdminRequest) (w w' : World)
      (r : StatusCode × String)
      → local_auth backend config hostname login password ≡ ok cookie
      → find_key by_login login config.users ≡ some user
      → In "ADMINS" user.roles
      → IsUnique by_login later.users
      → delete_user backend config_file later login w ≡ (w', ok r)
      → (after : Config) × (from_file backend w' config_file ≡ some after)
        × (find_key by_login login after.users ≡ none)
        × (admin_router backend salt config_file (some cookie.value) request w'
            ≡ admin_handler backend salt config_file after request w')
  unfolding admin_from_request
  deleted-still_admin salt config_file config later hostname login password cookie user request w w'
        r given known admin unique deleted =
      let (after, read, users, rest) =
        delete_user-saved storage config_file later login w w' r unique deleted in
      let (same, found, accepted, decoded) =
        local_auth-user json config hostname login password cookie given in
      let is_user : same ≡ user = cc in
      (
        after,
        read,
        users login ∙ rw (eq_refl login),
        admin_router-admin salt config_file cookie.value (without_password user) after request w'
            read (rw (decoded, is_user, In-is_admin user.roles admin) refl),
      )
