-- ===== src/Server/Admin/Keys.antt =====
-- The ids of the apps and of the davs, and the logins, as keys.
use mathlib.Core.Option
use vestirust.Prelude.{
  Bool, true, false, Option, some, List, [], ◌∷◌, map, String, ◌≡◌, ◌⊎◌, refl, inl, inr, ap, ok,
  err, ◌∙◌, Option-cases, Result-cases,
}
use vestirust.Prelude.Tables.{
  IsUnique, find_key, remove_found, replace_or_push-IsUnique, remove_found-IsUnique,
}
use vestirust.Model.{StatusCode, User, App, Dav, Config}
use vestirust.Configuration
use vestirust.Configuration.{Reply, from_file}
use vestirust.Configuration.Interface.{Backend, IsStorage, without_key, without_keys}
use vestirust.Configuration.Laws.{from_file_saved}
use vestirust.Users.Accounts
use vestirust.Users.Accounts.{by_login, user_to_store, admin_from_request}
use vestirust.Apps
use vestirust.Davs.Model
use vestirust.Davs.Model.Laws.{find-map-without_key}
use vestirust.Server.Admin.{
  AdminRequest, get_users, get_apps, get_davs, add_user, add_app, add_dav, delete_user, delete_app,
  delete_dav, admin_handler, admin_router,
}

-- A request that writes the configuration.
abbrev pub is_write : AdminRequest → Bool
is_write get_users = false
is_write get_apps = false
is_write get_davs = false
is_write _ = true

abbrev pub Writes : AdminRequest → Type 0
Writes request = is_write request ≡ true

-- No two apps, no two davs and no two users of a configuration have the same key.
pub record HasUniqueKeys (config : Config) : Type 0 where
  pub apps : IsUnique Apps.by_id config.apps
  pub davs : IsUnique Model.by_id config.davs
  pub users : IsUnique by_login config.users

map-without_key-IsUnique :
    (l : List Dav) → IsUnique Model.by_id l → IsUnique Model.by_id (map without_key l)
map-without_key-IsUnique [] u = tt
map-without_key-IsUnique (d ∷ l) (new, u) =
    (find-map-without_key d.id l ∙ ap (Option.map without_key) new, map-without_key-IsUnique l u)

without_keys-HasUniqueKeys :
    (config : Config) → HasUniqueKeys config → HasUniqueKeys (without_keys config)
without_keys-HasUniqueKeys config u = record {
  apps = u.apps;
  davs = map-without_key-IsUnique config.davs u.davs;
  users = u.users;
}

module _ {World : Type 0} {backend : Backend World} (storage : IsStorage backend)
    (salt config_file : String) where
  -- The file of the world `w` holds a configuration with unique keys.
  abbrev pub HoldsUniqueKeys : World → Type 0
  HoldsUniqueKeys w =
      (config : Config) × (from_file backend w config_file ≡ some config) × HasUniqueKeys config

  saved-HoldsUniqueKeys :
      (config : Config) (done r : StatusCode × String) (w w' : World)
      → HasUniqueKeys config
      → Configuration.to_file_or_internal_server_error backend config config_file done w
        ≡ (w', ok r)
      → HoldsUniqueKeys w'
  saved-HoldsUniqueKeys config done r w w' u h = (
    _,
    from_file_saved storage config config_file done r w w' h,
    without_keys-HasUniqueKeys config u,
  )

  module _ (config : Config) (u : HasUniqueKeys config) where
    with_apps :
        (apps : List App) → IsUnique Apps.by_id apps → HasUniqueKeys (record config { apps = apps })
    with_apps apps v = record { apps = v; davs = u.davs; users = u.users }

    with_davs :
        (davs : List Dav)
        → IsUnique Model.by_id davs
        → HasUniqueKeys (record config { davs = davs })
    with_davs davs v = record { apps = u.apps; davs = v; users = u.users }

    with_users :
        (users : List User)
        → IsUnique by_login users
        → HasUniqueKeys (record config { users = users })
    with_users users v = record { apps = u.apps; davs = u.davs; users = v }

  -- A handler that writes and succeeds keeps the keys unique, whatever the file holds by then.
  pub Writes-HoldsUniqueKeys :
      (config : Config) (request : AdminRequest) (w w' : World) (r : StatusCode × String)
      → Writes request
      → HasUniqueKeys config
      → admin_handler backend salt config_file config request w ≡ (w', ok r)
      → HoldsUniqueKeys w'
  unfolding admin_handler Accounts.add_user Accounts.delete_user Apps.add_app Apps.delete_app
      Model.add_dav Model.delete_dav
  Writes-HoldsUniqueKeys config get_users w w' r writes u h = cc
  Writes-HoldsUniqueKeys config get_apps w w' r writes u h = cc
  Writes-HoldsUniqueKeys config get_davs w w' r writes u h = cc
  Writes-HoldsUniqueKeys config (add_user (err rejection)) w w' r writes u h = cc (ap (λ t. t.1) h)
  Writes-HoldsUniqueKeys config (add_user (ok user)) w w' r writes u h =
      elim (Result-cases
        (user_to_store backend salt (find_key by_login user.login config.users) user)) [
          | inr (refusal, e) ↦ cc (ap (λ t. t.1) (rw (e, Accounts.add_user) at h))
          | inl (stored, e) ↦
              saved-HoldsUniqueKeys _ _ r w w'
                (with_users config u _
                  (replace_or_push-IsUnique by_login stored config.users u.users))
                (rw (e, Accounts.add_user) at h)
        ]
  Writes-HoldsUniqueKeys config (add_app (err rejection)) w w' r writes u h = cc (ap (λ t. t.1) h)
  Writes-HoldsUniqueKeys config (add_app (ok payload)) w w' r writes u h =
      saved-HoldsUniqueKeys _ _ r w w'
        (with_apps config u _ (replace_or_push-IsUnique Apps.by_id payload config.apps u.apps)) h
  Writes-HoldsUniqueKeys config (add_dav (err rejection)) w w' r writes u h = cc (ap (λ t. t.1) h)
  Writes-HoldsUniqueKeys config (add_dav (ok payload)) w w' r writes u h =
      saved-HoldsUniqueKeys _ _ r w w'
        (with_davs config u _ (replace_or_push-IsUnique Model.by_id payload config.davs u.davs)) h
  Writes-HoldsUniqueKeys config (delete_user (err rejection)) w w' r writes u h =
      cc (ap (λ t. t.1) h)
  Writes-HoldsUniqueKeys config (delete_user (ok login)) w w' r writes u h =
      elim (Option-cases (remove_found by_login login config.users)) [
        | inl e ↦ cc (ap (λ t. t.1) (rw (e, Accounts.delete_user) at h))
        | inr (users, e) ↦
            saved-HoldsUniqueKeys _ _ r w w'
              (with_users config u users
                (remove_found-IsUnique by_login login config.users u.users e))
              (rw (e, Accounts.delete_user) at h)
      ]
  Writes-HoldsUniqueKeys config (delete_app (err rejection)) w w' r writes u h =
      cc (ap (λ t. t.1) h)
  Writes-HoldsUniqueKeys config (delete_app (ok id)) w w' r writes u h =
      elim (Option-cases (remove_found Apps.by_id id config.apps)) [
        | inl e ↦ cc (ap (λ t. t.1) (rw (e, Apps.delete_app) at h))
        | inr (apps, e) ↦
            saved-HoldsUniqueKeys _ _ r w w'
              (with_apps config u apps (remove_found-IsUnique Apps.by_id id config.apps u.apps e))
              (rw (e, Apps.delete_app) at h)
      ]
  Writes-HoldsUniqueKeys config (delete_dav (err rejection)) w w' r writes u h =
      cc (ap (λ t. t.1) h)
  Writes-HoldsUniqueKeys config (delete_dav (ok id)) w w' r writes u h =
      elim (Option-cases (remove_found Model.by_id id config.davs)) [
        | inl e ↦ cc (ap (λ t. t.1) (rw (e, Model.delete_dav) at h))
        | inr (davs, e) ↦
            saved-HoldsUniqueKeys _ _ r w w'
              (with_davs config u davs (remove_found-IsUnique Model.by_id id config.davs u.davs e))
              (rw (e, Model.delete_dav) at h)
      ]

  -- A request either writes, or leaves the world as it is.
  pub write_or_read :
      (config : Config) (request : AdminRequest) (w : World)
      → Writes request
        ⊎ ((is_write request ≡ false)
            × ((admin_handler backend salt config_file config request w).0 ≡ w))
  unfolding admin_handler
  write_or_read config get_users w = inr (refl, refl)
  write_or_read config get_apps w = inr (refl, refl)
  write_or_read config get_davs w = inr (refl, refl)
  write_or_read config (add_user x) w = inl refl
  write_or_read config (add_app x) w = inl refl
  write_or_read config (add_dav x) w = inl refl
  write_or_read config (delete_user x) w = inl refl
  write_or_read config (delete_app x) w = inl refl
  write_or_read config (delete_dav x) w = inl refl

  -- A handler that succeeds keeps the keys unique.
  admin_handler-HoldsUniqueKeys :
      (config : Config) (request : AdminRequest) (w w' : World) (r : StatusCode × String)
      → from_file backend w config_file ≡ some config
      → HasUniqueKeys config
      → admin_handler backend salt config_file config request w ≡ (w', ok r)
      → HoldsUniqueKeys w'
  admin_handler-HoldsUniqueKeys config request w w' r read u h =
      elim (write_or_read config request w) [
        | inl writes ↦ Writes-HoldsUniqueKeys config request w w' r writes u h
        | inr (read_only, same) ↦ let kept : w' ≡ w = cc in (config, rw kept read, u)
      ]

  -- If the file holds a configuration with unique keys, it does so after any admin request that is
  -- answered with a success, whoever made it.
  pub admin_router-HoldsUniqueKeys :
      (cookie : Option String) (request : AdminRequest) (w w' : World) (r : StatusCode × String)
      → HoldsUniqueKeys w
      → admin_router backend salt config_file cookie request w ≡ (w', ok r)
      → HoldsUniqueKeys w'
  unfolding admin_router
  admin_router-HoldsUniqueKeys cookie request w w' r (config, read, u) h =
      elim (Result-cases (admin_from_request backend cookie)) [
        | inl (admin, e) ↦
            admin_handler-HoldsUniqueKeys config request w w' r read u
              (rw (read, admin_router, e) at h)
        | inr (status, e) ↦ cc (ap (λ t. t.1) (rw (read, admin_router, e) at h))
      ]
