-- ===== src/Apps/Laws.antt =====
-- What the configuration file holds after a change of the apps.
use vestirust.Prelude.{
  ℕ, none, some, [], String, ◌≡◌, refl, ap, inl, inr, ok, ◌==◌, if◌then◌else◌, Option-cases,
}
use vestirust.Prelude.Tables.{
  find_key, remove_found, IsUnique, find-replace_or_push, find-remove_found,
}
use vestirust.Model.{StatusCode, App, Config}
use vestirust.Configuration.{from_file}
use vestirust.Configuration.Interface.{Backend, IsStorage, without_keys}
use vestirust.Configuration.Laws.{from_file_saved}
use vestirust.Apps.{by_id, add_app, delete_app}

module _ {World : Type 0} {backend : Backend World} (storage : IsStorage backend) where
  -- After `add_app` answered with a success, the file holds a configuration in which the payload
  -- stands under its id, every other id has the app that it had, and the rest is unchanged but for
  -- the keys of the davs, which no file holds.
  pub add_app-saved :
      (config_file : String) (config : Config) (payload : App) (w w' : World)
      (r : StatusCode × String)
      → add_app backend config_file config payload w ≡ (w', ok r)
      → (after : Config) × (from_file backend w' config_file ≡ some after)
        × ((id : ℕ)
            → find_key by_id id after.apps
              ≡ (if payload.id == id then some payload else find_key by_id id config.apps))
        × (record after { apps = [] } ≡ record (without_keys config) { apps = [] })
  unfolding add_app
  add_app-saved config_file config payload w w' r h = (
    _,
    from_file_saved storage _ config_file _ r w w' h,
    λ id. find-replace_or_push by_id id payload config.apps,
    refl,
  )

  -- After `delete_app` answered with a success, if the ids were unique, the file holds a
  -- configuration in which the id has no app, every other id has the app that it had, and the rest
  -- is unchanged but for the keys of the davs.
  pub delete_app-saved :
      (config_file : String) (config : Config) (app_id : ℕ) (w w' : World) (r : StatusCode × String)
      → IsUnique by_id config.apps
      → delete_app backend config_file config app_id w ≡ (w', ok r)
      → (after : Config) × (from_file backend w' config_file ≡ some after)
        × ((id : ℕ)
            → find_key by_id id after.apps
              ≡ (if app_id == id then none else find_key by_id id config.apps))
        × (record after { apps = [] } ≡ record (without_keys config) { apps = [] })
  unfolding delete_app
  delete_app-saved config_file config app_id w w' r u h =
      elim (Option-cases (remove_found by_id app_id config.apps)) [
        | inl e ↦ cc (ap (λ t. t.1) (rw (e, delete_app) at h))
        | inr (apps, e) ↦ (
          _,
          from_file_saved storage (record config { apps = apps }) config_file _ r w w'
              (rw (e, delete_app) at h),
          λ id. find-remove_found by_id id app_id config.apps u e,
          refl,
        )
      ]
