-- ===== src/Server/Admin/Races.antt =====
-- Two admin requests at the same time: each reads the configuration before the other has written it.
use vestirust.Prelude.{
  none, Option, String, ◌≡◌, sym, ap, ◌∙◌, ok, err, inl, inr, Option-cases, Result-cases,
}
use vestirust.Prelude.Tables.{find_key, remove_found}
use vestirust.Model.{StatusCode, Config}
use vestirust.Configuration.{from_file}
use vestirust.Configuration.Interface.{Backend, IsStorage}
use vestirust.Configuration.Laws.{from_file_saved}
use vestirust.Users.Accounts
use vestirust.Users.Accounts.{by_login, user_to_store}
use vestirust.Apps
use vestirust.Davs.Model
use vestirust.Server.Admin.Keys.{HasUniqueKeys, Writes}
use vestirust.Server.Admin.Promises.{Keeps, Writes-Keeps}
use vestirust.Server.Admin.{
  AdminRequest, get_users, get_apps, get_davs, add_user, add_app, add_dav, delete_user, delete_app,
  delete_dav, admin_handler,
}

module _ {World : Type 0} {backend : Backend World} (storage : IsStorage backend)
    (salt config_file : String) (config : Config) where
  -- What the file holds after a handler's success does not depend on what it held before.
  abbrev IsFixed : AdminRequest → Type 0
  IsFixed request =
      (after : Option Config) × ((w w' : World) (r : StatusCode × String)
        → admin_handler backend salt config_file config request w ≡ (w', ok r)
        → from_file backend w' config_file ≡ after)

  admin_handler-IsFixed : (request : AdminRequest) → Writes request → IsFixed request
  unfolding admin_handler Accounts.add_user Accounts.delete_user Apps.add_app Apps.delete_app
      Model.add_dav Model.delete_dav
  admin_handler-IsFixed get_users writes = cc
  admin_handler-IsFixed get_apps writes = cc
  admin_handler-IsFixed get_davs writes = cc
  admin_handler-IsFixed (add_user (err e)) writes = (none, λ w w' r h. cc (ap (λ t. t.1) h))
  admin_handler-IsFixed (add_app (err e)) writes = (none, λ w w' r h. cc (ap (λ t. t.1) h))
  admin_handler-IsFixed (add_dav (err e)) writes = (none, λ w w' r h. cc (ap (λ t. t.1) h))
  admin_handler-IsFixed (delete_user (err e)) writes = (none, λ w w' r h. cc (ap (λ t. t.1) h))
  admin_handler-IsFixed (delete_app (err e)) writes = (none, λ w w' r h. cc (ap (λ t. t.1) h))
  admin_handler-IsFixed (delete_dav (err e)) writes = (none, λ w w' r h. cc (ap (λ t. t.1) h))
  admin_handler-IsFixed (add_app (ok payload)) writes =
      (_, λ w w' r h. from_file_saved storage _ config_file _ r w w' h)
  admin_handler-IsFixed (add_dav (ok payload)) writes =
      (_, λ w w' r h. from_file_saved storage _ config_file _ r w w' h)
  admin_handler-IsFixed (add_user (ok user)) writes =
      elim (Result-cases
        (user_to_store backend salt (find_key by_login user.login config.users) user)) [
          | inl (stored, e) ↦ (
            _,
            λ w w' r h.
                from_file_saved storage _ config_file _ r w w' (rw (e, Accounts.add_user) at h),
          )
          | inr (refusal, e) ↦
              (none, λ w w' r h. cc (ap (λ t. t.1) (rw (e, Accounts.add_user) at h)))
        ]
  admin_handler-IsFixed (delete_user (ok login)) writes =
      elim (Option-cases (remove_found by_login login config.users)) [
        | inl e ↦ (none, λ w w' r h. cc (ap (λ t. t.1) (rw (e, Accounts.delete_user) at h)))
        | inr (users, e) ↦ (
          _,
          λ w w' r h.
              from_file_saved storage _ config_file _ r w w' (rw (e, Accounts.delete_user) at h),
        )
      ]
  admin_handler-IsFixed (delete_app (ok id)) writes =
      elim (Option-cases (remove_found Apps.by_id id config.apps)) [
        | inl e ↦ (none, λ w w' r h. cc (ap (λ t. t.1) (rw (e, Apps.delete_app) at h)))
        | inr (apps, e) ↦ (
          _,
          λ w w' r h. from_file_saved storage _ config_file _ r w w' (rw (e, Apps.delete_app) at h),
        )
      ]
  admin_handler-IsFixed (delete_dav (ok id)) writes =
      elim (Option-cases (remove_found Model.by_id id config.davs)) [
        | inl e ↦ (none, λ w w' r h. cc (ap (λ t. t.1) (rw (e, Model.delete_dav) at h)))
        | inr (davs, e) ↦ (
          _,
          λ w w' r h.
              from_file_saved storage _ config_file _ r w w' (rw (e, Model.delete_dav) at h),
        )
      ]

  -- If two admin requests both read the configuration, with unique keys, before either has written
  -- it, and both are answered with a success, then the file holds what it would hold if the one that
  -- writes last had been alone: what that one promises of the configuration that was read, and
  -- nothing of what the other did.
  pub admin_handler-lost :
      (first last : AdminRequest) (w w1 w2 alone : World) (r1 r2 r : StatusCode × String)
      → Writes last
      → HasUniqueKeys config
      → admin_handler backend salt config_file config first w ≡ (w1, ok r1)
      → admin_handler backend salt config_file config last w1 ≡ (w2, ok r2)
      → admin_handler backend salt config_file config last w ≡ (alone, ok r)
      → (from_file backend w2 config_file ≡ from_file backend alone config_file)
        × Keeps storage salt config_file last config w2
  admin_handler-lost first last w w1 w2 alone r1 r2 r writes u done1 done2 done =
      let (after, fixed) = admin_handler-IsFixed last writes in
      (
        fixed w1 w2 r2 done2 ∙ sym (fixed w alone r done),
        Writes-Keeps storage salt config_file config last w1 w2 r2 writes u done2,
      )
