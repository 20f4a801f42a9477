-- ===== src/Server/Admin/Failures.antt =====
-- What a failed admin request leaves behind.
use vestirust.Prelude.{
  Option, String, ◌≡◌, ◌⊎◌, sym, ap, inl, inr, ok, err, Option-cases, Result-cases,
}
use vestirust.Prelude.Tables.{find_key, remove_found}
use vestirust.Model.{StatusCode, Config}
use vestirust.Configuration
use vestirust.Configuration.{Reply, from_file}
use vestirust.Configuration.Interface.{Backend}
use vestirust.Configuration.Laws.{save_failed, refusal_saved}
use vestirust.Users.Accounts
use vestirust.Users.Accounts.{by_login, user_to_store, admin_from_request}
use vestirust.Apps
use vestirust.Davs.Model
use vestirust.Server.Admin.{
  AdminRequest, get_users, get_apps, get_davs, add_user, add_app, add_dav, delete_user, delete_app,
  delete_dav, admin_handler, admin_router,
}

module _ {World : Type 0} (backend : Backend World) (salt config_file : String) where
  -- The world is the old one, or the refusal is that of a failed write.
  abbrev pub IsHarmless : World → World → StatusCode × String → Type 0
  IsHarmless w w' refusal = (w' ≡ w) ⊎ (refusal ≡ save_failed)

  to_file-IsHarmless :
      (config : Config) (done refusal : StatusCode × String) (w w' : World)
      → Configuration.to_file_or_internal_server_error backend config config_file done w
        ≡ (w', err refusal)
      → IsHarmless w w' refusal
  to_file-IsHarmless config done refusal w w' h =
      inr (refusal_saved backend config config_file done refusal w w' h)

  refused-IsHarmless :
      (w w' : World) (r : Reply) (refusal : StatusCode × String)
      → ◌≡◌ {A = World × Reply} (w, r) (w', err refusal)
      → IsHarmless w w' refusal
  refused-IsHarmless w w' r refusal h = inl (sym (ap (λ t. t.0) h))

  pub admin_handler-IsHarmless :
      (config : Config) (request : AdminRequest) (w w' : World) (refusal : StatusCode × String)
      → admin_handler backend salt config_file config request w ≡ (w', err refusal)
      → IsHarmless w w' refusal
  unfolding admin_handler Accounts.add_user Accounts.delete_user Apps.add_app Apps.delete_app
      Model.add_dav Model.delete_dav
  admin_handler-IsHarmless config get_users w w' refusal h = refused-IsHarmless w w' _ refusal h
  admin_handler-IsHarmless config get_apps w w' refusal h = refused-IsHarmless w w' _ refusal h
  admin_handler-IsHarmless config get_davs w w' refusal h = refused-IsHarmless w w' _ refusal h
  admin_handler-IsHarmless config (add_user (err rejection)) w w' refusal h =
      refused-IsHarmless w w' _ refusal h
  admin_handler-IsHarmless config (add_user (ok user)) w w' refusal h =
      elim (Result-cases
        (user_to_store backend salt (find_key by_login user.login config.users) user)) [
          | inr (other, e) ↦
              refused-IsHarmless w w' (err other) refusal (rw (e, Accounts.add_user) at h)
          | inl (stored, e) ↦ to_file-IsHarmless _ _ refusal w w' (rw (e, Accounts.add_user) at h)
        ]
  admin_handler-IsHarmless config (add_app (err rejection)) w w' refusal h =
      refused-IsHarmless w w' _ refusal h
  admin_handler-IsHarmless config (add_app (ok payload)) w w' refusal h =
      to_file-IsHarmless _ _ refusal w w' h
  admin_handler-IsHarmless config (add_dav (err rejection)) w w' refusal h =
      refused-IsHarmless w w' _ refusal h
  admin_handler-IsHarmless config (add_dav (ok payload)) w w' refusal h =
      to_file-IsHarmless _ _ refusal w w' h
  admin_handler-IsHarmless config (delete_user (err rejection)) w w' refusal h =
      refused-IsHarmless w w' _ refusal h
  admin_handler-IsHarmless config (delete_user (ok login)) w w' refusal h =
      elim (Option-cases (remove_found by_login login config.users)) [
        | inl e ↦ refused-IsHarmless w w' _ refusal (rw (e, Accounts.delete_user) at h)
        | inr (users, e) ↦ to_file-IsHarmless _ _ refusal w w' (rw (e, Accounts.delete_user) at h)
      ]
  admin_handler-IsHarmless config (delete_app (err rejection)) w w' refusal h =
      refused-IsHarmless w w' _ refusal h
  admin_handler-IsHarmless config (delete_app (ok id)) w w' refusal h =
      elim (Option-cases (remove_found Apps.by_id id config.apps)) [
        | inl e ↦ refused-IsHarmless w w' _ refusal (rw (e, Apps.delete_app) at h)
        | inr (apps, e) ↦ to_file-IsHarmless _ _ refusal w w' (rw (e, Apps.delete_app) at h)
      ]
  admin_handler-IsHarmless config (delete_dav (err rejection)) w w' refusal h =
      refused-IsHarmless w w' _ refusal h
  admin_handler-IsHarmless config (delete_dav (ok id)) w w' refusal h =
      elim (Option-cases (remove_found Model.by_id id config.davs)) [
        | inl e ↦ refused-IsHarmless w w' _ refusal (rw (e, Model.delete_dav) at h)
        | inr (davs, e) ↦ to_file-IsHarmless _ _ refusal w w' (rw (e, Model.delete_dav) at h)
      ]

  -- An admin request that is answered with an error leaves the world as it was, unless the answer is
  -- that of a failed write.
  pub admin_router-IsHarmless :
      (cookie : Option String) (request : AdminRequest) (w w' : World)
      (refusal : StatusCode × String)
      → admin_router backend salt config_file cookie request w ≡ (w', err refusal)
      → (w' ≡ w) ⊎ (refusal ≡ save_failed)
  unfolding admin_router
  admin_router-IsHarmless cookie request w w' refusal h =
      elim (Option-cases (from_file backend w config_file)) [
        | inl e ↦ refused-IsHarmless w w' _ refusal (rw (e, admin_router) at h)
        | inr (config, read) ↦ elim (Result-cases (admin_from_request backend cookie)) [
          | inl (user, e) ↦
              admin_handler-IsHarmless config request w w' refusal (rw (read, admin_router, e) at h)
          | inr (status, e) ↦
              refused-IsHarmless w w' (err (status, "")) refusal (rw (read, admin_router, e) at h)
        ]
      ]
