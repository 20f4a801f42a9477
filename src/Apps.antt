-- ===== src/Apps.antt =====
-- src/apps.rs: the handlers that change the apps of the configuration.
pub mod Laws
pub mod Proxy
use vestirust.Prelude.{ℕ, none, some, String, ok, err, ◌==◌, ==_iff}
use vestirust.Prelude.Tables.{Keyed, replace_or_push, remove_found}
use vestirust.Model.{StatusCode, App, Config}
use vestirust.Configuration.{Reply, to_file_or_internal_server_error}
use vestirust.Configuration.Interface.{Backend}

-- `a.id == id`
abbrev pub by_id : Keyed App ℕ
by_id = record { key = λ a. a.id; beq = ◌==◌; beq_iff = ==_iff }

module _ {World : Type 0} (backend : Backend World) where
  unfoldable pub get_apps : Config → Reply
  get_apps config = elim (backend.apps_to_json config.apps) [
    | none ↦ err (StatusCode.internal_server_error, "could not encode apps")
    | some encoded ↦ ok (StatusCode.ok, encoded)
  ]

  unfoldable pub delete_app : String → Config → ℕ → World → World × Reply
  delete_app config_file config app_id w = elim (remove_found by_id app_id config.apps) [
    | none ↦ (w, err (StatusCode.bad_request, "app doesn't exist"))
    | some apps ↦
        to_file_or_internal_server_error backend (record config { apps = apps }) config_file
          (StatusCode.ok, "app deleted successfully") w
  ]

  unfoldable pub add_app : String → Config → App → World → World × Reply
  add_app config_file config payload w =
      to_file_or_internal_server_error backend
        (record config { apps = replace_or_push by_id payload config.apps }) config_file
        (StatusCode.created, "app created or updated successfully") w
