-- ===== src/Davs/Model.antt =====
-- src/davs/model.rs: the handlers that change the davs of the configuration.
pub mod Laws
use vestirust.Prelude.{ℕ, none, some, String, ok, err, ◌==◌, ==_iff}
use vestirust.Prelude.Tables.{Keyed, replace_or_push, remove_found}
use vestirust.Model.{StatusCode, Dav, Config}
use vestirust.Configuration.{Reply, to_file_or_internal_server_error}
use vestirust.Configuration.Interface.{Backend}

-- `d.id == id`
abbrev pub by_id : Keyed Dav ℕ
by_id = record { key = λ d. d.id; beq = ◌==◌; beq_iff = ==_iff }

module _ {World : Type 0} (backend : Backend World) where
  unfoldable pub get_davs : Config → Reply
  get_davs config = elim (backend.davs_to_json config.davs) [
    | none ↦ err (StatusCode.internal_server_error, "could not encode davs")
    | some encoded ↦ ok (StatusCode.ok, encoded)
  ]

  unfoldable pub delete_dav : String → Config → ℕ → World → World × Reply
  delete_dav config_file config dav_id w = elim (remove_found by_id dav_id config.davs) [
    | none ↦ (w, err (StatusCode.bad_request, "dav doesn't exist"))
    | some davs ↦
        to_file_or_internal_server_error backend (record config { davs = davs }) config_file
          (StatusCode.ok, "dav deleted successfully") w
  ]

  unfoldable pub add_dav : String → Config → Dav → World → World × Reply
  add_dav config_file config payload w =
      to_file_or_internal_server_error backend
        (record config { davs = replace_or_push by_id payload config.davs }) config_file
        (StatusCode.created, "dav created or updated successfully") w
