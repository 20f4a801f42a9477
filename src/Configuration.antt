-- ===== src/Configuration.antt =====
-- src/configuration.rs: the configuration and its file.
pub mod Interface
pub mod Laws
pub mod Services
pub mod Defaults
pub mod Values
pub mod Serde
use vestirust.Prelude.{Bool, true, false, Option, none, some, String, Result, ok, err}
use vestirust.Model.{StatusCode, Config}
use vestirust.Configuration.Interface.{Backend}

-- A handler's reply: the status and the text of the response.
abbrev pub Reply : Type 0
Reply = Result (StatusCode × String) (StatusCode × String)

module _ {World : Type 0} (backend : Backend World) where
  -- `Config::from_file`; the extractor of `Config` calls it for each request
  unfoldable pub from_file : World → String → Option Config
  from_file w filepath = elim (backend.read_to_string w filepath) [
    | none ↦ none
    | some text ↦ backend.from_yaml text
  ]

  -- `Config::to_file`, and whether it succeeded
  unfoldable pub to_file : Config → String → World → World × Bool
  to_file config filepath w = elim (backend.to_yaml config) [
    | none ↦ (w, false)
    | some contents ↦ backend.write w filepath contents
  ]

  abbrev saved_or_internal_server_error : World × Bool → StatusCode × String → World × Reply
  saved_or_internal_server_error (w, true) done = (w, ok done)
  saved_or_internal_server_error (w, false) done =
      (w, err (StatusCode.internal_server_error, "could not save configuration"))

  -- the end of a handler: `to_file_or_internal_server_error(…)?`, then its answer
  unfoldable pub to_file_or_internal_server_error :
      Config → String → StatusCode × String → World → World × Reply
  to_file_or_internal_server_error config filepath done w =
      saved_or_internal_server_error (to_file config filepath w) done
