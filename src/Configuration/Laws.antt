-- ===== src/Configuration/Laws.antt =====
-- What the answer of a handler says of the configuration's file.
use vestirust.Prelude.{
  Bool, true, false, some, String, ◌≡◌, ap, inl, inr, ok, err, Option-cases, arith,
}
use vestirust.Model.{StatusCode, Config}
use vestirust.Configuration.Interface.{Backend, IsStorage, without_keys}
use vestirust.Configuration.{
  from_file, to_file, saved_or_internal_server_error, to_file_or_internal_server_error,
}

-- The answer where the configuration could not be written; the file may have changed then.
abbrev pub save_failed : StatusCode × String
save_failed = (StatusCode.internal_server_error, "could not save configuration")

module _ {World : Type 0} (backend : Backend World) where
  saved-err :
      (saved : World × Bool) (done refusal : StatusCode × String) (w' : World)
      → saved_or_internal_server_error backend saved done ≡ (w', err refusal)
      → refusal ≡ save_failed
  saved-err (w, true) done refusal w' h = cc (ap (λ t. t.1) h)
  saved-err (w, false) done refusal w' h = cc (ap (λ t. t.1) h)

  pub refusal_saved :
      (config : Config) (filepath : String) (done refusal : StatusCode × String) (w w' : World)
      → to_file_or_internal_server_error backend config filepath done w ≡ (w', err refusal)
      → refusal ≡ save_failed
  unfolding to_file_or_internal_server_error
  refusal_saved config filepath done refusal w w' h =
      saved-err (to_file backend config filepath w) done refusal w' h

module _ {World : Type 0} {backend : Backend World} (storage : IsStorage backend) where
  pub from_file-to_file :
      (config : Config) (filepath : String) (w w' : World)
      → to_file backend config filepath w ≡ (w', true)
      → from_file backend w' filepath ≡ some (without_keys config)
  unfolding from_file to_file
  from_file-to_file config filepath w w' h = elim (Option-cases (backend.to_yaml config)) [
    | inl e ↦ cc (rw (e, to_file) at h)
    | inr (text, e) ↦
        let read = storage.read_written w w' filepath text (rw (e, to_file) at h) in
        rw (read, from_file) (storage.decode_encoded config text e)
  ]

  saved-ok :
      (saved : World × Bool) (done r : StatusCode × String) (w' : World)
      → saved_or_internal_server_error backend saved done ≡ (w', ok r)
      → saved ≡ (w', true)
  saved-ok (w, true) done r w' h = ground arith
  saved-ok (w, false) done r w' h = cc (ap (λ t. t.1) h)

  pub from_file_saved :
      (config : Config) (filepath : String) (done r : StatusCode × String) (w w' : World)
      → to_file_or_internal_server_error backend config filepath done w ≡ (w', ok r)
      → from_file backend w' filepath ≡ some (without_keys config)
  unfolding to_file_or_internal_server_error
  from_file_saved config filepath done r w w' h =
      from_file-to_file config filepath w w'
        (saved-ok (to_file backend config filepath w) done r w' h)
