-- ===== src/Davs/Handler.antt =====
-- src/davs/mod.rs: `webdav_handler`. A request is what the webdav server reads of it.
use vestirust.Prelude.{ℕ, Option, none, some, Result, ok, err}
use vestirust.Model.{User, HostType, app, dav}
use vestirust.Users.Authorization.{check_authorization}
use vestirust.Apps.Proxy.{Panic, wrong_service, Handled, answered, passed}
use vestirust.Davs.EncryptedStreamer.Cipher.{StreamCipher}
use vestirust.Davs.Streamer.{ReadSize}
use vestirust.Davs.Webdav.FileSystem.{FileSystem}
use vestirust.Davs.Webdav.PathItem.{Libraries}
use vestirust.Davs.Webdav.Upload.{Chance}
use vestirust.Davs.Webdav.SendFile.{Texts}
use vestirust.Davs.Webdav.Dispatch.{Request, Answer, call}

unfoldable pub pass_on : {World : Type 0} → World × Answer → World × Result Panic (Handled Answer)
pass_on (w, answer) = (w, ok (passed answer))

module _ {Encryptor Decryptor : Type 0} (cipher : StreamCipher Encryptor Decryptor)
    (read_size : ReadSize) (texts : Texts) (libraries : Libraries) (fuel : ℕ) (chance : Chance)
    {World : Type 0} (fs : FileSystem World) {Authority Uri : Type 0} where
  unfoldable pub webdav_handler :
      Option User → HostType Authority Uri → Request → World → World × Result Panic (Handled Answer)
  unfolding pass_on
  webdav_handler user service req w = elim (check_authorization service user) [
    | some status ↦ (w, ok (answered status))
    | none ↦ elim service [
      | dav d ↦ pass_on (call cipher read_size texts libraries fuel chance fs d req w)
      | app target ↦ (w, err wrong_service)
    ]
  ]
