-- ===== src/Davs/Webdav/Dispatch/Links.antt =====
-- When links out of a dav's directory are refused.
use vestirust.Prelude.{ℕ, Bool, true, false, none, some, String, ◌≡◌, refl, ap, ok}
use vestirust.Model.{Dav}
use vestirust.Davs.EncryptedStreamer.Cipher.{StreamCipher}
use vestirust.Davs.Streamer.{ReadSize}
use vestirust.Davs.Webdav.Paths.{extract_path}
use vestirust.Davs.Webdav.FileSystem.{FileSystem, Metadata}
use vestirust.Davs.Webdav.PathItem.{Libraries}
use vestirust.Davs.Webdav.PathItem.Within.{IsWithin, not_within}
use vestirust.Davs.Webdav.Response.{default_response, status_not_found}
use vestirust.Davs.Webdav.Upload.{Chance}
use vestirust.Davs.Webdav.SendFile.{Texts}
use vestirust.Davs.Webdav.Dispatch.{
  Method, get, head, options, put, delete, propfind, proppatch, mkcol, copy, move, lock, unlock,
  other, Request, target_of, handle_get, handle_propfind, handle_put, handle_delete_request,
  handle_mkcol_request, handle_copymove_request, handle_method, handle_path, handle, answer_error,
  call,
}

module _ {Encryptor Decryptor : Type 0} (cipher : StreamCipher Encryptor Decryptor)
    (read_size : ReadSize) (texts : Texts) (libraries : Libraries) (fuel : ℕ) (chance : Chance)
    {World : Type 0} (fs : FileSystem World) (dav : Dav) (req : Request) where
  -- Without links, a request for what is there, whose components with all links followed do not begin
  -- with those of the directory, or for which they cannot be followed, is answered with 404 whatever its
  -- method, and leaves the files as they are.
  pub call-outside :
      (path : String) (meta : Metadata) (w : World)
      → extract_path libraries.decode req.path dav.directory ≡ ok (some path)
      → fs.metadata w path ≡ some meta
      → dav.allow_symlinks ≡ false
      → ¬ IsWithin fs w path dav.directory
      → call cipher read_size texts libraries fuel chance fs dav req w
        ≡ (w, ok (status_not_found default_response))
  unfolding call handle answer_error handle_path target_of
  call-outside path meta w e m a out =
      rw (e, handle, m, a, not_within fs w path dav.directory out) refl

  abbrev with_links : Bool → Dav
  with_links allowed = record dav { allow_symlinks = allowed }

  miss-same :
      (m : Method) (path : String) (w : World)
      → handle_method cipher read_size texts libraries fuel chance fs
          (with_links false)
          req
          m
          path
          (target_of none)
          w
        ≡ handle_method cipher read_size texts libraries fuel chance fs
            (with_links true)
            req
            m
            path
            (target_of none)
            w
  unfolding handle_method handle_get handle_propfind handle_put handle_delete_request
      handle_mkcol_request handle_copymove_request target_of
  miss-same get path w = refl
  miss-same head path w = refl
  miss-same options path w = refl
  miss-same put path w = refl
  miss-same delete path w = refl
  miss-same propfind path w = refl
  miss-same proppatch path w = refl
  miss-same mkcol path w = refl
  miss-same copy path w = refl
  miss-same move path w = refl
  miss-same lock path w = refl
  miss-same unlock path w = refl
  miss-same other path w = refl

  -- Where nothing is at the path of a request, whether a dav allows links makes no difference to what
  -- the request does to the files and to its answer, wherever the directory above the path may be.
  pub call-missing :
      (path : String) (w : World)
      → extract_path libraries.decode req.path dav.directory ≡ ok (some path)
      → fs.metadata w path ≡ none
      → call cipher read_size texts libraries fuel chance fs (with_links false) req w
        ≡ call cipher read_size texts libraries fuel chance fs (with_links true) req w
  unfolding call handle handle_path target_of
  call-missing path w e m = rw (e, handle, m) (ap answer_error (miss-same req.method path w))
