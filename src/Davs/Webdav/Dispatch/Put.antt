-- ===== src/Davs/Webdav/Dispatch/Put.antt =====
-- What a PUT request that is answered with 201 has done.
use vestirust.Prelude.{
  ℕ, Bool, true, false, not, ◌&&◌, ◌||◌, some, String, ◌≡◌, ok, err, if◌then◌else◌, ltb,
}
use vestirust.Model.{StatusCode, Dav}
use vestirust.Davs.EncryptedStreamer.Cipher.{Bytes, StreamCipher, file_reader}
use vestirust.Davs.Streamer.{ReadSize}
use vestirust.Davs.Webdav.Paths.{io_error, panicked, out_of_fuel, extract_path}
use vestirust.Davs.Webdav.FileSystem.{FileSystem}
use vestirust.Davs.Webdav.PathItem.{Libraries, is_root_contained}
use vestirust.Davs.Webdav.Response.{Response, default_response, status_forbid, status_not_found}
use vestirust.Davs.Webdav.Upload.{Chance, stored, handle_upload}
use vestirust.Davs.Webdav.Upload.Created.{IsCreated, handle_upload-IsCreated}
use vestirust.Davs.Webdav.SendFile.{Texts}
use vestirust.Davs.Webdav.Dispatch.{
  Request, Method, Answer, target_of, handle_put, handle_method, handle_path, handle, answer_error,
  call,
}

-- A request that puts the bytes at the path.
abbrev pub put_request : Request → Bytes → Request
put_request req bytes = record req { method = Method.put; body = file_reader bytes }

module _ {Encryptor Decryptor : Type 0} (cipher : StreamCipher Encryptor Decryptor)
    (chance : Chance) (read_size : ReadSize) (texts : Texts) (libraries : Libraries) (fuel : ℕ)
    {World : Type 0} (fs : FileSystem World) (dav : Dav) (req : Request) (bytes : Bytes)
    (path : String) (P : World → Type 0)
    (filled : (w w₁ w₂ : World)
      → fs.create path w ≡ (w₁, true)
      → fs.write_all path (stored cipher chance dav.key (file_reader bytes)).0 w₁ ≡ (w₂, true)
      → P w₂) where
  unless :
      (b : Bool) (w : World) (res : Response) (r : World × Answer)
      → ¬ (res.status ≡ StatusCode.created)
      → (IsCreated r → P r.0)
      → IsCreated (if b then (w, ok res) else r)
      → P (if b then (w, ok res) else r).0
  unless true w res r n k h = absurd (n h)
  unless false w res r n k h = k h

  handle_path-IsCreated :
      (w : World)
      → IsCreated (
          handle_path cipher read_size texts libraries fuel chance fs dav
            (put_request req bytes)
            path
            w)
      → P
          (handle_path cipher read_size texts libraries fuel chance fs dav
            (put_request req bytes)
            path
            w).0
  unfolding handle_path handle_method handle_put status_forbid status_not_found
  handle_path-IsCreated w =
      let target = target_of (fs.metadata w path) in
      let upload =
        handle_upload cipher chance fs path dav.key (file_reader bytes) default_response w in
      let refused = not dav.writable || (not dav.writable && target.is_file && ltb 0 target.size) in
      unless
        (not dav.allow_symlinks
          && not target.is_miss
          && not (is_root_contained fs w path dav.directory))
        w (status_not_found default_response)
        (if refused then (w, ok (status_forbid default_response)) else upload) (λ e. cc)
        (unless refused w (status_forbid default_response) upload (λ e. cc)
          (handle_upload-IsCreated cipher chance fs path dav.key (file_reader bytes) P filled w))

  answer_error-IsCreated :
      (r : World × Answer)
      → (IsCreated r → P r.0)
      → IsCreated (answer_error r)
      → P (answer_error r).0
  unfolding answer_error
  answer_error-IsCreated (w, ok res) k h = k h
  answer_error-IsCreated (w, err io_error) k h = cc
  answer_error-IsCreated (w, err panicked) k h = absurd h
  answer_error-IsCreated (w, err out_of_fuel) k h = absurd h

  pub call-IsCreated :
      (w : World)
      → extract_path libraries.decode req.path dav.directory ≡ ok (some path)
      → IsCreated
          (call cipher read_size texts libraries fuel chance fs dav (put_request req bytes) w)
      → P (call cipher read_size texts libraries fuel chance fs dav (put_request req bytes) w).0
  unfolding call handle
  call-IsCreated w e =
      answer_error-IsCreated
        (handle cipher read_size texts libraries fuel chance fs dav (put_request req bytes) w)
        (rw (e, handle) (handle_path-IsCreated w))
