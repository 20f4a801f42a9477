-- ===== src/Davs/Webdav/Upload/Created.antt =====
-- What an upload that is answered with 201 has done.
use vestirust.Prelude.{ℕ, some, Bool, true, false, Option, String, ◌≡◌, refl, Result, ok, err, ◌&&◌}
use vestirust.Model.{StatusCode}
use vestirust.Davs.EncryptedStreamer.Cipher.{Bytes, IoError, StreamCipher, Reader}
use vestirust.Davs.EncryptedStreamer.{copy_from}
use vestirust.Davs.Webdav.Paths.{Fault}
use vestirust.Davs.Webdav.FileSystem.{FileSystem}
use vestirust.Davs.Webdav.Response.{Response, default_response, status_forbid}
use vestirust.Davs.Webdav.Upload.{
  Chance, written_ok, stored, done_or_error, ensure_path_parent, fill_created, create_and_fill,
  handle_upload,
}

-- The answer has the status 201.
abbrev pub IsCreated : {World : Type 0} → World × Result Fault Response → Type 0
IsCreated (w, ok res) = res.status ≡ StatusCode.created
IsCreated (w, err e) = ⊥

module _ {Encryptor Decryptor : Type 0} (cipher : StreamCipher Encryptor Decryptor)
    (chance : Chance) where
  written_ok-bytes : (r : Bytes × Result IoError ℕ) → (written_ok cipher chance r).0 ≡ r.0
  unfolding written_ok
  written_ok-bytes (bytes, ok total) = refl
  written_ok-bytes (bytes, err e) = refl

  -- With a key, what `copy_from` writes is stored.
  pub stored-copy_from :
      (key : Bytes) (body : Reader)
      → (stored cipher chance (some key) body).0 ≡ (copy_from cipher key chance.nonce body).0
  unfolding stored
  stored-copy_from key body = written_ok-bytes (copy_from cipher key chance.nonce body)

module _ {Encryptor Decryptor : Type 0} (cipher : StreamCipher Encryptor Decryptor)
    (chance : Chance) {World : Type 0} (fs : FileSystem World) (path : String) (key : Option Bytes)
    (body : Reader) (P : World → Type 0)
    (filled : (w w₁ w₂ : World)
      → fs.create path w ≡ (w₁, true)
      → fs.write_all path (stored cipher chance key body).0 w₁ ≡ (w₂, true)
      → P w₂) where
  written-IsCreated :
      (w w₁ : World) (r : World × Bool) (whole : Bool) (res : Response)
      → fs.create path w ≡ (w₁, true)
      → fs.write_all path (stored cipher chance key body).0 w₁ ≡ r
      → IsCreated (done_or_error (r.0, r.1 && whole) res)
      → P (done_or_error (r.0, r.1 && whole) res).0
  unfolding done_or_error
  written-IsCreated w w₁ (w₂, true) true res e k h = filled w w₁ w₂ e k
  written-IsCreated w w₁ (w₂, true) false res e k h = absurd h
  written-IsCreated w w₁ (w₂, false) whole res e k h = absurd h

  fill_created-IsCreated :
      (w : World) (r : World × Bool)
      → fs.create path w ≡ r
      → IsCreated (fill_created cipher chance fs path key body default_response r)
      → P (fill_created cipher chance fs path key body default_response r).0
  unfolding fill_created status_forbid
  fill_created-IsCreated w (w₁, false) e h = cc
  fill_created-IsCreated w (w₁, true) e h =
      written-IsCreated w w₁ (fs.write_all path (stored cipher chance key body).0 w₁)
        (stored cipher chance key body).1 _ e refl h

  create_and_fill-IsCreated :
      (r : World × Bool)
      → IsCreated (create_and_fill cipher chance fs path key body default_response r)
      → P (create_and_fill cipher chance fs path key body default_response r).0
  unfolding create_and_fill
  create_and_fill-IsCreated (w, false) h = absurd h
  create_and_fill-IsCreated (w, true) h = fill_created-IsCreated w (fs.create path w) refl h

  -- The file was created, and what is stored of the body was written to it.
  pub handle_upload-IsCreated :
      (w : World)
      → IsCreated (handle_upload cipher chance fs path key body default_response w)
      → P (handle_upload cipher chance fs path key body default_response w).0
  unfolding handle_upload
  handle_upload-IsCreated w h =
      create_and_fill-IsCreated (ensure_path_parent cipher chance fs path w) h
