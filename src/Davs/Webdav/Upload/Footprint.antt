-- ===== src/Davs/Webdav/Upload/Footprint.antt =====
-- Where uploads, deletions and new directories write.
use vestirust.Prelude.{Bool, true, false, Option, some, String, ◌≡◌, refl, inl, inr, Option-cases}
use vestirust.Davs.EncryptedStreamer.Cipher.{Bytes, StreamCipher, Reader}
use vestirust.Davs.Webdav.FilePath.{parent}
use vestirust.Davs.Webdav.FileSystem.{FileSystem, FsOp}
use vestirust.Davs.Webdav.FileSystem.Changes.{Changes, same, Changes-one, Changes-trans}
use vestirust.Davs.Webdav.Response.{Response}
use vestirust.Davs.Webdav.Upload.{
  Chance, done_or_error, stored, ensure_path_parent, fill_created, create_and_fill, handle_upload,
  handle_delete, created_or_conflict, handle_mkcol,
}

module _ {World : Type 0} where
  pub done_or_error-world : (r : World × Bool) (res : Response) → (done_or_error r res).0 ≡ r.0
  unfolding done_or_error
  done_or_error-world (w, true) res = refl
  done_or_error-world (w, false) res = refl

  created_or_conflict-world :
      (fs : FileSystem World) (r : World × Bool) (res : Response)
      → (created_or_conflict fs r res).0 ≡ r.0
  unfolding created_or_conflict
  created_or_conflict-world fs (w, true) res = refl
  created_or_conflict-world fs (w, false) res = refl

module _ {World : Type 0} {fs : FileSystem World} {P : String → Type 0} where
  pub handle_delete-Changes :
      (path : String) (is_dir : Bool) (res : Response) (w : World)
      → P path
      → Changes fs P w (handle_delete fs path is_dir res w).0
  unfolding handle_delete
  handle_delete-Changes path true res w h =
      rw (done_or_error-world (fs.remove_dir_all path w)) (Changes-one (FsOp.remove_dir_all path) h)
  handle_delete-Changes path false res w h =
      rw (done_or_error-world (fs.remove_file path w)) (Changes-one (FsOp.remove_file path) h)

  pub handle_mkcol-Changes :
      (path : String) (res : Response) (w : World)
      → P path
      → Changes fs P w (handle_mkcol fs path res w).0
  unfolding handle_mkcol
  handle_mkcol-Changes path res w h =
      rw (created_or_conflict-world fs (fs.create_dir path w))
        (Changes-one (FsOp.create_dir path) h)

  ensure_path_parent-Changes :
      {Encryptor Decryptor : Type 0} (cipher : StreamCipher Encryptor Decryptor) (chance : Chance)
      (path : String) (w : World)
      → ((directory : String) → parent path ≡ some directory → P directory)
      → Changes fs P w (ensure_path_parent cipher chance fs path w).0
  unfolding ensure_path_parent
  ensure_path_parent-Changes cipher chance path w h = elim (Option-cases (parent path)) [
    | inl e ↦ rw (e, ensure_path_parent) same
    | inr (directory, e) ↦ elim (Option-cases (fs.symlink_metadata w directory)) [
      | inl new ↦
          rw (e, ensure_path_parent)
            (rw new (Changes-one (FsOp.create_dir_all directory) (h directory e)))
      | inr (meta, there) ↦ rw (e, ensure_path_parent) (rw there same)
    ]
  ]

module _ {World : Type 0} {fs : FileSystem World} {P : String → Type 0}
    {Encryptor Decryptor : Type 0} (cipher : StreamCipher Encryptor Decryptor)
    (chance : Chance) where
  fill_created-Changes :
      (path : String) (key : Option Bytes) (body : Reader) (res : Response) (r : World × Bool)
      → P path
      → Changes fs P r.0 (fill_created cipher chance fs path key body res r).0
  unfolding fill_created
  fill_created-Changes path key body res (w, false) h = same
  fill_created-Changes path key body res (w, true) h =
      rw done_or_error-world (Changes-one (FsOp.write_all path (stored cipher chance key body).0) h)

  create_and_fill-Changes :
      (path : String) (key : Option Bytes) (body : Reader) (res : Response) (r : World × Bool)
      → P path
      → Changes fs P r.0 (create_and_fill cipher chance fs path key body res r).0
  unfolding create_and_fill
  create_and_fill-Changes path key body res (w, false) h = same
  create_and_fill-Changes path key body res (w, true) h =
      Changes-trans (Changes-one (FsOp.create path) h)
        (fill_created-Changes path key body res (fs.create path w) h)

  pub handle_upload-Changes :
      (path : String) (key : Option Bytes) (body : Reader) (res : Response) (w : World)
      → P path
      → ((directory : String) → parent path ≡ some directory → P directory)
      → Changes fs P w (handle_upload cipher chance fs path key body res w).0
  unfolding handle_upload
  handle_upload-Changes path key body res w h k =
      Changes-trans (ensure_path_parent-Changes cipher chance path w k)
        (create_and_fill-Changes path key body res (ensure_path_parent cipher chance fs path w) h)
