-- ===== src/Davs/Webdav/Upload.antt =====
-- src/davs/webdav_server.rs: uploads, deletions and new directories.
pub mod Footprint
pub mod Created
use vestirust.Prelude.{
  ℕ, Bool, true, false, ◌&&◌, Option, none, some, String, Result, ok, err, if◌then◌else◌,
}
use vestirust.Prelude.Slices.{take}
use vestirust.Model.{StatusCode}
use vestirust.Davs.EncryptedStreamer.{copy_from}
use vestirust.Davs.EncryptedStreamer.Cipher.{Bytes, StreamCipher, Reader, IoError}
use vestirust.Davs.Webdav.Paths.{Fault, io_error}
use vestirust.Davs.Webdav.FilePath.{parent}
use vestirust.Davs.Webdav.FileSystem.{FileSystem}
use vestirust.Davs.Webdav.Response.{Response, status_forbid, status_no_content}

-- What a request draws: the nonce of an upload, the uuid and the time of a lock, and how many bytes
-- `io::copy` has written when the body fails.
pub record Chance : Type 0 where
  pub nonce : Bytes
  pub uuid : String
  pub timestamp : String
  pub flushed : ℕ

-- a call with `?`, and what is answered if it succeeded
unfoldable pub done_or_error :
    {World : Type 0} → World × Bool → Response → World × Result Fault Response
done_or_error (w, true) res = (w, ok res)
done_or_error (w, false) res = (w, err io_error)

module _ {Encryptor Decryptor : Type 0} (cipher : StreamCipher Encryptor Decryptor)
    (chance : Chance) where
  written_ok : Bytes × Result IoError ℕ → Bytes × Bool
  written_ok (bytes, ok total) = (bytes, true)
  written_ok (bytes, err e) = (bytes, false)

  -- what is written to the file, and whether all of the body is
  unfoldable pub stored : Option Bytes → Reader → Bytes × Bool
  unfolding written_ok
  stored (some key) body = written_ok (copy_from cipher key chance.nonce body)
  stored none body =
      if body.fails then (take chance.flushed body.bytes, false) else (body.bytes, true)

  module _ {World : Type 0} (fs : FileSystem World) where
    unfoldable pub ensure_path_parent : String → World → World × Bool
    ensure_path_parent path w = elim (parent path) [
      | none ↦ (w, true)
      | some directory ↦ elim (fs.symlink_metadata w directory) [
        | some meta ↦ (w, true)
        | none ↦ fs.create_dir_all directory w
      ]
    ]

    -- after the file was created, and after its parent was
    fill_created :
        String → Option Bytes → Reader → Response → World × Bool → World × Result Fault Response
    fill_created path key body res (w, false) = (w, ok (status_forbid res))
    fill_created path key body res (w, true) =
        let (bytes, whole) = stored key body in
        let (w', written) = fs.write_all path bytes w in
        done_or_error (w', written && whole) (record res { status = StatusCode.created })

    create_and_fill :
        String → Option Bytes → Reader → Response → World × Bool → World × Result Fault Response
    unfolding fill_created done_or_error
    create_and_fill path key body res (w, false) = (w, err io_error)
    create_and_fill path key body res (w, true) = fill_created path key body res (fs.create path w)

    unfoldable pub handle_upload :
        String → Option Bytes → Reader → Response → World → World × Result Fault Response
    unfolding ensure_path_parent create_and_fill
    handle_upload path key body res w =
        create_and_fill path key body res (ensure_path_parent path w)

module _ {World : Type 0} (fs : FileSystem World) where
  unfoldable pub handle_delete : String → Bool → Response → World → World × Result Fault Response
  unfolding done_or_error
  handle_delete path is_dir res w =
      done_or_error (if is_dir then fs.remove_dir_all path w else fs.remove_file path w)
        (status_no_content res)

  created_or_conflict : World × Bool → Response → World × Result Fault Response
  created_or_conflict (w, true) res = (w, ok (record res { status = StatusCode.created }))
  created_or_conflict (w, false) res = (w, ok (record res { status = StatusCode.conflict }))

  unfoldable pub handle_mkcol : String → Response → World → World × Result Fault Response
  unfolding created_or_conflict
  handle_mkcol path res w = created_or_conflict (fs.create_dir path w) res
