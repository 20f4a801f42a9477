-- ===== src/Davs/Webdav/Listing.antt =====
-- src/davs/webdav_server.rs: the search in a directory, and its zip archive. The files do not change
-- while they are read.
pub mod Transparent
use vestirust.Prelude.{
  Bool, true, false, not, Option, none, some, String, List, [], ◌∷◌, Result, ok, err, ◌>>=◌, ok_or,
  if◌then◌else◌,
}
use vestirust.Prelude.Texts.{concat, contains_text}
use vestirust.Davs.EncryptedStreamer.{copy_to}
use vestirust.Davs.EncryptedStreamer.Cipher.{Bytes, StreamCipher}
use vestirust.Davs.Streamer
use vestirust.Davs.Streamer.{ReadSize}
use vestirust.Davs.Webdav.Paths.{Fault, io_error, encode_uri}
use vestirust.Davs.Webdav.FilePath.{strip_prefix, file_name}
use vestirust.Davs.Webdav.FileSystem.{FileSystem}
use vestirust.Davs.Webdav.PathItem.{PathItem, Libraries, push_item, to_pathitem, base_name}
use vestirust.Davs.Webdav.Response.{text, stream, Response, with_header}
use vestirust.Davs.Webdav.SendFile.{buf_size}

module _ (libraries : Libraries) {World : Type 0} (fs : FileSystem World) (w : World) where
  matches_query : String → String → Bool
  matches_query query path =
      contains_text (libraries.to_lowercase (base_name path)) (libraries.to_lowercase query)

  -- one entry of the walk, before the rest of it
  query_entry :
      String
      → String
      → String
      → Bool
      → Option Bytes
      → String
      → Result Fault (List PathItem)
      → Result Fault (List PathItem)
  unfolding matches_query push_item
  query_entry path query directory allow_symlinks key entry rest =
      if not (matches_query query entry) then rest else (elim (fs.symlink_metadata w entry) [
        | none ↦ rest
        | some meta ↦ push_item (to_pathitem fs w entry path directory allow_symlinks key) rest
      ])

  query_loop :
      String
      → String
      → String
      → Bool
      → Option Bytes
      → List (Option String)
      → Result Fault (List PathItem)
  unfolding query_entry
  query_loop path query directory allow_symlinks key [] = ok []
  query_loop path query directory allow_symlinks key (none ∷ more) =
      query_loop path query directory allow_symlinks key more
  query_loop path query directory allow_symlinks key (some entry ∷ more) =
      query_entry path query directory allow_symlinks key entry
        (query_loop path query directory allow_symlinks key more)

  unfoldable pub handle_query_dir :
      String → String → String → Bool → Option Bytes → Response → Result Fault Response
  unfolding query_loop
  handle_query_dir path query directory allow_symlinks key res = do
    paths ← query_loop path query directory allow_symlinks key (fs.walk w path)
    json ← ok_or (libraries.paths_to_json paths) io_error
    ok (record res { body = text json })

-- The entries that were written, and whether the archive was closed.
abbrev pub Archived : Type 0
Archived = List (String × Bytes) × Bool

module _ {Encryptor Decryptor : Type 0} (cipher : StreamCipher Encryptor Decryptor) where
  -- what is copied into an entry of the archive
  unfoldable pub plain_content : Option Bytes → Bytes → Bytes × Bool
  plain_content none file = (file, true)
  plain_content (some key) file =
      let (written, result) = copy_to cipher key file in
      (written, elim result [ ok total ↦ true | err e ↦ false ])

  unfoldable pub add_entry : String → Bytes × Bool → Archived → Archived
  add_entry filename (bytes, false) rest = ((filename, bytes) ∷ [], false)
  add_entry filename (bytes, true) (entries, closed) = ((filename, bytes) ∷ entries, closed)

  module _ {World : Type 0} (fs : FileSystem World) (w : World) where
    zip_file : Option Bytes → String → String → Archived → Archived
    unfolding plain_content add_entry
    zip_file key path filename rest = elim (fs.open_file w path) [
      | none ↦ ([], false)
      | some file ↦ add_entry filename (plain_content key file) rest
    ]

    zip_entry : Option Bytes → String → String → Archived → Archived
    unfolding zip_file
    zip_entry key directory path rest = elim (fs.symlink_metadata w path) [
      | none ↦ rest
      | some meta ↦ if not meta.is_file then rest else (elim (strip_prefix path directory) [
        | none ↦ rest
        | some filename ↦ zip_file key path filename rest
      ])
    ]

    zip_loop : Option Bytes → String → List (Option String) → Archived
    unfolding zip_entry
    zip_loop key directory [] = ([], true)
    zip_loop key directory (none ∷ more) = zip_loop key directory more
    zip_loop key directory (some path ∷ more) =
        zip_entry key directory path (zip_loop key directory more)

    unfoldable pub zip_dir : Option Bytes → String → Archived
    unfolding zip_loop
    zip_dir key directory = zip_loop key directory (fs.walk w directory)

    unfoldable pub handle_zip_dir :
        Libraries → ReadSize → String → Bool → Option Bytes → Response → Result Fault Response
    handle_zip_dir libraries read_size path head_only key res = do
      filename ← ok_or (file_name path) io_error
      let res' : Response = with_header "content-type" "application/zip" (
          with_header "content-disposition"
            (concat
              ("attachment; filename=\"" ∷ encode_uri libraries.urlencode filename ∷ ".zip\"" ∷ []))
            res)
      let (entries, closed) = zip_dir key path
      ok (
          if head_only then res' else record res' {
            body =
                stream (Streamer.into_stream read_size buf_size (libraries.archive entries closed));
          })
