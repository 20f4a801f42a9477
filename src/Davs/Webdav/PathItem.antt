-- ===== src/Davs/Webdav/PathItem.antt =====
-- src/davs/webdav_server.rs: `PathItem`, and the items of a directory.
pub mod Within
pub mod Shown
use vestirust.Prelude.{
  ℕ, ◌%◌, Bool, true, false, not, ◌&&◌, Option, none, some, String, List, [], ◌∷◌, Result, ok, err,
  ◌>>=◌, ok_or, if◌then◌else◌,
}
use vestirust.Prelude.Texts.{concat, decimal}
use vestirust.Prelude.Words.{u64_mod}
use vestirust.Davs.EncryptedStreamer.Position.{decrypted_size}
use vestirust.Davs.EncryptedStreamer.Cipher.{Bytes}
use vestirust.Davs.Webdav.Paths.{
  Fault, io_error, panicked, out_of_fuel, join, ends_with_slash, encode_uri,
}
use vestirust.Davs.Webdav.FilePath.{starts_with, strip_prefix, file_name}
use vestirust.Davs.Webdav.FileSystem.{FileSystem, Metadata, SystemTime, since_epoch, before_epoch}

pub data PathType : Type 0 where
  dir symlink_dir file symlink_file : PathType

pub record PathItem : Type 0 where
  pub path_type : PathType
  pub name : String
  pub mtime : ℕ
  pub size : Option ℕ

-- What the webdav server uses of other crates: percent-decoding to UTF-8, parsing an URI to its path,
-- lower case, the dates and the escapes of XML, JSON, percent-encoding, and the archive with these
-- entries, closed or not.
pub record Libraries : Type 0 where
  pub decode : String → Option String
  pub parse_uri_path : String → Option String
  pub to_lowercase : String → String
  pub rfc2822 : ℕ → String
  pub escape_pcdata : String → String
  pub paths_to_json : List PathItem → Option String
  pub urlencode : String → String
  pub archive : List (String × Bytes) → Bool → Bytes

-- A time before 1970 is a panic.
unfoldable pub to_timestamp : SystemTime → Result Fault ℕ
to_timestamp (since_epoch milliseconds) = ok (milliseconds % u64_mod)
to_timestamp (before_epoch milliseconds) = err panicked

-- the `match` on `(is_symlink, is_dir)`
path_type_of : Bool → Bool → PathType
path_type_of true true = PathType.symlink_dir
path_type_of false true = PathType.dir
path_type_of true false = PathType.symlink_file
path_type_of false false = PathType.file

size_of : PathType → Option Bytes → ℕ → Option ℕ
size_of PathType.dir key len = none
size_of PathType.symlink_dir key len = none
size_of PathType.file none len = some len
size_of PathType.file (some k) len = some (decrypted_size len)
size_of PathType.symlink_file none len = some len
size_of PathType.symlink_file (some k) len = some (decrypted_size len)

-- what becomes of `if let Ok(Some(item)) = … { paths.push(item) }`
unfoldable pub push_item :
    Result Fault (Option PathItem) → Result Fault (List PathItem) → Result Fault (List PathItem)
push_item (ok (some item)) rest = rest >>= λ items. ok (item ∷ items)
push_item (ok none) rest = rest
push_item (err io_error) rest = rest
push_item (err panicked) rest = err panicked
push_item (err out_of_fuel) rest = err out_of_fuel

module _ {World : Type 0} (fs : FileSystem World) (w : World) where
  unfoldable pub is_root_contained : String → String → Bool
  is_root_contained path directory = elim (fs.canonicalize w directory) [
    | none ↦ false
    | some root ↦ elim (fs.canonicalize w path) [
      | none ↦ false
      | some target ↦ starts_with target root
    ]
  ]

  -- the end of `to_pathitem`
  item_of : String → Metadata → Bool → Option Bytes → Result Fault (Option PathItem)
  unfolding path_type_of size_of to_timestamp
  item_of rel_path meta is_symlink key = do
    modified ← ok_or meta.modified io_error
    mtime ← to_timestamp modified
    let path_type = path_type_of is_symlink meta.is_dir
    ok (
        some (record {
          path_type = path_type;
          name = rel_path;
          mtime = mtime;
          size = size_of path_type key meta.len;
        }))

  unfoldable pub to_pathitem :
      String → String → String → Bool → Option Bytes → Result Fault (Option PathItem)
  unfolding is_root_contained item_of
  to_pathitem path base_path directory allow_symlinks key = do
    rel_path ← ok_or (strip_prefix path base_path) panicked
    meta ← ok_or (fs.metadata w path) io_error
    link ← ok_or (fs.symlink_metadata w path) io_error
    if not allow_symlinks && link.is_symlink && not (is_root_contained path directory)
        then ok none
        else item_of rel_path meta link.is_symlink key

  -- the loop of `list_dir`, which ends at an entry that fails
  list_entries :
      String
      → String
      → String
      → Bool
      → Option Bytes
      → List (Option String)
      → Result Fault (List PathItem)
  unfolding push_item
  list_entries entry_path base_path directory allow_symlinks key [] = ok []
  list_entries entry_path base_path directory allow_symlinks key (none ∷ rest) = ok []
  list_entries entry_path base_path directory allow_symlinks key (some name ∷ rest) =
      push_item (to_pathitem (join entry_path name) base_path directory allow_symlinks key)
        (list_entries entry_path base_path directory allow_symlinks key rest)

  unfoldable pub list_dir :
      String → String → String → Bool → Option Bytes → Result Fault (List PathItem)
  unfolding list_entries
  list_dir entry_path base_path directory allow_symlinks key = do
    entries ← ok_or (fs.read_dir w entry_path) io_error
    list_entries entry_path base_path directory allow_symlinks key entries

-- `PathItem::is_dir`
is_dir : PathType → Bool
is_dir PathType.dir = true
is_dir PathType.symlink_dir = true
is_dir PathType.file = false
is_dir PathType.symlink_file = false

unfoldable pub base_name : String → String
base_name name = elim (file_name name) [ none ↦ "" | some last ↦ last ]

module _ (libraries : Libraries) where
  href_of : String → PathItem → String
  unfolding is_dir
  href_of prefix item =
      let href = encode_uri libraries.urlencode (concat (prefix ∷ item.name ∷ [])) in
      if is_dir item.path_type && not (ends_with_slash href) then concat (href ∷ "/" ∷ []) else href

  unfoldable pub to_dav_xml : String → PathItem → String
  unfolding href_of
  to_dav_xml prefix item =
      let mtime = libraries.rfc2822 item.mtime in
      let href = href_of prefix item in
      let displayname = libraries.escape_pcdata (base_name item.name) in
      let shown_size = decimal (elim item.size [ none ↦ 0 | some size ↦ size ]) in
      if is_dir item.path_type
      then concat (
          "<D:response>\n<D:href>" ∷ href ∷ "</D:href>\n<D:propstat>\n<D:prop>\n<D:displayname>"
          ∷ displayname ∷ "</D:displayname>\n<D:getlastmodified>" ∷ mtime
          ∷ "</D:getlastmodified>\n<D:resourcetype><D:collection/></D:resourcetype>\n</D:prop>\n<D:status>HTTP/1.1 200 OK</D:status>\n</D:propstat>\n</D:response>"
          ∷ [])
      else concat (
          "<D:response>\n<D:href>" ∷ href ∷ "</D:href>\n<D:propstat>\n<D:prop>\n<D:displayname>"
          ∷ displayname ∷ "</D:displayname>\n<D:getcontentlength>" ∷ shown_size
          ∷ "</D:getcontentlength>\n<D:getlastmodified>" ∷ mtime
          ∷ "</D:getlastmodified>\n<D:resourcetype></D:resourcetype>\n</D:prop>\n<D:status>HTTP/1.1 200 OK</D:status>\n</D:propstat>\n</D:response>"
          ∷ [])
