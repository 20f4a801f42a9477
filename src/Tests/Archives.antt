-- ===== src/Tests/Archives.antt =====
-- Runs of the theorems on the archive and the listing of a directory with one file in it.
use vestirust.Prelude.{◌≡◌, refl, ok, inl, true, false, some, none, [], ◌∷◌, arith}
use vestirust.Prelude.Texts.{concat}
use vestirust.Davs.EncryptedStreamer.Cipher.{Bytes, file_reader}
use vestirust.Davs.EncryptedStreamer.{copy_from}
use vestirust.Davs.Webdav.Paths.{is_absolute, join, split_slash, join_slash}
use vestirust.Davs.Webdav.FilePath.{strip_prefix, components}
use vestirust.Davs.Webdav.FileSystem.{FileSystem}
use vestirust.Davs.Webdav.PathItem.{PathItem, file, list_dir, to_pathitem}
use vestirust.Davs.Webdav.PathItem.Shown.{IsListed, list_dir-IsListed}
use vestirust.Davs.Webdav.Listing.{zip_dir}
use vestirust.Davs.Webdav.Listing.Transparent.{Encrypts, both, IsEncryption, zip_dir-encrypted}
use vestirust.Tests.Cipher.{counting_cipher, counting_cipher-IsStream}
use vestirust.Tests.Files.{OneFile, one_file, chance, file_metadata, content}

abbrev key : Bytes
key = 1 ∷ 2 ∷ 3 ∷ []

-- Every path leads to the file.
abbrev with_file : Bytes → FileSystem OneFile
with_file bytes = record one_file {
  symlink_metadata = λ w path. some (file_metadata 5);
  open_file = λ w path. some bytes;
  walk = λ w path. some "/srv/a" ∷ [];
}

abbrev encrypted : FileSystem OneFile
encrypted = with_file (copy_from counting_cipher key chance.nonce (file_reader content)).0

is_encryption : IsEncryption (counting_cipher-IsStream key) encrypted (with_file content) none
is_encryption = record {
  same_walk = λ directory. refl;
  same_kind = λ path. both (file_metadata 5) (file_metadata 5) refl;
  files = λ path. Encrypts.content content chance.nonce refl (omega arith);
}

zip_dir-encrypted_example :
    zip_dir counting_cipher encrypted none (some key) "/srv" ≡ (("a", content) ∷ [], true)
unfolding zip_dir strip_prefix components is_absolute split_slash join_slash
zip_dir-encrypted_example =
    zip_dir-encrypted (counting_cipher-IsStream key) encrypted (with_file content) none "/srv"
      is_encryption

-- The directory has the file as its entry.
abbrev with_entry : FileSystem OneFile
with_entry = record (with_file content) { read_dir = λ w path. some (some "a" ∷ []) }

abbrev entry_item : PathItem
entry_item = record { path_type = file; name = "a"; mtime = 1000; size = some 5 }

listed :
    list_dir with_entry (some ("/srv/a", content)) "/srv" "/srv" "/srv" false none
    ≡ ok (entry_item ∷ [])
unfolding list_dir to_pathitem strip_prefix components is_absolute join concat split_slash
    join_slash
listed = refl

list_dir-IsListed_example :
    IsListed with_entry (some ("/srv/a", content)) "/srv" "/srv" "/srv" none entry_item
list_dir-IsListed_example =
    list_dir-IsListed with_entry (some ("/srv/a", content)) "/srv" "/srv" "/srv" none
      (entry_item ∷ []) entry_item listed (inl refl)
