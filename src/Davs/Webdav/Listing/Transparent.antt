-- ===== src/Davs/Webdav/Listing/Transparent.antt =====
-- The archive of a directory of encrypted files.
use vestirust.Prelude.{
  ◌/◌, ◌<◌, true, Option, none, some, String, List, [], ◌∷◌, ◌≡◌, refl, inl, inr, length,
  Bool-cases, Option-cases,
}
use vestirust.Davs.EncryptedStreamer.Position.{plain_chunk_size, nonce_size}
use vestirust.Davs.EncryptedStreamer.Cipher.{
  Bytes, StreamCipher, IsStream, counter_max, file_reader,
}
use vestirust.Davs.EncryptedStreamer.{copy_from}
use vestirust.Davs.EncryptedStreamer.Read.{copy_to-copy_from}
use vestirust.Davs.Webdav.FilePath.{strip_prefix}
use vestirust.Davs.Webdav.FileSystem.{FileSystem, Metadata}
use vestirust.Davs.Webdav.Listing.{Archived, plain_content, zip_file, zip_entry, zip_loop, zip_dir}

module _ {Encryptor Decryptor : Type 0} {cipher : StreamCipher Encryptor Decryptor} {key : Bytes}
    (streams : (nonce : Bytes) → IsStream cipher key nonce) where
  -- What the key's file system has at a path, against the plain one: nothing, or what `copy_from`
  -- writes of the content, with a nonce of its own.
  pub data Encrypts : Option Bytes → Option Bytes → Type 0 where
    nothing : Encrypts none none
    content :
        (bytes nonce : Bytes)
        → length nonce ≡ nonce_size
        → length bytes / plain_chunk_size < counter_max
        → Encrypts (some (copy_from cipher key nonce (file_reader bytes)).0) (some bytes)

  -- Both have nothing at a path, or neither, and agree on what is a file.
  pub data SameKind : Option Metadata → Option Metadata → Type 0 where
    nothing : SameKind none none
    both : (m m' : Metadata) → m.is_file ≡ m'.is_file → SameKind (some m) (some m')

  plain_content-copy_from :
      (bytes nonce : Bytes)
      → length nonce ≡ nonce_size
      → length bytes / plain_chunk_size < counter_max
      → plain_content cipher (some key) (copy_from cipher key nonce (file_reader bytes)).0
        ≡ (bytes, true)
  unfolding plain_content
  plain_content-copy_from bytes nonce h k =
      rw ((copy_to-copy_from (streams nonce) bytes h k).1) refl

  -- A file system with encrypted files, against one with their contents.
  pub record IsEncryption {World : Type 0} (encrypted plain : FileSystem World) (w : World)
      : Type 0 where
    pub same_walk : (directory : String) → encrypted.walk w directory ≡ plain.walk w directory
    pub same_kind :
        (path : String)
        → SameKind (encrypted.symlink_metadata w path) (plain.symlink_metadata w path)
    pub files : (path : String) → Encrypts (encrypted.open_file w path) (plain.open_file w path)

  module _ {World : Type 0} (encrypted plain : FileSystem World) (w : World) where
    zip_file-same :
        {o' o : Option Bytes} (path filename : String) (rest : Archived)
        → Encrypts o' o
        → encrypted.open_file w path ≡ o'
        → plain.open_file w path ≡ o
        → zip_file cipher encrypted w (some key) path filename rest
          ≡ zip_file cipher plain w none path filename rest
    unfolding zip_file
    zip_file-same path filename rest nothing e' e = rw (e', zip_file) (rw (e, zip_file) refl)
    zip_file-same path filename rest (content bytes nonce h k) e' e =
        rw (e', zip_file)
          (rw (e, zip_file) (rw (plain_content-copy_from bytes nonce h k, plain_content) refl))

    zip_entry-same :
        {m' m : Option Metadata} (directory path : String) (rest : Archived)
        → IsEncryption encrypted plain w
        → SameKind m' m
        → encrypted.symlink_metadata w path ≡ m'
        → plain.symlink_metadata w path ≡ m
        → zip_entry cipher encrypted w (some key) directory path rest
          ≡ zip_entry cipher plain w none directory path rest
    unfolding zip_entry
    zip_entry-same directory path rest s nothing e' e = rw (e', zip_entry) (rw (e, zip_entry) refl)
    zip_entry-same directory path rest s (both m' m same) e' e = elim (Bool-cases m.is_file) [
      | inr f ↦ rw (e', zip_entry) (rw (e, zip_entry) (rw (same, f) refl))
      | inl f ↦ elim (Option-cases (strip_prefix path directory)) [
        | inl k ↦ rw (e', zip_entry) (rw (e, zip_entry) (rw (same, f) (rw k refl)))
        | inr (filename, k) ↦
            rw (e', zip_entry)
              (rw (e, zip_entry)
                (rw (same, f) (rw k (zip_file-same path filename rest (s.files path) refl refl))))
      ]
    ]

    zip_loop-same :
        (directory : String) (entries : List (Option String))
        → IsEncryption encrypted plain w
        → zip_loop cipher encrypted w (some key) directory entries
          ≡ zip_loop cipher plain w none directory entries
    unfolding zip_loop
    zip_loop-same directory [] s = refl
    zip_loop-same directory (none ∷ more) s = zip_loop-same directory more s
    zip_loop-same directory (some path ∷ more) s = rw (zip_loop-same directory more s) (
        zip_entry-same directory path (zip_loop cipher plain w none directory more) s
          (s.same_kind path) refl refl)

    -- With a cipher as documented, the archive of a directory whose files are encrypted with the key,
    -- each by `copy_from` with a nonce of 19 bytes of its own and with content that needs no more
    -- chunks than the counter allows, has the same entries, and is closed or broken off as the archive
    -- that is made without a key of a directory with the contents.
    pub zip_dir-encrypted :
        (directory : String)
        → IsEncryption encrypted plain w
        → zip_dir cipher encrypted w (some key) directory ≡ zip_dir cipher plain w none directory
    unfolding zip_dir
    zip_dir-encrypted directory s =
        rw (s.same_walk directory) (zip_loop-same directory (plain.walk w directory) s)
