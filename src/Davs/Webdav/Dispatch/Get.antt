-- ===== src/Davs/Webdav/Dispatch/Get.antt =====
-- What a GET request without conditions gets of a file.
use vestirust.Prelude.{
  ℕ, ◌/◌, ◌<◌, Bool, true, false, not, ◌&&◌, Option, none, some, String, ◌≡◌, refl, ok, inl, inr,
  length, arith, ap, ◌∙◌,
}
use vestirust.Model.{Dav}
use vestirust.Davs.EncryptedStreamer.Position.{plain_chunk_size, nonce_size}
use vestirust.Davs.EncryptedStreamer.Cipher.{
  Bytes, StreamCipher, IsStream, counter_max, file_reader,
}
use vestirust.Davs.Streamer.{ReadSize, IsRead}
use vestirust.Davs.Webdav.Paths.{extract_path}
use vestirust.Davs.Webdav.FilePath.{file_name}
use vestirust.Davs.Webdav.FileSystem.{FileSystem, Metadata}
use vestirust.Davs.Webdav.PathItem.{Libraries, is_root_contained}
use vestirust.Davs.Webdav.Response.{Response}
use vestirust.Davs.Webdav.Upload.{Chance, stored}
use vestirust.Davs.Webdav.Upload.Created.{stored-copy_from}
use vestirust.Davs.Webdav.SendFile.{Texts, content_size, handle_send_file}
use vestirust.Davs.Webdav.SendFile.Slices.{Serves, Serves-plain}
use vestirust.Davs.Webdav.SendFile.Transparent.{content_size-copy_from, Serves-encrypted}
use vestirust.Davs.Webdav.SendFile.Whole.{
  no_conditions, IsDated, HasContent, handle_send_file-whole,
}
use vestirust.Davs.Webdav.Dispatch.{
  Request, Method, Target, target_of, handle_get, handle_method, handle_path, handle, answer_error,
  call,
}
use vestirust.Davs.Webdav.PathItem.Within.{IsWithin-contained}
use vestirust.Davs.Webdav.Dispatch.Footprint.{IsInside}

-- A request for what is at the path, without conditions.
abbrev pub get_request : Request → Request
get_request req = record req { method = Method.get; conditions = no_conditions }

module _ {Encryptor Decryptor : Type 0} {cipher : StreamCipher Encryptor Decryptor}
    (chance : Chance) (streams : (key : Bytes) → IsStream cipher key chance.nonce)
    (nonce : length chance.nonce ≡ nonce_size) {read_size : ReadSize} (reads : IsRead read_size)
    (texts : Texts) where
  pub stored-Serves :
      (key : Option Bytes) (bytes : Bytes)
      → length bytes / plain_chunk_size < counter_max
      → Serves cipher read_size texts key (stored cipher chance key (file_reader bytes)).0 bytes
  unfolding stored
  stored-Serves none bytes h = Serves-plain cipher read_size texts reads bytes
  stored-Serves (some key) bytes h =
      rw (stored-copy_from cipher chance key (file_reader bytes))
        (Serves-encrypted (streams key) reads texts bytes nonce h)

  pub stored-content_size :
      (key : Option Bytes) (bytes : Bytes)
      → length bytes / plain_chunk_size < counter_max
      → content_size cipher read_size texts key
          (length (stored cipher chance key (file_reader bytes)).0)
        ≡ length bytes
  unfolding content_size stored
  stored-content_size none bytes h = refl
  stored-content_size (some key) bytes h =
      rw (stored-copy_from cipher chance key (file_reader bytes))
        (content_size-copy_from (streams key) reads texts bytes nonce h)

  module _ (libraries : Libraries) (fuel : ℕ) {World : Type 0} (fs : FileSystem World) (dav : Dav)
      (req : Request) where
    inside_guard :
        (path : String) (is_miss : Bool) (w : World)
        → IsInside fs dav w path
        → ¬ (fs.metadata w path ≡ none)
        → (not dav.allow_symlinks && not is_miss && not (is_root_contained fs w path dav.directory))
          ≡ false
    inside_guard path is_miss w (inl allowed) h = ground arith
    inside_guard path is_miss w (inr (inl miss)) h = absurd (h miss)
    inside_guard path is_miss w (inr (inr within)) h =
        let contained = IsWithin-contained fs w path dav.directory within in ground arith

    get_file :
        (path : String) (target : Target) (w : World)
        → target.is_dir ≡ false
        → target.is_file ≡ true
        → handle_method cipher read_size texts libraries fuel chance fs dav
            (get_request req)
            Method.get
            path
            target
            w
          ≡ (
            w,
            handle_send_file cipher read_size texts path
                (file_name path)
                (fs.open_file w path)
                (fs.metadata w path)
                no_conditions
                false
                dav.key,
          )
    unfolding handle_method handle_get
    get_file path target w d f = rw (d, f) refl

    pub handle_path-whole :
        (path name : String) (bytes file : Bytes) (meta : Metadata) (w : World)
        → IsInside fs dav w path
        → file_name path ≡ some name
        → fs.open_file w path ≡ some file
        → fs.metadata w path ≡ some meta
        → meta.is_dir ≡ false
        → meta.is_file ≡ true
        → IsDated meta.modified
        → content_size cipher read_size texts dav.key meta.len ≡ length bytes
        → Serves cipher read_size texts dav.key file bytes
        → (sent : Response) × (handle_path cipher read_size texts libraries fuel chance fs dav
              (get_request req)
              path
              w
            ≡ (w, ok sent))
          × HasContent bytes sent
    unfolding handle_path target_of
    handle_path-whole path name bytes file meta w i n o m d f dated size serves =
        let (sent, e, content) =
          handle_send_file-whole cipher read_size texts path name dav.key file bytes meta serves
            size dated in
        let target = target_of (fs.metadata w path) in
        let d' : target.is_dir ≡ false = rw m d in
        let f' : target.is_file ≡ true = rw m f in
        (
          sent,
          rw (inside_guard path target.is_miss w i (λ miss. cc))
              (get_file path target w d' f' ∙ ap (λ a. (w, a)) (rw (n, o, m) e)),
          content,
        )

module _ {Encryptor Decryptor : Type 0} (cipher : StreamCipher Encryptor Decryptor)
    (read_size : ReadSize) (texts : Texts) (libraries : Libraries) (fuel : ℕ) (chance : Chance)
    {World : Type 0} (fs : FileSystem World) (dav : Dav) (req : Request) where
  handle-handle_path :
      (path : String) (w : World)
      → extract_path libraries.decode req.path dav.directory ≡ ok (some path)
      → handle cipher read_size texts libraries fuel chance fs dav req w
        ≡ handle_path cipher read_size texts libraries fuel chance fs dav req path w
  unfolding handle
  handle-handle_path path w e = rw (e, handle) refl

  pub call-handle_path :
      (path : String) (w w' : World) (sent : Response)
      → extract_path libraries.decode req.path dav.directory ≡ ok (some path)
      → handle_path cipher read_size texts libraries fuel chance fs dav req path w ≡ (w', ok sent)
      → call cipher read_size texts libraries fuel chance fs dav req w ≡ (w', ok sent)
  unfolding call answer_error
  call-handle_path path w w' sent e got = ap answer_error (handle-handle_path path w e ∙ got)
