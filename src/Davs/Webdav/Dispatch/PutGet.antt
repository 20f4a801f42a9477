-- ===== src/Davs/Webdav/Dispatch/PutGet.antt =====
-- What a GET request gets of a file that a PUT request stored.
use vestirust.Prelude.{ℕ, ◌/◌, ◌<◌, true, false, some, String, ◌≡◌, ok, length}
use vestirust.Model.{Dav}
use vestirust.Davs.EncryptedStreamer.Position.{plain_chunk_size, nonce_size}
use vestirust.Davs.EncryptedStreamer.Cipher.{
  Bytes, StreamCipher, IsStream, counter_max, file_reader,
}
use vestirust.Davs.Streamer.{ReadSize, IsRead}
use vestirust.Davs.Webdav.Paths.{extract_path}
use vestirust.Davs.Webdav.FilePath.{file_name}
use vestirust.Davs.Webdav.FileSystem.{FileSystem, Metadata}
use vestirust.Davs.Webdav.PathItem.{Libraries}
use vestirust.Davs.Webdav.Response.{Response}
use vestirust.Davs.Webdav.Upload.{Chance, stored}
use vestirust.Davs.Webdav.Upload.Created.{IsCreated}
use vestirust.Davs.Webdav.SendFile.{Texts}
use vestirust.Davs.Webdav.SendFile.Whole.{IsDated, HasContent}
use vestirust.Davs.Webdav.Dispatch.{Request, call}
use vestirust.Davs.Webdav.Dispatch.Footprint.{IsInside}
use vestirust.Davs.Webdav.Dispatch.Get.{
  get_request, stored-Serves, stored-content_size, handle_path-whole, call-handle_path,
}
use vestirust.Davs.Webdav.Dispatch.Put.{put_request, call-IsCreated}

-- The documented behaviour of a file system at a path: what was written to a file that was just
-- created is in it, and its metadata are those of a file with that many bytes and with a time that is
-- not before 1970, if the system knows it.
pub record Stores {World : Type 0} (fs : FileSystem World) (path : String) : Type 0 where
  pub meta : World → Metadata
  pub read_back :
      (bytes : Bytes) (w w₁ w₂ : World)
      → fs.create path w ≡ (w₁, true)
      → fs.write_all path bytes w₁ ≡ (w₂, true)
      → (fs.open_file w₂ path ≡ some bytes)
        × (fs.metadata w₂ path ≡ some (meta w₂))
        × ((meta w₂).is_dir ≡ false)
        × ((meta w₂).is_file ≡ true)
        × ((meta w₂).len ≡ length bytes)
        × IsDated (meta w₂).modified

module _ {Encryptor Decryptor : Type 0} {cipher : StreamCipher Encryptor Decryptor}
    (chance : Chance) (streams : (key : Bytes) → IsStream cipher key chance.nonce)
    (nonce : length chance.nonce ≡ nonce_size) {read_size : ReadSize} (reads : IsRead read_size)
    (texts : Texts) (libraries : Libraries) (fuel : ℕ) {World : Type 0} (fs : FileSystem World)
    (dav : Dav) (req : Request) (path name : String) (stores : Stores fs path) where
  call-whole :
      (bytes : Bytes) (w w₁ w₂ : World)
      → extract_path libraries.decode req.path dav.directory ≡ ok (some path)
      → file_name path ≡ some name
      → length bytes / plain_chunk_size < counter_max
      → fs.create path w ≡ (w₁, true)
      → fs.write_all path (stored cipher chance dav.key (file_reader bytes)).0 w₁ ≡ (w₂, true)
      → IsInside fs dav w₂ path
      → (sent : Response) × (call cipher read_size texts libraries fuel chance fs dav
            (get_request req)
            w₂
          ≡ (w₂, ok sent))
        × HasContent bytes sent
  call-whole bytes w w₁ w₂ e n h c k i =
      let file : Bytes = (stored cipher chance dav.key (file_reader bytes)).0 in
      let (o, m, d, f, l, dated) = stores.read_back file w w₁ w₂ c k in
      let (sent, got, content) =
        handle_path-whole chance streams nonce reads texts libraries fuel fs dav req path name bytes
          file (stores.meta w₂) w₂ i n o m d f dated
          (rw l (stored-content_size chance streams nonce reads texts dav.key bytes h))
          (stored-Serves chance streams nonce reads texts dav.key bytes h) in
      (
        sent,
        call-handle_path cipher read_size texts libraries fuel chance fs dav (get_request req) path
            w₂ w₂ sent e got,
        content,
      )

  -- On a file system that gives back what was written to a file and dates it no earlier than 1970,
  -- with a cipher as documented and a nonce of 19 bytes, for a request whose path has a name and
  -- content that needs no more chunks than the counter allows: if the PUT of the content is
  -- answered with 201, and what is then at the path is no link out of the directory or links are
  -- allowed, a GET of the same path without conditions leaves the files as they are and is answered
  -- with 200, the content, and its length, whether or not the dav has a key.
  pub call-put-get :
      (bytes : Bytes) (w : World)
      → extract_path libraries.decode req.path dav.directory ≡ ok (some path)
      → file_name path ≡ some name
      → length bytes / plain_chunk_size < counter_max
      → IsCreated
          (call cipher read_size texts libraries fuel chance fs dav (put_request req bytes) w)
      → IsInside fs dav
          (call cipher read_size texts libraries fuel chance fs dav (put_request req bytes) w).0
          path
      → (let w' =
            (call cipher read_size texts libraries fuel chance fs dav
              (put_request req bytes)
              w).0 in
          (sent : Response) × (call cipher read_size texts libraries fuel chance fs dav
              (get_request req)
              w'
            ≡ (w', ok sent))
          × HasContent bytes sent)
  call-put-get bytes w e n h =
      call-IsCreated cipher chance read_size texts libraries fuel fs dav req bytes path
        (λ w'.
          IsInside fs dav w' path
          → (sent : Response) × (call cipher read_size texts libraries fuel chance fs dav
                (get_request req) w'
              ≡ (w', ok sent))
            × HasContent bytes sent)
        (λ w₀ w₁ w₂ c k i. call-whole bytes w₀ w₁ w₂ e n h c k i) w e
