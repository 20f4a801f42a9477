-- ===== src/Davs/Webdav/SendFile/Transparent.antt =====
-- What is sent of the content of a file, in a dav with a key and in one without. The entity tag, which is
-- made of the size on the disk, is a part of the response that `send_content` is given.
use vestirust.Prelude.{
  ℕ, ◌/◌, ◌<◌, ◌≡◌, refl, Bool, true, false, Option, none, some, ◌++◌, length, length-append, arith,
}
use vestirust.Prelude.Words.{u64_mod}
use vestirust.Davs.EncryptedStreamer.Position.{plain_chunk_size, nonce_size}
use vestirust.Davs.EncryptedStreamer.Sizes.{encrypted_size, decrypted_size-encrypted_size}
use vestirust.Davs.EncryptedStreamer.Cipher.{
  Bytes, StreamCipher, IsStream, counter_max, file_reader,
}
use vestirust.Davs.EncryptedStreamer.{copy_from}
use vestirust.Davs.EncryptedStreamer.Format.{length-Sealed}
use vestirust.Davs.EncryptedStreamer.Write.{copy_from-Sealed}
use vestirust.Davs.EncryptedStreamer.Streams.Whole.{into_stream-copy_from}
use vestirust.Davs.EncryptedStreamer.Streams.Seek.{into_stream_sized-copy_from}
use vestirust.Davs.Streamer.{ReadSize, IsRead}
use vestirust.Davs.Webdav.Ranges.{RangeValue, RangeAnswer, part, not_satisfiable, answer_range}
use vestirust.Davs.Webdav.Response.{empty, Response, with_header}
use vestirust.Davs.Webdav.SendFile.{
  Texts, whole_body, part_body, send_range, send_content, content_size,
}
use vestirust.Davs.Webdav.SendFile.Slices.{
  Yields, slice, IsInFile, Serves, Serves-plain, send_content-slice,
}

module _ {Encryptor Decryptor : Type 0} (cipher : StreamCipher Encryptor Decryptor)
    (read_size : ReadSize) (texts : Texts) where
  -- The response but for its body.
  abbrev pub Head : Response → Response
  Head res = record res { body = empty }

  send_range-Head :
      (answer : RangeAnswer) (size : ℕ) (head_only : Bool) (key key' : Option Bytes)
      (file file' : Bytes) (res : Response)
      → Head (send_range cipher read_size texts answer size head_only key file res)
        ≡ Head (send_range cipher read_size texts answer size head_only key' file' res)
  unfolding send_range with_header
  send_range-Head not_satisfiable size head_only key key' file file' res = refl
  send_range-Head (part start end n) size true key key' file file' res = refl
  send_range-Head (part start end n) size false key key' file file' res = refl

  send_content-Head :
      (range : Option RangeValue) (size : ℕ) (head_only : Bool) (key key' : Option Bytes)
      (file file' : Bytes) (res : Response)
      → Head (send_content cipher read_size texts range size head_only key file res)
        ≡ Head (send_content cipher read_size texts range size head_only key' file' res)
  unfolding send_content with_header
  send_content-Head none size true key key' file file' res = refl
  send_content-Head none size false key key' file file' res = refl
  send_content-Head (some range) size head_only key key' file file' res =
      send_range-Head (answer_range range size) size head_only key key' file file' res

module _ {Encryptor Decryptor : Type 0} {cipher : StreamCipher Encryptor Decryptor}
    {key nonce : Bytes} (s : IsStream cipher key nonce) {read_size : ReadSize}
    (reads : IsRead read_size) (texts : Texts) where
  -- The file that `copy_from` wrote has the size of its content.
  pub content_size-copy_from :
      (bytes : Bytes)
      → length nonce ≡ nonce_size
      → length bytes / plain_chunk_size < counter_max
      → content_size cipher read_size texts
          (some key)
          (length (copy_from cipher key nonce (file_reader bytes)).0)
        ≡ length bytes
  unfolding content_size
  content_size-copy_from bytes h k =
      let (c, sealed, e) = copy_from-Sealed s bytes k in
      let size : length (nonce ++ c) ≡ encrypted_size (length bytes) =
        omega (arith, length-append nonce c, length-Sealed s sealed) in
      rw (e, size) (decrypted_size-encrypted_size (length bytes) (omega arith))

  pub Serves-encrypted :
      (bytes : Bytes)
      → length nonce ≡ nonce_size
      → length bytes / plain_chunk_size < counter_max
      → Serves cipher read_size texts
          (some key)
          (copy_from cipher key nonce (file_reader bytes)).0
          bytes
  unfolding whole_body part_body
  Serves-encrypted bytes h k = record {
    whole = into_stream-copy_from s bytes h k;
    parts = λ start n le. into_stream_sized-copy_from s bytes start n h k le;
  }

  -- For content that needs no more chunks than the counter allows, a nonce of 19 bytes, and no range
  -- or one that starts in the content and does not end before its start: `send_content` makes of one
  -- and the same response so far, for the file that `copy_from` wrote with its key and for a file with
  -- the content itself without a key, two responses with the same status and headers, and with the
  -- same bytes and no error, those of the slice that the range names.
  pub send_content-encrypted :
      (bytes : Bytes) (range : Option RangeValue) (res : Response)
      → length nonce ≡ nonce_size
      → length bytes / plain_chunk_size < counter_max
      → IsInFile range (length bytes)
      → (let file : Bytes = (copy_from cipher key nonce (file_reader bytes)).0 in
          let encrypted : Response =
            send_content cipher read_size texts range
              (content_size cipher read_size texts (some key) (length file))
              false
              (some key)
              file
              res in
          let plain : Response =
            send_content cipher read_size texts range
              (content_size cipher read_size texts none (length bytes))
              false
              none
              bytes
              res in
          (Head cipher read_size texts encrypted ≡ Head cipher read_size texts plain)
          × Yields encrypted.body (slice range bytes)
          × Yields plain.body (slice range bytes))
  unfolding content_size
  send_content-encrypted bytes range res h k i =
      let bound : length bytes < u64_mod = omega arith in
      let file : Bytes = (copy_from cipher key nonce (file_reader bytes)).0 in
      rw (content_size-copy_from bytes h k) (
        send_content-Head cipher read_size texts range (length bytes) false (some key) none file
            bytes res,
        send_content-slice cipher read_size texts range (some key) file bytes res bound
            (Serves-encrypted bytes h k) i,
        send_content-slice cipher read_size texts range none bytes bytes res bound
            (Serves-plain cipher read_size texts reads bytes) i,
      )
