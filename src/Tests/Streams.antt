-- ===== src/Tests/Streams.antt =====
-- Runs of the theorems on the files that are sent, encrypted and not.
use vestirust.Prelude.{
  ◌/◌, ◌<◌, ◌≡◌, refl, none, some, [], ◌∷◌, ok, length, arith, false, Option, ℕ, zero, suc, ◌+◌,
  ◌*◌, ◌++◌,
}
use vestirust.Prelude.Slices.{take, drop}
use vestirust.Davs.EncryptedStreamer.Position.{plain_chunk_size, encrypted_chunk_size, nonce_size}
use vestirust.Davs.EncryptedStreamer.Cipher.{Bytes, counter_max, file_reader}
use vestirust.Davs.EncryptedStreamer.{collect, copy_from, copy_to}
use vestirust.Davs.EncryptedStreamer.Format.{Sealed}
use vestirust.Davs.EncryptedStreamer.Write.{copy_from-Sealed}
use vestirust.Davs.Streamer
use vestirust.Davs.Streamer.Laws.{into_stream-collect}
use vestirust.Davs.EncryptedStreamer.Read.{copy_to-copy_from}
use vestirust.Davs.EncryptedStreamer.Streams
use vestirust.Davs.EncryptedStreamer.Streams.Cut.{into_stream-whole_or_cut}
use vestirust.Davs.EncryptedStreamer.Streams.Seek.{into_stream_sized-copy_from}
use vestirust.Davs.Webdav.Ranges.{RangeValue}
use vestirust.Davs.Webdav.Response.{Response, default_response}
use vestirust.Davs.Webdav.SendFile.{Texts, send_content, content_size}
use vestirust.Davs.Webdav.SendFile.Slices.{Yields, IsInFile}
use vestirust.Davs.Webdav.SendFile.Transparent.{Head, send_content-encrypted}
use vestirust.Tests.Cipher.{counting_cipher, counting_cipher-IsStream, reads_all, reads_all-IsRead}

abbrev key : Bytes
key = 1 ∷ 2 ∷ 3 ∷ []

abbrev nonce : Bytes
nonce = 1 ∷ 2 ∷ 3 ∷ 4 ∷ 5 ∷ 6 ∷ 7 ∷ 8 ∷ 9 ∷ 10 ∷ 11 ∷ 12 ∷ 13 ∷ 14 ∷ 15 ∷ 16 ∷ 17 ∷ 18 ∷ 19 ∷ []

abbrev bytes : Bytes
bytes = 104 ∷ 101 ∷ 108 ∷ 108 ∷ 111 ∷ []

abbrev file : Bytes
file = (copy_from counting_cipher key nonce (file_reader bytes)).0

few_chunks : length bytes / plain_chunk_size < counter_max
few_chunks = omega arith

copy_from-Sealed_example :
    (c : Bytes) × Sealed (counting_cipher-IsStream key nonce) 0 bytes c
    × (copy_from counting_cipher key nonce (file_reader bytes) ≡ (nonce ++ c, ok 5))
copy_from-Sealed_example = copy_from-Sealed (counting_cipher-IsStream key nonce) bytes few_chunks

into_stream-collect_example :
    (collect (Streamer.into_stream reads_all 2 bytes) ≡ ok bytes)
    × (collect (Streamer.into_stream_sized reads_all 2 bytes 3) ≡ ok (take 3 bytes))
into_stream-collect_example = into_stream-collect reads_all-IsRead 2 bytes 3 (omega arith)

copy_to-copy_from_example :
    ((copy_from counting_cipher key nonce (file_reader bytes)).1 ≡ ok 5)
    × (copy_to counting_cipher key file ≡ (bytes, ok 21))
copy_to-copy_from_example =
    copy_to-copy_from (counting_cipher-IsStream key nonce) bytes refl few_chunks

into_stream_sized-copy_from_example :
    collect (Streams.into_stream_sized counting_cipher key file 1 3) ≡ ok (101 ∷ 108 ∷ 108 ∷ [])
unfolding take drop
into_stream_sized-copy_from_example =
    into_stream_sized-copy_from (counting_cipher-IsStream key nonce) bytes 1 3 refl few_chunks
      (omega arith)

abbrev texts : Texts
texts = record { mime_guess = λ path. none; http_date = λ time. "now"; urlencode = λ text. text }

abbrev range : Option RangeValue
range = some (record { start = 1; end = some 3 })

range-IsInFile : IsInFile range (length bytes)
range-IsInFile = (omega arith, omega arith)

send_content-encrypted_example :
    (let encrypted : Response =
        send_content counting_cipher reads_all texts range
          (content_size counting_cipher reads_all texts (some key) (length file))
          false
          (some key)
          file
          default_response in
      let plain : Response =
        send_content counting_cipher reads_all texts range
          (content_size counting_cipher reads_all texts none (length bytes))
          false
          none
          bytes
          default_response in
      (Head counting_cipher reads_all texts encrypted ≡ Head counting_cipher reads_all texts plain)
      × Yields encrypted.body (101 ∷ 108 ∷ 108 ∷ [])
      × Yields plain.body (101 ∷ 108 ∷ 108 ∷ []))
unfolding take drop
send_content-encrypted_example =
    send_content-encrypted (counting_cipher-IsStream key nonce) reads_all-IsRead texts bytes range
      default_response refl few_chunks range-IsInFile

-- A content of one full chunk and 5 bytes, whose file is cut behind its first chunk.
unfoldable zeros : ℕ → Bytes
zeros zero = []
zeros (suc n) = 0 ∷ zeros n

length-zeros : (n : ℕ) → length (zeros n) ≡ n
unfolding zeros
length-zeros zero = refl
length-zeros (suc n) = omega (arith, length-zeros n)

into_stream-whole_or_cut_example :
    (collect (
        Streams.into_stream counting_cipher key
          (copy_from counting_cipher key nonce (file_reader (zeros 1_000_005))).0)
      ≡ ok (zeros 1_000_005))
    × (collect (
          Streams.into_stream counting_cipher key (
            take
              (nonce_size + 1 * encrypted_chunk_size)
              (copy_from counting_cipher key nonce (file_reader (zeros 1_000_005))).0))
        ≡ ok (take (1 * plain_chunk_size) (zeros 1_000_005)))
into_stream-whole_or_cut_example =
    into_stream-whole_or_cut (counting_cipher-IsStream key nonce) (zeros 1_000_005) 1 refl
      (omega (arith, length-zeros 1_000_005)) (omega (arith, length-zeros 1_000_005))
