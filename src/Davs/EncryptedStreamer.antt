-- ===== src/Davs/EncryptedStreamer.antt =====
-- src/davs/encrypted_streamer.rs: a file is a nonce and the sealed chunks of its content.
-- A loop takes fuel, one more than the bytes left to read.
pub mod Position
pub mod Sizes
pub mod Cipher
pub mod Streams
pub mod Format
pub mod Write
pub mod Read
use vestirust.Prelude.{
  ℕ, zero, suc, ◌+◌, ◌-◌, ◌%◌, ◌^◌, Bool, true, false, not, Option, none, some, List, [], ◌∷◌, ◌++◌,
  Result, ok, err, ◌>>=◌, ok_or, length, ltb, ◌==◌, if◌then◌else◌,
}
use vestirust.Prelude.Slices.{take, drop}
use vestirust.Davs.EncryptedStreamer.Position.{
  plain_chunk_size, encrypted_chunk_size, nonce_size, ChunkedPosition, chunked_position,
}
use vestirust.Davs.EncryptedStreamer.Cipher.{
  Bytes, StreamCipher, IoError, read_error, unexpected_eof, encrypting, decrypting, panicked,
  out_of_fuel, Reader, read_chunk, file_reader,
}

-- `retrieve_nonce`: `read_exact` of the nonce, and the file after it
unfoldable pub retrieve_nonce : Bytes → Result IoError (Bytes × Bytes)
retrieve_nonce file =
    if ltb (length file) nonce_size
    then err unexpected_eof
    else ok (take nonce_size file, drop nonce_size file)

-- What a stream of results gives its consumer: all bytes, or the first error.
abbrev pub collect : List (Result IoError Bytes) → Result IoError Bytes
collect [] = ok []
collect (err e ∷ rest) = err e
collect (ok bytes ∷ rest) = collect rest >>= λ more. ok (bytes ++ more)

module _ {Encryptor Decryptor : Type 0} (cipher : StreamCipher Encryptor Decryptor) where
  -- What is written stays written when a later step fails, so it is returned beside the result.
  abbrev Written : Type 0
  Written = Bytes × Result IoError ℕ

  -- one round of the loop of `copy_from`, after the read
  copy_from_chunk :
      (Encryptor → Reader → Bytes → ℕ → Written) → Encryptor → Bytes × Reader → Bytes → ℕ → Written
  copy_from_chunk loop encryptor (buffer, reader) written total =
      if length buffer == plain_chunk_size
      then (elim (cipher.encrypt_next encryptor buffer) [
        | none ↦ (written, err encrypting)
        | some (ciphertext, encryptor') ↦ loop encryptor' reader (written ++ ciphertext) total
      ])
      else (elim (cipher.encrypt_last encryptor buffer) [
        | none ↦ (written, err encrypting)
        | some ciphertext ↦ (written ++ ciphertext, ok total)
      ])

  copy_from_loop : ℕ → Encryptor → Reader → Bytes → ℕ → Written
  unfolding copy_from_chunk
  copy_from_loop zero encryptor reader written total = (written, err out_of_fuel)
  copy_from_loop (suc fuel) encryptor reader written total =
      elim (read_chunk plain_chunk_size reader) [
        | err e ↦ (written, err e)
        | ok read ↦
            copy_from_chunk (copy_from_loop fuel) encryptor read written (total + length read.0)
      ]

  -- The nonce is drawn by the caller's random generator.
  unfoldable pub copy_from : Bytes → Bytes → Reader → Written
  unfolding copy_from_loop
  copy_from key nonce reader =
      copy_from_loop (suc (length reader.bytes)) (cipher.encryptor key nonce) reader nonce 0

  copy_to_chunk :
      (Decryptor → Reader → Bytes → ℕ → Written) → Decryptor → Bytes × Reader → Bytes → ℕ → Written
  copy_to_chunk loop decryptor (buffer, inner) written total =
      if length buffer == encrypted_chunk_size
      then (elim (cipher.decrypt_next decryptor buffer) [
        | none ↦ (written, err decrypting)
        | some (plaintext, decryptor') ↦ loop decryptor' inner (written ++ plaintext) total
      ])
      else if length buffer == 0
      then (written, ok total)
      else (elim (cipher.decrypt_last decryptor buffer) [
        | none ↦ (written, err decrypting)
        | some plaintext ↦ (written ++ plaintext, ok total)
      ])

  copy_to_loop : ℕ → Decryptor → Reader → Bytes → ℕ → Written
  unfolding copy_to_chunk
  copy_to_loop zero decryptor inner written total = (written, err out_of_fuel)
  copy_to_loop (suc fuel) decryptor inner written total =
      elim (read_chunk encrypted_chunk_size inner) [
        | err e ↦ (written, err e)
        | ok read ↦ copy_to_chunk (copy_to_loop fuel) decryptor read written (total + length read.0)
      ]

  -- The count is that of the ciphertext read.
  unfoldable pub copy_to : Bytes → Bytes → Written
  unfolding copy_to_loop retrieve_nonce
  copy_to key file = elim (retrieve_nonce file) [
    | err e ↦ ([], err e)
    | ok (nonce, body) ↦
        copy_to_loop (suc (length body)) (cipher.decryptor key nonce) (file_reader body) [] 0
  ]
