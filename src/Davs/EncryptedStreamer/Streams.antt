-- ===== src/Davs/EncryptedStreamer/Streams.antt =====
-- src/davs/encrypted_streamer.rs: `into_stream` and `into_stream_sized`. A stream is the list of what
-- it yields. `usize` has 64 bits.
pub mod Whole
pub mod Cut
mod Ranged
pub mod Seek
use vestirust.Prelude.{
  ℕ, zero, suc, ◌+◌, ◌-◌, ◌%◌, ◌^◌, true, false, none, some, List, [], ◌∷◌, Result, ok, err, length,
  ltb, ◌==◌, if◌then◌else◌,
}
use vestirust.Prelude.Slices.{take, drop}
use vestirust.Davs.EncryptedStreamer.Position.{
  encrypted_chunk_size, ChunkedPosition, chunked_position,
}
use vestirust.Davs.EncryptedStreamer.Cipher.{
  Bytes, StreamCipher, IoError, decrypting, panicked, out_of_fuel, Reader, read_chunk, file_reader,
}
use vestirust.Davs.EncryptedStreamer.{retrieve_nonce}

abbrev pub ByteStream : Type 0
ByteStream = List (Result IoError Bytes)

-- `plaintext.drain(0..n)`, which panics out of range
abbrev drain : ℕ → Bytes → Result IoError Bytes
drain n plaintext = if ltb (length plaintext) n then err panicked else ok (drop n plaintext)

-- the place in the stream where the next chunk is decrypted
pub record Cursor : Type 0 where
  pub counter : ℕ
  pub offset : ℕ
  pub remaining : ℕ

module _ {Encryptor Decryptor : Type 0} (cipher : StreamCipher Encryptor Decryptor) where
  stream_chunk : (Decryptor → Reader → ByteStream) → Decryptor → Bytes × Reader → ByteStream
  stream_chunk loop decryptor (buffer, inner) =
      if length buffer == encrypted_chunk_size
      then (elim (cipher.decrypt_next decryptor buffer) [
        | none ↦ err decrypting ∷ []
        | some (plaintext, decryptor') ↦ ok plaintext ∷ loop decryptor' inner
      ])
      else if length buffer == 0
      then []
      else (elim (cipher.decrypt_last decryptor buffer) [
        | none ↦ err decrypting ∷ []
        | some plaintext ↦ ok plaintext ∷ []
      ])

  stream_loop : ℕ → Decryptor → Reader → ByteStream
  unfolding stream_chunk
  stream_loop zero decryptor inner = err out_of_fuel ∷ []
  stream_loop (suc fuel) decryptor inner = elim (read_chunk encrypted_chunk_size inner) [
    | err e ↦ err e ∷ []
    | ok read ↦ stream_chunk (stream_loop fuel) decryptor read
  ]

  unfoldable pub into_stream : Bytes → Bytes → ByteStream
  unfolding stream_loop retrieve_nonce
  into_stream key file = elim (retrieve_nonce file) [
    | err e ↦ err e ∷ []
    | ok (nonce, body) ↦
        stream_loop (suc (length body)) (cipher.decryptor key nonce) (file_reader body)
  ]

  module _ (key nonce : Bytes) (start : ℕ) where
    -- only a stream that does not start at 0 drops the bytes before its start
    skip_offset : ℕ → Bytes → Result IoError Bytes
    skip_offset offset plaintext = if start == 0 then ok plaintext else drain offset plaintext

    -- a full chunk, decrypted and cut at its start
    sized_full : (Cursor → ByteStream) → Cursor → Result IoError Bytes → ByteStream
    sized_full loop at (err e) = err e ∷ []
    sized_full loop at (ok plaintext) =
        if ltb at.remaining (length plaintext)
        then ok (take at.remaining plaintext) ∷ []
        else ok plaintext
          ∷ loop (record {
            counter = at.counter + 1;
            offset = if start == 0 then at.offset else 0;
            remaining = at.remaining - length plaintext;
          })

    -- the last chunk
    sized_last : Cursor → Result IoError Bytes → ByteStream
    sized_last at (err e) = err e ∷ []
    sized_last at (ok plaintext) =
        ok (if ltb at.remaining (length plaintext) then take at.remaining plaintext else plaintext)
        ∷ []

    sized_chunk : (Reader → Cursor → ByteStream) → Cursor → Bytes × Reader → ByteStream
    unfolding skip_offset sized_full sized_last
    sized_chunk loop at (buffer, inner) =
        if length buffer == encrypted_chunk_size
        then (elim (cipher.decrypt key nonce (at.counter % 2 ^ 32) false buffer) [
          | none ↦ err decrypting ∷ []
          | some plaintext ↦ sized_full (loop inner) at (skip_offset at.offset plaintext)
        ])
        else if length buffer == 0
        then []
        else (elim (cipher.decrypt key nonce (at.counter % 2 ^ 32) true buffer) [
          | none ↦ err decrypting ∷ []
          | some plaintext ↦ sized_last at (skip_offset at.offset plaintext)
        ])

    pub sized_loop : ℕ → Reader → Cursor → ByteStream
    unfolding sized_chunk
    sized_loop zero inner at = err out_of_fuel ∷ []
    sized_loop (suc fuel) inner at =
        if at.remaining == 0 then [] else (elim (read_chunk encrypted_chunk_size inner) [
          | err e ↦ err e ∷ []
          | ok read ↦ sized_chunk (sized_loop fuel) at read
        ])

    -- after the nonce: the seek, to a place in the whole file, and the loop
    sized_from : ChunkedPosition → Bytes → ℕ → ByteStream
    sized_from position file max_length =
        let inner : Bytes = drop position.beginning_of_active_chunk file in
        sized_loop (suc (length inner)) (file_reader inner) (record {
          counter = position.active_chunk_counter;
          offset = position.offset_in_active_chunk;
          remaining = max_length;
        })

  unfoldable pub into_stream_sized : Bytes → Bytes → ℕ → ℕ → ByteStream
  unfolding sized_from sized_loop retrieve_nonce
  into_stream_sized key file start max_length = elim (retrieve_nonce file) [
    | err e ↦ err e ∷ []
    | ok (nonce, body) ↦ sized_from key nonce start (chunked_position start) file max_length
  ]
