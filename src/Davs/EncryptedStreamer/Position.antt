-- ===== src/Davs/EncryptedStreamer/Position.antt =====
-- src/davs/encrypted_streamer.rs: the chunk sizes, and the offsets computed from them.
use vestirust.Prelude.{ℕ, ◌+◌, ◌*◌, ◌/◌, ◌%◌, if◌then◌else◌, ltb}
use vestirust.Prelude.Words.{add_u64, sub_u64}

abbrev pub plain_chunk_size : ℕ
plain_chunk_size = 1_000_000

abbrev pub encryption_overhead : ℕ
encryption_overhead = 16

abbrev pub encrypted_chunk_size : ℕ
encrypted_chunk_size = plain_chunk_size + encryption_overhead

abbrev pub nonce_size : ℕ
nonce_size = 19

number_of_chunks : ℕ → ℕ
number_of_chunks enc_size_without_nonce =
    let d = enc_size_without_nonce / encrypted_chunk_size in
    if ltb 0 (enc_size_without_nonce % encrypted_chunk_size) then d + 1 else d

unfoldable pub decrypted_size : ℕ → ℕ
unfolding number_of_chunks
decrypted_size enc_size =
    sub_u64
      (sub_u64 enc_size (encryption_overhead * number_of_chunks (sub_u64 enc_size nonce_size)))
      nonce_size

unfoldable pub encrypted_offset : ℕ → ℕ
encrypted_offset dec_offset =
    add_u64 (add_u64 dec_offset (encryption_overhead * (dec_offset / plain_chunk_size + 1)))
      nonce_size

pub record ChunkedPosition : Type 0 where
  pub beginning_of_active_chunk : ℕ
  pub offset_in_active_chunk : ℕ
  pub active_chunk_counter : ℕ

-- `ChunkedPosition::new`
unfoldable pub chunked_position : ℕ → ChunkedPosition
chunked_position plain_offset =
    let active_chunk_counter = plain_offset / plain_chunk_size in
    let beginning_of_active_chunk =
      add_u64 (active_chunk_counter * encrypted_chunk_size) nonce_size in
    let start = encrypted_offset plain_offset in
    record {
      beginning_of_active_chunk = beginning_of_active_chunk;
      offset_in_active_chunk =
          sub_u64 start (add_u64 beginning_of_active_chunk encryption_overhead);
      active_chunk_counter = active_chunk_counter;
    }
