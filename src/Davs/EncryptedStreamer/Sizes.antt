-- ===== src/Davs/EncryptedStreamer/Sizes.antt =====
-- The offsets of `Position`, against the sizes that they stand for.
use vestirust.Prelude.{ℕ, ◌+◌, ◌*◌, ◌/◌, ◌%◌, ◌<◌, ◌≡◌, arith}
use vestirust.Prelude.Words.{u64_mod, add_u64, sub_u64}
use vestirust.Davs.EncryptedStreamer.Position.{
  plain_chunk_size, encryption_overhead, encrypted_chunk_size, nonce_size, decrypted_size,
  encrypted_offset, chunked_position,
}

-- The size of the file that holds `n` bytes: the nonce, and an overhead for each chunk, of which
-- there is one more than the full ones.
abbrev pub encrypted_size : ℕ → ℕ
encrypted_size n = n + encryption_overhead * (n / plain_chunk_size + 1) + nonce_size

-- For a file that holds `n` bytes and whose size is a `u64`, `decrypted_size` returns `n`.
pub decrypted_size-encrypted_size :
    (n : ℕ) → encrypted_size n < u64_mod → decrypted_size (encrypted_size n) ≡ n
unfolding decrypted_size sub_u64
decrypted_size-encrypted_size n h = ground arith

-- For an offset whose place in the file is a `u64`, the position is that of the chunk that holds the
-- offset: its number, where its ciphertext begins, and the offset in its plaintext.
pub chunked_position_lem :
    (n : ℕ)
    → encrypted_size n < u64_mod
    → ((chunked_position n).active_chunk_counter ≡ n / plain_chunk_size)
      × ((chunked_position n).beginning_of_active_chunk
          ≡ nonce_size + n / plain_chunk_size * encrypted_chunk_size)
      × ((chunked_position n).offset_in_active_chunk ≡ n % plain_chunk_size)
unfolding chunked_position encrypted_offset add_u64 sub_u64
chunked_position_lem n h = omega arith

-- For a file that holds `n` bytes and whose size is a `u64`, `decrypted_size` returns `n`; and for the
-- offset `n`, the position is that of the chunk that holds it: its number, where its ciphertext
-- begins, and the offset in its plaintext.
pub sizes_and_positions :
    (n : ℕ)
    → encrypted_size n < u64_mod
    → (decrypted_size (encrypted_size n) ≡ n)
      × ((chunked_position n).active_chunk_counter ≡ n / plain_chunk_size)
      × ((chunked_position n).beginning_of_active_chunk
          ≡ nonce_size + n / plain_chunk_size * encrypted_chunk_size)
      × ((chunked_position n).offset_in_active_chunk ≡ n % plain_chunk_size)
sizes_and_positions n h =
    let (counter, beginning, offset) = chunked_position_lem n h in
    (decrypted_size-encrypted_size n h, counter, beginning, offset)
