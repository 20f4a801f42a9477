-- ===== src/Davs/EncryptedStreamer/Streams/Seek.antt =====
-- `into_stream_sized` from the front of the file: the nonce, the seek, then the loop of `Ranged`.
use vestirust.Prelude.{
  ℕ, suc, ◌+◌, ◌-◌, ◌*◌, ◌/◌, ◌%◌, ◌<◌, ◌≤◌, ◌≡◌, sym, ap, ◌∙◌, ◌++◌, ok, length, arith,
}
use vestirust.Prelude.Slices.{take, drop, length-drop, drop-append_self, drop-add}
use vestirust.Davs.EncryptedStreamer.Position.{
  plain_chunk_size, encrypted_chunk_size, nonce_size, ChunkedPosition, chunked_position,
}
use vestirust.Davs.EncryptedStreamer.Sizes.{chunked_position_lem}
use vestirust.Davs.EncryptedStreamer.Cipher.{
  Bytes, StreamCipher, IsStream, counter_max, file_reader,
}
use vestirust.Davs.EncryptedStreamer.{collect, copy_from}
use vestirust.Davs.EncryptedStreamer.Streams.{sized_from, into_stream_sized}
use vestirust.Davs.EncryptedStreamer.Streams.Ranged.{drop-Sealed, sized_loop-Sealed}
use vestirust.Davs.EncryptedStreamer.Format.{Sealed}
use vestirust.Davs.EncryptedStreamer.Write.{copy_from-Sealed}
use vestirust.Davs.EncryptedStreamer.Read.{retrieve_nonce-append}

-- The start of a range is past the full chunks before it, and then past the offset in its chunk.
drop-position :
    (start : ℕ) (p : Bytes)
    → drop (start % plain_chunk_size) (drop (start / plain_chunk_size * plain_chunk_size) p)
      ≡ drop start p
drop-position start p =
    let e : start ≡ start / plain_chunk_size * plain_chunk_size + start % plain_chunk_size =
      omega arith in
    sym (drop-add (start / plain_chunk_size * plain_chunk_size) (start % plain_chunk_size) p)
    ∙ ap (λ n. drop n p) (sym e)

module _ {Encryptor Decryptor : Type 0} {cipher : StreamCipher Encryptor Decryptor}
    {key nonce : Bytes} (s : IsStream cipher key nonce) where
  sized_from-Sealed :
      {p c : Bytes} (start max_length : ℕ) (position : ChunkedPosition)
      → Sealed s 0 p c
      → length nonce ≡ nonce_size
      → length p / plain_chunk_size < counter_max
      → start ≤ length p
      → (position.active_chunk_counter ≡ start / plain_chunk_size)
        × (position.beginning_of_active_chunk
            ≡ nonce_size + start / plain_chunk_size * encrypted_chunk_size)
        × (position.offset_in_active_chunk ≡ start % plain_chunk_size)
      → collect (sized_from cipher key nonce start position (nonce ++ c) max_length)
        ≡ ok (take max_length (drop start p))
  unfolding sized_from
  sized_from-Sealed {p} {c} start max_length position sealed h k le (counter, beginning, offset) =
      let m : ℕ = start / plain_chunk_size in
      let body : Bytes = drop (m * encrypted_chunk_size) c in
      let rest : Sealed s (0 + m) (drop (m * plain_chunk_size) p) body =
        drop-Sealed s m sealed (omega arith) in
      let seek : drop (nonce_size + m * encrypted_chunk_size) (nonce ++ c) ≡ body =
        drop-add nonce_size (m * encrypted_chunk_size) (nonce ++ c)
        ∙ ap (drop (m * encrypted_chunk_size)) (drop-append_self nonce c nonce_size h) in
      let left : length (drop (m * plain_chunk_size) p) ≡ length p - m * plain_chunk_size =
        length-drop (m * plain_chunk_size) p in
      let start_index : 0 + m ≡ m = omega arith in
      rw (counter, beginning, offset, seek)
        (sized_loop-Sealed s start (suc (length body)) (start % plain_chunk_size) max_length
            (rw start_index at rest) (omega arith) (omega arith) (omega arith) (λ e. omega arith)
            (omega arith)
          ∙ ap (λ t. ok (take max_length t)) (drop-position start p))

  into_stream_sized-Sealed :
      {p c : Bytes} (start max_length : ℕ)
      → Sealed s 0 p c
      → length nonce ≡ nonce_size
      → length p / plain_chunk_size < counter_max
      → start ≤ length p
      → collect (into_stream_sized cipher key (nonce ++ c) start max_length)
        ≡ ok (take max_length (drop start p))
  unfolding into_stream_sized
  into_stream_sized-Sealed {p} {c} start max_length sealed h k le =
      rw (retrieve_nonce-append nonce c h, into_stream_sized)
        (sized_from-Sealed start max_length (chunked_position start) sealed h k le
          (chunked_position_lem start (omega arith)))

  -- For a reader that does not fail and whose content needs no more chunks than the counter allows,
  -- a nonce of 19 bytes and a start within the content, the stream of at most `max_length` bytes
  -- from `start` of the file that `copy_from` wrote yields no error and, in all, that slice of the
  -- content.
  pub into_stream_sized-copy_from :
      (bytes : Bytes) (start max_length : ℕ)
      → length nonce ≡ nonce_size
      → length bytes / plain_chunk_size < counter_max
      → start ≤ length bytes
      → collect (
          into_stream_sized cipher key
            (copy_from cipher key nonce (file_reader bytes)).0
            start
            max_length)
        ≡ ok (take max_length (drop start bytes))
  into_stream_sized-copy_from bytes start max_length h k le =
      let (c, sealed, e) = copy_from-Sealed s bytes k in
      rw e (into_stream_sized-Sealed start max_length sealed h k le)
