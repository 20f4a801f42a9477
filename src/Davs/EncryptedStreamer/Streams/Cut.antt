-- ===== src/Davs/EncryptedStreamer/Streams/Cut.antt =====
-- `into_stream` on a file that lost its last chunks.
use vestirust.Prelude.{
  ℕ, zero, suc, ◌+◌, ◌*◌, ◌/◌, ◌<◌, ◌≤◌, ◌≡◌, ap, ◌∙◌, false, some, [], ◌++◌, ok, length,
  length-append, eq→==, arith,
}
use vestirust.Prelude.Slices.{take, take-append_ge, length-take}
use vestirust.Davs.EncryptedStreamer.Position.{plain_chunk_size, encrypted_chunk_size, nonce_size}
use vestirust.Davs.EncryptedStreamer.Cipher.{
  Bytes, StreamCipher, IsStream, counter_max, file_reader,
}
use vestirust.Davs.EncryptedStreamer.{collect, copy_from}
use vestirust.Davs.EncryptedStreamer.Streams.{stream_loop, into_stream}
use vestirust.Davs.EncryptedStreamer.Streams.Whole.{into_stream-copy_from}
use vestirust.Davs.EncryptedStreamer.Format.{Sealed, last_chunk, full_chunk, length-Sealed}
use vestirust.Davs.EncryptedStreamer.Write.{copy_from-Sealed}
use vestirust.Davs.EncryptedStreamer.Read.{
  read_chunk-append, read_chunk_short, retrieve_nonce-append,
}

take-behind : (k n : ℕ) (xs ys : Bytes) → length xs ≡ k → take (k + n) (xs ++ ys) ≡ xs ++ take n ys
take-behind k n xs ys h =
    take-append_ge (k + n) xs ys (omega arith) ∙ ap (λ m. xs ++ take m ys) (omega arith)

module _ {Encryptor Decryptor : Type 0} {cipher : StreamCipher Encryptor Decryptor}
    {key nonce : Bytes} (s : IsStream cipher key nonce) where
  stream_loop-cut :
      {i : ℕ} {p c : Bytes} (n fuel : ℕ)
      → Sealed s i p c
      → n < fuel
      → n ≤ length p / plain_chunk_size
      → i + length p / plain_chunk_size < counter_max
      → collect (
          stream_loop cipher fuel
            (s.decryptor_at i)
            (file_reader (take (n * encrypted_chunk_size) c)))
        ≡ ok (take (n * plain_chunk_size) p)
  unfolding stream_loop take
  stream_loop-cut n zero sealed f h k = absurd (omega arith)
  stream_loop-cut zero (suc fuel) sealed f h k =
      rw (read_chunk_short encrypted_chunk_size [] (omega arith), stream_loop)
  stream_loop-cut (suc n) (suc fuel) (last_chunk i p c short ec) f h k = absurd (omega arith)
  stream_loop-cut (suc n) (suc fuel) (full_chunk i p q c d e lq ed rest whole ew ee) f h k =
      let ld : length d ≡ encrypted_chunk_size =
        omega (arith, ap length ed, s.length_seal i false q) in
      let lw : length whole ≡ plain_chunk_size + length p =
        omega (arith, ap length ew, length-append q p) in
      let dec : cipher.decrypt_next (s.decryptor_at i) d ≡ some (q, s.decryptor_at (suc i)) =
        rw ed (s.decrypt_next_at i q (omega arith)) in
      let ih = stream_loop-cut n fuel rest (omega arith) (omega arith) (omega arith) in
      let cut_body : take (suc n * encrypted_chunk_size) e
          ≡ d ++ take (n * encrypted_chunk_size) c =
        rw ee (
          ap (λ m. take m (d ++ c)) (omega arith)
          ∙ take-behind encrypted_chunk_size (n * encrypted_chunk_size) d c ld) in
      let cut_plain : take (suc n * plain_chunk_size) whole ≡ q ++ take (n * plain_chunk_size) p =
        rw ew (
          ap (λ m. take m (q ++ p)) (omega arith)
          ∙ take-behind plain_chunk_size (n * plain_chunk_size) q p lq) in
      rw (cut_body, cut_plain)
        (rw (
          read_chunk-append encrypted_chunk_size d (take (n * encrypted_chunk_size) c) ld,
          eq→== (length d) encrypted_chunk_size ld,
          stream_loop,
          dec,
          ih,
        ))

  into_stream-cut :
      {p c : Bytes} (n : ℕ)
      → Sealed s 0 p c
      → length nonce ≡ nonce_size
      → length p / plain_chunk_size < counter_max
      → n ≤ length p / plain_chunk_size
      → collect (into_stream cipher key (take (nonce_size + n * encrypted_chunk_size) (nonce ++ c)))
        ≡ ok (take (n * plain_chunk_size) p)
  unfolding into_stream
  into_stream-cut {p} {c} n sealed h k le =
      let body : Bytes = take (n * encrypted_chunk_size) c in
      let enough : n < suc (length body) =
        omega (arith, length-take (n * encrypted_chunk_size) c, length-Sealed s sealed) in
      rw (take-behind nonce_size (n * encrypted_chunk_size) nonce c h) (
        rw (retrieve_nonce-append nonce body h, into_stream)
          (rw s.decryptor_start
            (stream_loop-cut n (suc (length body)) sealed enough le (omega arith))))

  -- For a reader that does not fail and whose content needs no more chunks than the counter allows,
  -- and a nonce of 19 bytes: of the file that `copy_from` wrote, cut behind any number of its full
  -- chunks, the stream yields the content of those chunks, and no error.
  pub into_stream-cut-copy_from :
      (bytes : Bytes) (n : ℕ)
      → length nonce ≡ nonce_size
      → length bytes / plain_chunk_size < counter_max
      → n ≤ length bytes / plain_chunk_size
      → collect (
          into_stream cipher key (
            take
              (nonce_size + n * encrypted_chunk_size)
              (copy_from cipher key nonce (file_reader bytes)).0))
        ≡ ok (take (n * plain_chunk_size) bytes)
  into_stream-cut-copy_from bytes n h k le =
      let (c, sealed, e) = copy_from-Sealed s bytes k in rw e (into_stream-cut n sealed h k le)

  -- For a reader that does not fail and whose content needs no more chunks than the counter allows,
  -- and a nonce of 19 bytes: the stream of the file that `copy_from` wrote yields the content, and
  -- that of the file cut behind any number of its full chunks yields the content of those chunks; in
  -- both cases with no error.
  pub into_stream-whole_or_cut :
      (bytes : Bytes) (n : ℕ)
      → length nonce ≡ nonce_size
      → length bytes / plain_chunk_size < counter_max
      → n ≤ length bytes / plain_chunk_size
      → (collect (into_stream cipher key (copy_from cipher key nonce (file_reader bytes)).0)
          ≡ ok bytes)
        × (collect (
              into_stream cipher key (
                take
                  (nonce_size + n * encrypted_chunk_size)
                  (copy_from cipher key nonce (file_reader bytes)).0))
            ≡ ok (take (n * plain_chunk_size) bytes))
  into_stream-whole_or_cut bytes n h k le =
      (into_stream-copy_from s bytes h k, into_stream-cut-copy_from bytes n h k le)
