-- ===== src/Davs/EncryptedStreamer/Streams/Whole.antt =====
-- `into_stream` on the format of `Format`.
use vestirust.Prelude.{
  ℕ, zero, suc, ◌+◌, ◌/◌, ◌<◌, ◌≡◌, ap, true, false, some, ◌++◌, append-nil, ok, length,
  length-append, eq→==, ne→==, arith,
}
use vestirust.Davs.EncryptedStreamer.Position.{plain_chunk_size, encrypted_chunk_size, nonce_size}
use vestirust.Davs.EncryptedStreamer.Cipher.{
  Bytes, StreamCipher, IsStream, counter_max, file_reader,
}
use vestirust.Davs.EncryptedStreamer.{collect, copy_from}
use vestirust.Davs.EncryptedStreamer.Streams.{stream_loop, into_stream}
use vestirust.Davs.EncryptedStreamer.Format.{Sealed, last_chunk, full_chunk}
use vestirust.Davs.EncryptedStreamer.Write.{copy_from-Sealed}
use vestirust.Davs.EncryptedStreamer.Read.{
  read_chunk-append, read_chunk_short, retrieve_nonce-append,
}

module _ {Encryptor Decryptor : Type 0} {cipher : StreamCipher Encryptor Decryptor}
    {key nonce : Bytes} (s : IsStream cipher key nonce) where
  stream_loop-Sealed :
      {i : ℕ} {p c : Bytes} (fuel : ℕ)
      → Sealed s i p c
      → length c < fuel
      → i + length p / plain_chunk_size < counter_max
      → collect (stream_loop cipher fuel (s.decryptor_at i) (file_reader c)) ≡ ok p
  unfolding stream_loop
  stream_loop-Sealed zero sealed h k = absurd (omega arith)
  stream_loop-Sealed (suc fuel) (last_chunk i p c short ec) h k =
      let lc : length c ≡ length p + 16 = omega (arith, ap length ec, s.length_seal i true p) in
      let dec : cipher.decrypt_last (s.decryptor_at i) c ≡ some p = rw ec (s.decrypt_last_at i p) in
      rw
        (
          read_chunk_short encrypted_chunk_size c (omega arith),
          ne→== (length c) encrypted_chunk_size (omega arith),
          ne→== (length c) 0 (omega arith),
          stream_loop,
          dec,
        )
        (ap ok (append-nil p))
  stream_loop-Sealed (suc fuel) (full_chunk i p q c d e lq ed rest whole ew ee) h k =
      let ld : length d ≡ encrypted_chunk_size =
        omega (arith, ap length ed, s.length_seal i false q) in
      let le : length e ≡ encrypted_chunk_size + length c =
        omega (arith, ap length ee, length-append d c) in
      let lw : length whole ≡ plain_chunk_size + length p =
        omega (arith, ap length ew, length-append q p) in
      let dec : cipher.decrypt_next (s.decryptor_at i) d ≡ some (q, s.decryptor_at (suc i)) =
        rw ed (s.decrypt_next_at i q (omega arith)) in
      let ih = stream_loop-Sealed fuel rest (omega arith) (omega arith) in
      rw (ee, ew)
        (rw (
          read_chunk-append encrypted_chunk_size d c ld,
          eq→== (length d) encrypted_chunk_size ld,
          stream_loop,
          dec,
          ih,
        ))

  into_stream-Sealed :
      {p c : Bytes}
      → Sealed s 0 p c
      → length nonce ≡ nonce_size
      → length p / plain_chunk_size < counter_max
      → collect (into_stream cipher key (nonce ++ c)) ≡ ok p
  unfolding into_stream
  into_stream-Sealed {p} {c} sealed h k =
      rw (retrieve_nonce-append nonce c h, into_stream)
        (rw s.decryptor_start
          (stream_loop-Sealed (suc (length c)) sealed (omega arith) (omega arith)))

  -- For a reader that does not fail and whose content needs no more chunks than the counter allows,
  -- and a nonce of 19 bytes, the stream of the file that `copy_from` wrote yields no error and, in
  -- all, the content.
  pub into_stream-copy_from :
      (bytes : Bytes)
      → length nonce ≡ nonce_size
      → length bytes / plain_chunk_size < counter_max
      → collect (into_stream cipher key (copy_from cipher key nonce (file_reader bytes)).0)
        ≡ ok bytes
  into_stream-copy_from bytes h k =
      let (c, sealed, e) = copy_from-Sealed s bytes k in rw e (into_stream-Sealed sealed h k)
