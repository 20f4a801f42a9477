-- ===== src/Davs/EncryptedStreamer/Read.antt =====
-- `copy_to` on the format of `Format`.
use vestirust.Prelude.{
  ℕ, zero, suc, ◌+◌, ◌*◌, ◌/◌, ◌<◌, ◌≤◌, ◌≡◌, refl, ap, ap₂, ◌∙◌, true, false, some, [], ◌++◌,
  append_assoc, ok, length, length-append, eq→==, ne→==, ltb-false, arith,
}
use vestirust.Prelude.Slices.{
  take_of_length-le, drop_of_length-le, take-append_self, drop-append_self,
}
use vestirust.Davs.EncryptedStreamer.Position.{
  plain_chunk_size, encryption_overhead, encrypted_chunk_size, nonce_size,
}
use vestirust.Davs.EncryptedStreamer.Cipher.{
  Bytes, StreamCipher, IsStream, counter_max, read_chunk, file_reader,
}
use vestirust.Davs.EncryptedStreamer.{retrieve_nonce, copy_from, copy_to_loop, copy_to}
use vestirust.Davs.EncryptedStreamer.Format.{Sealed, last_chunk, full_chunk, length-Sealed}
use vestirust.Davs.EncryptedStreamer.Write.{copy_from-Sealed}

-- A read of a full chunk, and of what is left at the end of a file.
pub read_chunk-append :
    (n : ℕ) (d c : Bytes)
    → length d ≡ n
    → read_chunk n (file_reader (d ++ c)) ≡ ok (d, file_reader c)
unfolding read_chunk
read_chunk-append n d c h = rw (take-append_self d c n h, drop-append_self d c n h)

pub read_chunk_short :
    (n : ℕ) (c : Bytes) → length c ≤ n → read_chunk n (file_reader c) ≡ ok (c, file_reader [])
unfolding read_chunk
read_chunk_short n c h = rw (take_of_length-le n c h, drop_of_length-le n c h)

pub retrieve_nonce-append :
    (nonce body : Bytes)
    → length nonce ≡ nonce_size
    → retrieve_nonce (nonce ++ body) ≡ ok (nonce, body)
unfolding retrieve_nonce
retrieve_nonce-append nonce body h = rw (
  ltb-false (length (nonce ++ body)) nonce_size (omega (arith, length-append nonce body)),
  take-append_self nonce body nonce_size h,
  drop-append_self nonce body nonce_size h,
)

module _ {Encryptor Decryptor : Type 0} {cipher : StreamCipher Encryptor Decryptor}
    {key nonce : Bytes} (s : IsStream cipher key nonce) where
  copy_to_loop-Sealed :
      {i : ℕ} {p c : Bytes} (fuel : ℕ) (written : Bytes) (total : ℕ)
      → Sealed s i p c
      → length c < fuel
      → i + length p / plain_chunk_size < counter_max
      → copy_to_loop cipher fuel (s.decryptor_at i) (file_reader c) written total
        ≡ (written ++ p, ok (total + length c))
  unfolding copy_to_loop
  copy_to_loop-Sealed zero written total sealed h k = absurd (omega arith)
  copy_to_loop-Sealed (suc fuel) written total (last_chunk i p c short ec) h k =
      let lc : length c ≡ length p + 16 = omega (arith, ap length ec, s.length_seal i true p) in
      let dec : cipher.decrypt_last (s.decryptor_at i) c ≡ some p = rw ec (s.decrypt_last_at i p) in
      rw (
        read_chunk_short encrypted_chunk_size c (omega arith),
        ne→== (length c) encrypted_chunk_size (omega arith),
        ne→== (length c) 0 (omega arith),
        copy_to_loop,
        dec,
      )
  copy_to_loop-Sealed (suc fuel) written total (full_chunk i p q c d e lq ed rest whole ew ee) h k =
      let ld : length d ≡ encrypted_chunk_size =
        omega (arith, ap length ed, s.length_seal i false q) in
      let le : length e ≡ encrypted_chunk_size + length c =
        omega (arith, ap length ee, length-append d c) in
      let lw : length whole ≡ plain_chunk_size + length p =
        omega (arith, ap length ew, length-append q p) in
      let ih =
        copy_to_loop-Sealed fuel (written ++ q) (total + length d) rest (omega arith)
          (omega arith) in
      rw ee (
        rw
          (
            read_chunk-append encrypted_chunk_size d c ld,
            eq→== (length d) encrypted_chunk_size ld,
            copy_to_loop,
          )
          (rw ed (
            rw (s.decrypt_next_at i q (omega arith)) (
              rw (← ed) (
                ih
                ∙ ap₂ (λ w t. (w, ok t)) (rw ew (append_assoc written q p))
                    (omega (arith, length-append d c)))))))

  copy_to-Sealed :
      {p c : Bytes}
      → Sealed s 0 p c
      → length nonce ≡ nonce_size
      → length p / plain_chunk_size < counter_max
      → copy_to cipher key (nonce ++ c) ≡ (p, ok (length c))
  unfolding copy_to
  copy_to-Sealed {p} {c} sealed h k =
      let loop = copy_to_loop-Sealed (suc (length c)) [] 0 sealed (omega arith) (omega arith) in
      rw (retrieve_nonce-append nonce c h, copy_to)
        (rw (s.decryptor_start) (loop ∙ ap (λ t. (p, ok t)) (omega arith)))

  -- For a reader that does not fail and whose content needs no more chunks than the counter allows,
  -- and a nonce of 19 bytes, `copy_from` returns the length of the content, and `copy_to` reads the
  -- content back from what `copy_from` wrote, and returns the length of its ciphertext.
  pub copy_to-copy_from :
      (bytes : Bytes)
      → length nonce ≡ nonce_size
      → length bytes / plain_chunk_size < counter_max
      → ((copy_from cipher key nonce (file_reader bytes)).1 ≡ ok (length bytes))
        × (copy_to cipher key (copy_from cipher key nonce (file_reader bytes)).0 ≡ (
          bytes,
          ok (length bytes + encryption_overhead * (length bytes / plain_chunk_size + 1)),
        ))
  copy_to-copy_from bytes h k =
      let (c, sealed, e) = copy_from-Sealed s bytes k in
      rw e (refl, copy_to-Sealed sealed h k ∙ ap (λ t. (bytes, ok t)) (length-Sealed s sealed))
