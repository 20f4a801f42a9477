-- ===== src/Davs/EncryptedStreamer/Write.antt =====
-- `copy_from` and the format of `Format`.
use vestirust.Prelude.{
  ℕ, zero, suc, ◌+◌, ◌/◌, ◌<◌, ◌≤◌, ◌≡◌, refl, sym, ap, ap₂, ◌∙◌, inl, inr, true, false, ◌++◌,
  append_assoc, ok, length, leb, Bool-cases, eq→==, ne→==, arith,
}
use vestirust.Prelude.Slices.{
  take, drop, take-append-drop, length-take, length-drop, take_of_length-le,
}
use vestirust.Davs.EncryptedStreamer.Position.{plain_chunk_size}
use vestirust.Davs.EncryptedStreamer.Cipher.{
  Bytes, StreamCipher, IsStream, counter_max, read_chunk, file_reader,
}
use vestirust.Davs.EncryptedStreamer.{copy_from_loop, copy_from}
use vestirust.Davs.EncryptedStreamer.Format.{Sealed, last_chunk, full_chunk}

module _ {Encryptor Decryptor : Type 0} {cipher : StreamCipher Encryptor Decryptor}
    {key nonce : Bytes} (s : IsStream cipher key nonce) where
  copy_from_loop-full :
      (fuel i : ℕ) (bytes written : Bytes) (total : ℕ)
      → plain_chunk_size ≤ length bytes
      → i < counter_max
      → copy_from_loop cipher (suc fuel) (s.encryptor_at i) (file_reader bytes) written total
        ≡ copy_from_loop cipher fuel
            (s.encryptor_at (suc i))
            (file_reader (drop plain_chunk_size bytes))
            (written ++ s.seal i false (take plain_chunk_size bytes))
            (total + length (take plain_chunk_size bytes))
  unfolding copy_from_loop read_chunk
  copy_from_loop-full fuel i bytes written total h hi =
      let full : length (take plain_chunk_size bytes) ≡ plain_chunk_size =
        omega (arith, length-take plain_chunk_size bytes) in
      rw (eq→== _ _ full, s.encrypt_next_at i (take plain_chunk_size bytes) hi (omega arith)) refl

  copy_from_loop-last :
      (fuel i : ℕ) (bytes written : Bytes) (total : ℕ)
      → length bytes < plain_chunk_size
      → copy_from_loop cipher (suc fuel) (s.encryptor_at i) (file_reader bytes) written total
        ≡ (written ++ s.seal i true bytes, ok (total + length bytes))
  unfolding copy_from_loop read_chunk
  copy_from_loop-last fuel i bytes written total h =
      rw
        (
          take_of_length-le plain_chunk_size bytes (omega arith),
          ne→== (length bytes) plain_chunk_size (omega arith),
          s.encrypt_last_at i bytes (omega arith),
          take_of_length-le plain_chunk_size bytes (omega arith),
        )
        refl

  copy_from_loop-Sealed :
      (fuel i : ℕ) (bytes written : Bytes) (total : ℕ)
      → length bytes < fuel
      → i + length bytes / plain_chunk_size < counter_max
      → (c : Bytes) × Sealed s i bytes c
        × (copy_from_loop cipher fuel (s.encryptor_at i) (file_reader bytes) written total
            ≡ (written ++ c, ok (total + length bytes)))
  copy_from_loop-Sealed zero i bytes written total h hc = absurd (omega arith)
  copy_from_loop-Sealed (suc fuel) i bytes written total h hc =
      elim (Bool-cases (leb plain_chunk_size (length bytes))) [
        | inl full ↦
            let q : Bytes = take plain_chunk_size bytes in
            let p : Bytes = drop plain_chunk_size bytes in
            let d : Bytes = s.seal i false q in
            let lq : length q ≡ plain_chunk_size =
              ground (arith, length-take plain_chunk_size bytes) in
            let lp : length p + plain_chunk_size ≡ length bytes =
              ground (arith, length-drop plain_chunk_size bytes) in
            let (c, sealed, e) =
              copy_from_loop-Sealed fuel (suc i) p (written ++ d) (total + length q) (omega arith)
                (omega arith) in
            (
              d ++ c,
              full_chunk i p q c d (d ++ c) lq refl sealed bytes (sym (take-append-drop _ bytes))
                  refl,
              copy_from_loop-full fuel i bytes written total (ground arith) (omega arith)
                  ∙ e
                  ∙ ap₂ (λ w t. (w, ok t)) (append_assoc written d c) (omega arith),
            )
        | inr short ↦ (
          s.seal i true bytes,
          last_chunk i bytes _ (ground arith) refl,
          copy_from_loop-last fuel i bytes written total (ground arith),
        )
      ]

  -- For a reader that does not fail and whose content needs no more chunks than the counter allows,
  -- `copy_from` returns the length of the content, and writes the nonce and a sealed body of it.
  pub copy_from-Sealed :
      (bytes : Bytes)
      → length bytes / plain_chunk_size < counter_max
      → (c : Bytes) × Sealed s 0 bytes c
        × (copy_from cipher key nonce (file_reader bytes) ≡ (nonce ++ c, ok (length bytes)))
  unfolding copy_from
  copy_from-Sealed bytes h =
      let (c, sealed, e) =
        copy_from_loop-Sealed (suc (length bytes)) 0 bytes nonce 0 (omega arith) (omega arith) in
      (c, sealed, rw s.encryptor_start (e ∙ ap (λ t. (nonce ++ c, ok t)) (omega arith)))
