-- ===== src/Davs/EncryptedStreamer/Streams/Ranged.antt =====
-- The loop of `into_stream_sized` on the format of `Format`.
use vestirust.Prelude.{
  ℕ, zero, suc, ◌+◌, ◌-◌, ◌*◌, ◌/◌, ◌%◌, ◌^◌, ◌<◌, ◌≤◌, ◌≡◌, refl, sym, ap, ◌∙◌, inl, inr, true,
  false, some, ◌++◌, append-nil, ok, length, length-append, ltb, ◌==◌, if◌then◌else◌, Bool-cases,
  eq→==, ne→==, ltb-false, arith,
}
use vestirust.Prelude.Slices.{
  take, drop, take_of_length-le, take-append_le, take-append_ge, drop-append_le, drop-append_self,
  drop-add,
}
use vestirust.Davs.EncryptedStreamer.Position.{plain_chunk_size, encrypted_chunk_size}
use vestirust.Davs.EncryptedStreamer.Cipher.{
  Bytes, StreamCipher, IsStream, counter_max, file_reader,
}
use vestirust.Davs.EncryptedStreamer.{collect}
use vestirust.Davs.EncryptedStreamer.Streams.{
  Cursor, ByteStream, skip_offset, sized_full, sized_loop,
}
use vestirust.Davs.EncryptedStreamer.Format.{Sealed, last_chunk, full_chunk}
use vestirust.Davs.EncryptedStreamer.Read.{read_chunk-append, read_chunk_short}

drop-zero : (p : Bytes) → drop 0 p ≡ p
unfolding drop
drop-zero p = refl

module _ {Encryptor Decryptor : Type 0} {cipher : StreamCipher Encryptor Decryptor}
    {key nonce : Bytes} (s : IsStream cipher key nonce) (start : ℕ) where
  skip_offset-drop :
      (offset : ℕ) (p : Bytes)
      → offset ≤ length p
      → (start ≡ 0 → offset ≡ 0)
      → skip_offset cipher key nonce start offset p ≡ ok (drop offset p)
  unfolding skip_offset
  skip_offset-drop offset p h z = elim (Bool-cases (start == 0)) [
    | inl first ↦ let e : offset ≡ 0 = z (ground arith) in rw (first, e) (ap ok (sym (drop-zero p)))
    | inr later ↦ rw (later, ltb-false (length p) offset h)
  ]

  next_offset : (offset : ℕ) → (start ≡ 0 → offset ≡ 0) → (if start == 0 then offset else 0) ≡ 0
  next_offset offset z = elim (Bool-cases (start == 0)) [
    | inl first ↦ rw first (z (ground arith))
    | inr later ↦ rw later
  ]

  cut-take : (n : ℕ) (p : Bytes) → (if ltb n (length p) then take n p else p) ≡ take n p
  cut-take n p = elim (Bool-cases (ltb n (length p))) [
    | inl long ↦ rw long
    | inr short ↦ rw short (sym (take_of_length-le n p (ground arith)))
  ]

  sized_full-collect :
      (loop : Cursor → ByteStream) (at : Cursor) (q p : Bytes)
      → (start ≡ 0 → at.offset ≡ 0)
      → ((n : ℕ)
          → collect (loop (record { counter = suc at.counter; offset = 0; remaining = n }))
            ≡ ok (take n p))
      → collect (sized_full cipher key nonce start loop at (ok q)) ≡ ok (take at.remaining (q ++ p))
  unfolding sized_full
  sized_full-collect loop at q p z ih = elim (Bool-cases (ltb at.remaining (length q))) [
    | inl last ↦
        rw last (ap ok (append-nil _ ∙ sym (take-append_le at.remaining q p (ground arith))))
    | inr more ↦
        let add_one : at.counter + 1 ≡ suc at.counter = omega arith in
        rw (more, add_one, next_offset at.offset z, ih (at.remaining - length q))
          (ap ok (sym (take-append_ge at.remaining q p (ground arith))))
  ]

  pub sized_loop-Sealed :
      {i : ℕ} {p c : Bytes} (fuel offset remaining : ℕ)
      → Sealed s i p c
      → length c < fuel
      → offset ≤ length p
      → offset < plain_chunk_size
      → (start ≡ 0 → offset ≡ 0)
      → i + length p / plain_chunk_size < counter_max
      → collect (
          sized_loop cipher key nonce start fuel
            (file_reader c)
            (record { counter = i; offset = offset; remaining = remaining }))
        ≡ ok (take remaining (drop offset p))
  unfolding sized_loop
  sized_loop-Sealed zero offset remaining sealed h o oc z k = absurd (omega arith)
  sized_loop-Sealed (suc fuel) offset zero sealed h o oc z k = unfold take in refl
  sized_loop-Sealed (suc fuel) offset (suc r) (last_chunk i p c short ec) h o oc z k =
      let lc : length c ≡ length p + 16 = omega (arith, ap length ec, s.length_seal i true p) in
      let same : i % 2 ^ 32 ≡ i = omega arith in
      let dec : cipher.decrypt key nonce i true c ≡ some p =
        rw ec (s.decrypt_at i true p (omega arith)) in
      rw
        (
          ne→== (suc r) 0 (omega arith),
          read_chunk_short encrypted_chunk_size c (omega arith),
          ne→== (length c) encrypted_chunk_size (omega arith),
          ne→== (length c) 0 (omega arith),
          sized_loop,
          same,
          dec,
          skip_offset-drop offset p o z,
        )
        (ap ok (append-nil _ ∙ cut-take (suc r) (drop offset p)))
  sized_loop-Sealed (suc fuel) offset (suc r) (full_chunk i p q c d e lq ed rest whole ew ee) h o oc
        z k =
      let ld : length d ≡ encrypted_chunk_size =
        omega (arith, ap length ed, s.length_seal i false q) in
      let le : length e ≡ encrypted_chunk_size + length c =
        omega (arith, ap length ee, length-append d c) in
      let lw : length whole ≡ plain_chunk_size + length p =
        omega (arith, ap length ew, length-append q p) in
      let same : i % 2 ^ 32 ≡ i = omega arith in
      let dec : cipher.decrypt key nonce i false d ≡ some q =
        rw ed (s.decrypt_at i false q (omega arith)) in
      let ih = λ (n : ℕ).
        sized_loop-Sealed fuel 0 n rest (omega arith) (omega arith) (omega arith) (λ _. refl)
          (omega arith)
        ∙ ap (λ t. ok (take n t)) (drop-zero p) in
      rw (ee, ew)
        (rw
          (
            ne→== (suc r) 0 (omega arith),
            read_chunk-append encrypted_chunk_size d c ld,
            eq→== (length d) encrypted_chunk_size ld,
            sized_loop,
            same,
            dec,
            skip_offset-drop offset q (omega arith) z,
          )
          (sized_full-collect (sized_loop cipher key nonce start fuel (file_reader c)) _
              (drop offset q) p z ih
            ∙ ap (λ t. ok (take (suc r) t)) (sym (drop-append_le offset q p (omega arith)))))

module _ {Encryptor Decryptor : Type 0} {cipher : StreamCipher Encryptor Decryptor}
    {key nonce : Bytes} (s : IsStream cipher key nonce) where
  -- A body without its first `m` full chunks is a body.
  pub drop-Sealed :
      {i : ℕ} {p c : Bytes} (m : ℕ)
      → Sealed s i p c
      → m * plain_chunk_size ≤ length p
      → Sealed s (i + m) (drop (m * plain_chunk_size) p) (drop (m * encrypted_chunk_size) c)
  drop-Sealed {i} {p} {c} zero sealed h =
      let e : i + 0 ≡ i = omega arith in rw (e, drop-zero p, drop-zero c) sealed
  drop-Sealed (suc m) (last_chunk i p c short ec) h = absurd (omega arith)
  drop-Sealed (suc m) (full_chunk i p q c d e lq ed rest whole ew ee) h =
      let ld : length d ≡ encrypted_chunk_size =
        omega (arith, ap length ed, s.length_seal i false q) in
      let lw : length whole ≡ plain_chunk_size + length p =
        omega (arith, ap length ew, length-append q p) in
      let index : i + suc m ≡ suc i + m = omega arith in
      let plain : suc m * plain_chunk_size ≡ plain_chunk_size + m * plain_chunk_size =
        omega arith in
      let sealed : suc m * encrypted_chunk_size ≡ encrypted_chunk_size + m * encrypted_chunk_size =
        omega arith in
      rw
        (
          index,
          plain,
          sealed,
          ew,
          ee,
          drop-add plain_chunk_size (m * plain_chunk_size) (q ++ p),
          drop-add encrypted_chunk_size (m * encrypted_chunk_size) (d ++ c),
          drop-append_self q p plain_chunk_size lq,
          drop-append_self d c encrypted_chunk_size ld,
        )
        (drop-Sealed m rest (omega arith))
