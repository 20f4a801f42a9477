-- ===== src/Davs/Streamer/Laws.antt =====
-- What the streams yield, for any sizes of reads.
use vestirust.Prelude.{
  ℕ, zero, suc, ◌-◌, ◌≤◌, ◌<◌, ◌≡◌, refl, sym, ap, ◌∙◌, inl, inr, some, ok, ◌==◌, ◌++◌, length, leb,
  if◌then◌else◌, Bool-cases, ne→==, arith, [], ◌∷◌, ==_iff, true, false,
}
use vestirust.Prelude.Slices.{
  take, drop, take-append-drop, length-drop, length-take, take-append_ge,
}
use vestirust.Davs.EncryptedStreamer.Cipher.{Bytes}
use vestirust.Davs.EncryptedStreamer.{collect}
use vestirust.Davs.Streamer.{
  ReadSize, IsRead, stream_loop, into_stream, sized_loop, into_stream_sized,
}

pos_of_test : (r : ℕ) → (r == 0) ≡ false → 0 < r
pos_of_test r h = ground arith

take-split :
    (r n : ℕ) (xs : Bytes)
    → r ≤ n
    → r ≤ length xs
    → take r xs ++ take (n - r) (drop r xs) ≡ take n xs
take-split r n xs h k =
    let lt : length (take r xs) ≡ r = omega (arith, length-take r xs) in
    ap (λ m. take r xs ++ take (n - m) (drop r xs)) (sym lt)
    ∙ sym (take-append_ge n (take r xs) (drop r xs) (omega arith))
    ∙ ap (take n) (take-append-drop r xs)

module _ {read_size : ReadSize} (reads : IsRead read_size) (buf_size : ℕ) where
  -- A read of nothing is at the end.
  read_end :
      (n : ℕ) (left : Bytes) (r : ℕ)
      → 0 < n
      → read_size n left ≡ some r
      → (r == 0) ≡ true
      → left ≡ []
  read_end n [] r b e z = refl
  read_end n (x ∷ xs) r b e z =
      absurd (reads.progress n (x ∷ xs) b (omega arith) (e ∙ ap some ((==_iff r 0).0 z)))

  stream_loop-collect :
      (fuel : ℕ) (left : Bytes)
      → 0 < buf_size
      → length left < fuel
      → collect (stream_loop read_size buf_size fuel left) ≡ ok left
  unfolding stream_loop
  stream_loop-collect zero left b h = absurd (omega arith)
  stream_loop-collect (suc fuel) left b h =
      let (r, e) = reads.no_error buf_size left in
      let (fits, inside) = reads.within buf_size left r e in
      elim (Bool-cases (r == 0)) [
        | inl last ↦ rw (e, stream_loop, last) (ap ok (sym (read_end buf_size left r b e last)))
        | inr more ↦
            let shorter : length (drop r left) < fuel =
              omega (arith, length-drop r left, pos_of_test r more) in
            rw (e, stream_loop, more, stream_loop-collect fuel (drop r left) b shorter)
              (ap ok (take-append-drop r left))
      ]

  sized_loop-collect :
      (fuel : ℕ) (left : Bytes) (remaining : ℕ)
      → 0 < buf_size
      → length left < fuel
      → collect (sized_loop read_size buf_size fuel left remaining) ≡ ok (take remaining left)
  unfolding sized_loop
  sized_loop-collect zero left remaining b h = absurd (omega arith)
  sized_loop-collect (suc fuel) left zero b h = unfold take in refl
  sized_loop-collect (suc fuel) left (suc m) b h =
      let n : ℕ = if leb buf_size (suc m) then buf_size else suc m in
      let (r, e) = reads.no_error n left in
      let (fits, inside) = reads.within n left r e in
      let n_pos : 0 < n = ground arith in
      let n_le : n ≤ suc m = ground arith in
      elim (Bool-cases (r == 0)) [
        | inl last ↦
            rw (ne→== (suc m) 0 (omega arith), e, last)
              (rw (read_end n left r n_pos e last) (unfold take in refl))
        | inr more ↦
            let shorter : length (drop r left) < fuel =
              omega (arith, length-drop r left, pos_of_test r more) in
            rw
              (
                ne→== (suc m) 0 (omega arith),
                e,
                more,
                sized_loop-collect fuel (drop r left) (suc m - r) b shorter,
              )
              (ap ok (take-split r (suc m) left (omega arith) inside))
      ]

  -- If every read succeeds and the buffer is not empty, the stream yields, in all, the bytes of the
  -- reader, and the sized stream the first `max_length` of them.
  pub into_stream-collect :
      (bytes : Bytes) (max_length : ℕ)
      → 0 < buf_size
      → (collect (into_stream read_size buf_size bytes) ≡ ok bytes)
        × (collect (into_stream_sized read_size buf_size bytes max_length)
            ≡ ok (take max_length bytes))
  unfolding into_stream into_stream_sized
  into_stream-collect bytes max_length b = (
    stream_loop-collect (suc (length bytes)) bytes b (omega arith),
    sized_loop-collect (suc (length bytes)) bytes max_length b (omega arith),
  )
