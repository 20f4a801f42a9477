-- ===== src/Davs/Streamer.antt =====
-- src/davs/streamer.rs: a reader as a stream of buffers. A loop takes fuel, one more than the bytes
-- left to read.
pub mod Laws
use vestirust.Prelude.{
  ℕ, zero, suc, ◌+◌, ◌-◌, ◌≤◌, ◌<◌, ◌≡◌, Option, none, some, List, [], ◌∷◌, Result, ok, err, length,
  leb, ◌==◌, if◌then◌else◌,
}
use vestirust.Prelude.Slices.{take, drop}
use vestirust.Davs.EncryptedStreamer.Cipher.{Bytes, IoError, read_error, out_of_fuel}
use vestirust.Davs.EncryptedStreamer.Streams.{ByteStream}

-- How many bytes a call `read(&mut buf)` gives, from the size of the buffer and the bytes that are
-- left; `none` is an error.
abbrev pub ReadSize : Type 0
ReadSize = ℕ → Bytes → Option ℕ

-- The contract of `AsyncRead`: a read into a buffer that is not empty gives at most what fits and is
-- left, and nothing only at the end.
pub record IsRead (read_size : ReadSize) : Type 0 where
  pub within :
      (n : ℕ) (left : Bytes) (k : ℕ) → read_size n left ≡ some k → (k ≤ n) × (k ≤ length left)
  pub progress : (n : ℕ) (left : Bytes) → 0 < n → 0 < length left → ¬ (read_size n left ≡ some 0)
  pub no_error : (n : ℕ) (left : Bytes) → (k : ℕ) × (read_size n left ≡ some k)

module _ (read_size : ReadSize) (buf_size : ℕ) where
  stream_loop : ℕ → Bytes → ByteStream
  stream_loop zero left = err out_of_fuel ∷ []
  stream_loop (suc fuel) left = elim (read_size buf_size left) [
    | none ↦ err read_error ∷ []
    | some r ↦
        let rest = stream_loop fuel (drop r left) in if r == 0 then [] else ok (take r left) ∷ rest
  ]

  -- `into_stream`, from the bytes that the reader still gives
  unfoldable pub into_stream : Bytes → ByteStream
  unfolding stream_loop
  into_stream bytes = stream_loop (suc (length bytes)) bytes

  sized_loop : ℕ → Bytes → ℕ → ByteStream
  sized_loop zero left remaining = err out_of_fuel ∷ []
  sized_loop (suc fuel) left remaining =
      if remaining == 0
      then []
      else (elim (read_size (if leb buf_size remaining then buf_size else remaining) left) [
        | none ↦ err read_error ∷ []
        | some r ↦
            let rest = sized_loop fuel (drop r left) (remaining - r) in
            if r == 0 then [] else ok (take r left) ∷ rest
      ])

  unfoldable pub into_stream_sized : Bytes → ℕ → ByteStream
  unfolding sized_loop
  into_stream_sized bytes max_length = sized_loop (suc (length bytes)) bytes max_length
