-- ===== src/Davs/Webdav/SendFile/Slices.antt =====
-- What is sent of the content of a file: all of it, or a slice.
use vestirust.Prelude.{
  ℕ, ◌+◌, ◌-◌, ◌≤◌, ◌<◌, ◌≡◌, ◌⊎◌, sym, ap, ◌∙◌, inl, inr, false, Option, none, some, [], ok,
  length, arith,
}
use vestirust.Prelude.Slices.{take, drop, length-drop, take_of_length-le}
use vestirust.Prelude.Words.{u64_mod}
use vestirust.Davs.EncryptedStreamer.Cipher.{Bytes, StreamCipher}
use vestirust.Davs.EncryptedStreamer.{collect}
use vestirust.Davs.Streamer.{ReadSize, IsRead}
use vestirust.Davs.Streamer.Laws.{into_stream-collect}
use vestirust.Davs.Webdav.Ranges.{RangeValue, part, answer_range}
use vestirust.Davs.Webdav.Ranges.Laws.{answer_range-part}
use vestirust.Davs.Webdav.Response.{Body, empty, text, stream, Response}
use vestirust.Davs.Webdav.SendFile.{
  Texts, buf_size, whole_body, part_body, send_range, send_content,
}

-- The consumer of a body gets these bytes, and no error.
abbrev pub Yields : Body → Bytes → Type 0
Yields empty bytes = bytes ≡ []
Yields (text t) bytes = ⊥
Yields (stream s) bytes = collect s ≡ ok bytes

-- The bytes that a range names: all from its start, up to its end where it has one.
abbrev pub slice : Option RangeValue → Bytes → Bytes
slice none bytes = bytes
slice (some range) bytes = elim range.end [
  | none ↦ drop range.start bytes
  | some v ↦ take (v + 1 - range.start) (drop range.start bytes)
]

-- The range starts in a file of that size, and does not end before its start.
abbrev pub IsInFile : Option RangeValue → ℕ → Type 0
IsInFile none size = Unit
IsInFile (some range) size =
    (range.start < size) × (elim range.end [ none ↦ Unit {0} | some v ↦ range.start ≤ v ])

take-cut :
    (start v end : ℕ) (bytes : Bytes)
    → start ≤ end
    → end ≤ v
    → (end ≡ v) ⊎ (end + 1 ≡ length bytes)
    → take (end - start + 1) (drop start bytes) ≡ take (v + 1 - start) (drop start bytes)
take-cut start v end bytes h k (inl same) = ap (λ n. take n (drop start bytes)) (omega arith)
take-cut start v end bytes h k (inr last) =
    take_of_length-le _ _ (omega (arith, length-drop start bytes))
    ∙ sym (take_of_length-le _ _ (omega (arith, length-drop start bytes)))

-- A satisfiable range is answered by a part that starts in the file and has the bytes of the slice.
answer-slice :
    (bytes : Bytes) (start : ℕ) (to : Option ℕ)
    → length bytes < u64_mod
    → IsInFile (some (record { start = start; end = to })) (length bytes)
    → (end part_size : ℕ) × (answer_range (record { start = start; end = to }) (length bytes)
        ≡ part start end part_size)
      × (take part_size (drop start bytes)
          ≡ slice (some (record { start = start; end = to })) bytes)
answer-slice bytes start none s (h, _) = (
  length bytes - 1,
  length bytes - start,
  (answer_range-part start (length bytes) s).1 h,
  take_of_length-le _ _ (omega (arith, length-drop start bytes)),
)
answer-slice bytes start (some v) s (h, k) =
    let (end, e, a, b, c, d) = (answer_range-part start (length bytes) s).0 v h k in
    (end, end - start + 1, e, take-cut start v end bytes a c d)

module _ {Encryptor Decryptor : Type 0} (cipher : StreamCipher Encryptor Decryptor)
    (read_size : ReadSize) (texts : Texts) where
  -- The bodies of a file give its content and the parts of it.
  pub record Serves (key : Option Bytes) (file bytes : Bytes) : Type 0 where
    pub whole : Yields (whole_body cipher read_size texts key file) bytes
    pub parts :
        (start n : ℕ)
        → start ≤ length bytes
        → Yields (part_body cipher read_size texts key file start n) (take n (drop start bytes))

  pub Serves-plain : IsRead read_size → (bytes : Bytes) → Serves none bytes bytes
  unfolding whole_body part_body
  Serves-plain reads bytes = record {
    whole = (into_stream-collect reads buf_size bytes 0 (omega arith)).0;
    parts = λ start n h. (into_stream-collect reads buf_size (drop start bytes) n (omega arith)).1;
  }

  pub send_content-slice :
      (range : Option RangeValue) (key : Option Bytes) (file bytes : Bytes) (res : Response)
      → length bytes < u64_mod
      → Serves key file bytes
      → IsInFile range (length bytes)
      → Yields
          (send_content cipher read_size texts range (length bytes) false key file res).body
          (slice range bytes)
  unfolding send_content send_range
  send_content-slice none key file bytes res s serves h = serves.whole
  send_content-slice (some range) key file bytes res s serves h =
      let (end, part_size, answer, cut) = answer-slice bytes range.start range.end s h in
      rw (answer, ← cut, send_range) (serves.parts range.start part_size (omega arith))
