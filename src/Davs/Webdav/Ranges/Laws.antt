-- ===== src/Davs/Webdav/Ranges/Laws.antt =====
-- What a range selects, in a file whose size is a `u64`.
use vestirust.Prelude.{
  ℕ, ◌+◌, ◌-◌, ◌%◌, ◌≤◌, ◌<◌, ◌≡◌, ◌⊎◌, min, Bool, false, Option, none, some, if◌then◌else◌, ltb,
  arith,
}
use vestirust.Prelude.Words.{u64_mod, add_u64, sub_u64}
use vestirust.Davs.Webdav.Ranges.{RangeAnswer, part, not_satisfiable, answer_range}

-- A range that starts in the file and does not end before its start selects the bytes from its start
-- to its end, or to the last byte of the file where that comes first; one that ends before its start,
-- or has no end and starts past the file, is not satisfiable.
pub answer_range-part :
    (start size : ℕ)
    → size < u64_mod
    → ((v : ℕ)
        → start < size
        → start ≤ v
        → (end : ℕ) × (answer_range (record { start = start; end = some v }) size
            ≡ part start end (end - start + 1))
          × (start ≤ end)
          × (end < size)
          × (end ≤ v)
          × ((end ≡ v) ⊎ (end + 1 ≡ size)))
      × (start < size
          → answer_range (record { start = start; end = none }) size
            ≡ part start (size - 1) (size - start))
      × ((v : ℕ)
          → v < start
          → answer_range (record { start = start; end = some v }) size ≡ not_satisfiable)
      × (size ≤ start → answer_range (record { start = start; end = none }) size ≡ not_satisfiable)
unfolding answer_range add_u64 sub_u64
answer_range-part start size s = (
  λ v h k. (
    if ltb (size - 1) v then size - 1 else v,
    ground arith,
    ground arith,
    ground arith,
    ground arith,
    ground arith,
  ),
  λ h. ground arith,
  λ v h. ground arith,
  λ h. ground arith,
)

-- The last byte that a range asks for in a file, and whether the range ends before its start.
abbrev pub wanted_end : Option ℕ → ℕ → ℕ
wanted_end none size = size - 1
wanted_end (some v) size = min v (size - 1)

abbrev pub ends_early : Option ℕ → ℕ → Bool
ends_early none start = false
ends_early (some v) start = ltb v start

-- The answer to a range that starts past a file and does not end before its start.
abbrev pub past_end : ℕ → ℕ → Option ℕ → RangeAnswer
past_end start size none = not_satisfiable
past_end start size (some v) = part start (size - 1) ((u64_mod + size - start) % u64_mod)

-- A range that starts in the file is not satisfiable if it ends before its start, and else selects
-- the bytes from its start to its end, or to the last of the file where that comes first.
pub answer_range_lem :
    (start size : ℕ) (to : Option ℕ)
    → size < u64_mod
    → start < size
    → answer_range (record { start = start; end = to }) size ≡ (
        if ends_early to start
        then not_satisfiable
        else part start (wanted_end to size) (wanted_end to size - start + 1))
unfolding answer_range add_u64 sub_u64
answer_range_lem start size none s h = ground arith
answer_range_lem start size (some v) s h = ground arith

-- A range with an end that starts past a file which is not empty is not refused: the answer is a part
-- that ends with the file, before its start, of a size that has wrapped around.
pub answer_range_past_end :
    (start v size : ℕ)
    → 0 < size
    → size < start
    → start ≤ v
    → v < u64_mod
    → answer_range (record { start = start; end = some v }) size
      ≡ part start (size - 1) (u64_mod + size - start)
unfolding answer_range add_u64 sub_u64
answer_range_past_end start v size z s h u = ground arith

-- A range that ends before its start is not satisfiable, nor is one without an end that starts past
-- the file. Any other that starts in a file selects the bytes from its start to its end, or to the
-- last of the file where that comes first. One with an end that starts past a file which is not empty
-- is not refused: the answer is a part that ends with the file, before its start, of a size that has
-- wrapped around.
pub answer_range_total :
    (start size : ℕ) (to : Option ℕ)
    → 0 < size
    → size < u64_mod
    → start < u64_mod
    → answer_range (record { start = start; end = to }) size ≡ (
        if ends_early to start
        then not_satisfiable
        else if ltb start size
        then part start (wanted_end to size) (wanted_end to size - start + 1)
        else past_end start size to)
unfolding answer_range add_u64 sub_u64
answer_range_total start size none z s b = ground arith
answer_range_total start size (some v) z s b = ground arith
