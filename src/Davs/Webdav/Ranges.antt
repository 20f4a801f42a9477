-- ===== src/Davs/Webdav/Ranges.antt =====
-- src/davs/webdav_server.rs: the header `Range` and the part of a file that it selects.
pub mod Laws
use Prim.Native.Char.{Char, code}
use Prim.Native.String
use vestirust.Prelude.{
  ℕ, ◌+◌, ◌-◌, ◌*◌, ◌^◌, Bool, true, false, ◌&&◌, Option, none, some, String, str_eq, ltb, leb,
  ◌==◌, if◌then◌else◌,
}
use vestirust.Prelude.Words.{u64_mod, add_u64, sub_u64}

-- `splitn(2, c)`: the text before the first `c`, and the text after it
unfoldable pub split_once : ℕ → String → String × Option String
split_once sep String.[] = ("", none)
split_once sep (String.◌∷◌ c s) =
    let (front, back) = split_once sep s in
    if code c == sep then ("", some s) else (String.◌∷◌ c front, back)

-- the digits of `str::parse::<u64>`, which fails past the largest number
parse_digits : ℕ → String → Option ℕ
parse_digits n String.[] = some n
parse_digits n (String.◌∷◌ c s) =
    let next = n * 10 + (code c - b'0') in
    let rest = parse_digits next s in
    if leb b'0' (code c) && leb (code c) b'9' && ltb next u64_mod then rest else none

-- `str::parse::<u64>`, which allows a sign '+' before the digits
unfoldable pub parse_u64 : String → Option ℕ
unfolding parse_digits
parse_u64 String.[] = none
parse_u64 (String.◌∷◌ c s) =
    if code c == b'+'
    then (if str_eq s "" then none else parse_digits 0 s)
    else parse_digits 0 (String.◌∷◌ c s)

pub record RangeValue : Type 0 where
  pub start : ℕ
  pub end : Option ℕ

infixl 5 ◌>>=◌
abbrev ◌>>=◌ : {A B : Type 0} → Option A → (A → Option B) → Option B
none >>= k = none
some a >>= k = k a

parse_end : Option String → Option (Option ℕ)
parse_end none = some none
parse_end (some text) = if str_eq text "" then some none else (do v ← parse_u64 text; some (some v))

-- `parse_range`, from the text of the header, if there is one and it is printable
unfoldable pub parse_range : Option String → Option RangeValue
unfolding parse_end
parse_range header = do
  hdr ← header
  let (units, spec) = split_once b'=' hdr
  if str_eq units "bytes"
      then (do
        range ← spec
        let (from, to) = split_once b'-' range
        start ← parse_u64 from
        end ← parse_end to
        some (record { start = start; end = end }))
      else none

-- What `handle_send_file` answers to a range of a file of `size` bytes: the part from `start` to
-- `end`, which has `part_size` bytes, or the status 416.
pub data RangeAnswer : Type 0 where
  part : (start end part_size : ℕ) → RangeAnswer
  not_satisfiable : RangeAnswer

-- the test of the range, and the last byte
range_test : RangeValue → ℕ → Bool
range_test range size = elim range.end [ none ↦ ltb range.start size | some v ↦ leb range.start v ]

last_byte : RangeValue → ℕ → ℕ
last_byte range size = elim range.end [
  | none ↦ sub_u64 size 1
  | some v ↦ if ltb (sub_u64 size 1) v then sub_u64 size 1 else v
]

unfoldable pub answer_range : RangeValue → ℕ → RangeAnswer
unfolding range_test last_byte
answer_range range size =
    if range_test range size
    then (let end = last_byte range size in
        part range.start end (add_u64 (sub_u64 end range.start) 1))
    else not_satisfiable
