-- ===== src/Prelude/Texts.antt =====
-- `format!` of texts and numbers, and `contains`.
pub mod Contained
use Prim.Native.Nat.{ℕ, zero, suc, ◌/◌, ◌%◌}
use Prim.Native.String
use Prim.Native.String.{String}
use mathlib.Core.List.{List, [], ◌∷◌}
use text.Mathlib.Text.{starts_with}
use mathlib.Core.Bool.{Bool, ◌||◌}
use vestirust.Prelude.Tests.{ltb, ◌==◌, if◌then◌else◌}

unfoldable pub concat : List String → String
concat [] = ""
concat (s ∷ rest) = String.◌++◌ s (concat rest)

digit : ℕ → String
digit n =
    if n == 0
    then "0"
    else if n == 1
    then "1"
    else if n == 2
    then "2"
    else if n == 3
    then "3"
    else if n == 4
    then "4"
    else if n == 5
    then "5"
    else if n == 6
    then "6"
    else if n == 7
    then "7"
    else if n == 8
    then "8"
    else "9"

-- The fuel bounds the number of digits.
decimal_from : ℕ → ℕ → String
unfolding digit
decimal_from zero n = ""
decimal_from (suc fuel) n =
    let front = decimal_from fuel (n / 10) in
    if ltb n 10 then digit n else String.◌++◌ front (digit (n % 10))

-- A `u64` has at most 20 digits.
unfoldable pub decimal : ℕ → String
unfolding decimal_from
decimal n = decimal_from 20 n

-- `str::contains`
unfoldable pub contains_text : String → String → Bool
contains_text String.[] pattern = starts_with "" pattern
contains_text (String.◌∷◌ c s) pattern =
    starts_with (String.◌∷◌ c s) pattern || contains_text s pattern
