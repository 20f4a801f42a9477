-- ===== src/Davs/Headers.antt =====
-- src/davs/headers.rs: the headers `Depth` and `Overwrite`, decoded from the values of a header.
pub mod Laws
use vestirust.Prelude.{
  Bool, true, false, ◌||◌, String, List, [], ◌∷◌, ◌++◌, Result, ok, err, ◌>>=◌, str_eq,
  if◌then◌else◌,
}

-- `headers::Error`
pub data Invalid : Type 0 where
  invalid : Invalid

-- `one`: the only value
the_one : List String → Result Invalid String
the_one [] = err invalid
the_one (v ∷ []) = ok v
the_one (v ∷ v' ∷ more) = err invalid

pub data Depth : Type 0 where
  zero one infinity : Depth

pub data Overwrite : Type 0 where
  overwrite : Bool → Overwrite

depth_of : String → Result Invalid Depth
depth_of value =
    if str_eq value "0"
    then ok Depth.zero
    else if str_eq value "1"
    then ok Depth.one
    else if str_eq value "infinity" || str_eq value "Infinity"
    then ok infinity
    else err invalid

overwrite_of : String → Result Invalid Overwrite
overwrite_of line =
    if str_eq line "F"
    then ok (overwrite false)
    else if str_eq line "T"
    then ok (overwrite true)
    else err invalid

-- `Depth::decode` and `Depth::encode`, which extends the values
unfoldable pub decode_depth : List String → Result Invalid Depth
unfolding the_one depth_of
decode_depth values = do value ← the_one values; depth_of value

unfoldable pub encode_depth : Depth → List String → List String
encode_depth Depth.zero values = values ++ "0" ∷ []
encode_depth Depth.one values = values ++ "1" ∷ []
encode_depth infinity values = values ++ "Infinity" ∷ []

-- `Overwrite::decode` and `Overwrite::encode`
unfoldable pub decode_overwrite : List String → Result Invalid Overwrite
unfolding the_one overwrite_of
decode_overwrite values = do line ← the_one values; overwrite_of line

unfoldable pub encode_overwrite : Overwrite → List String → List String
encode_overwrite (overwrite true) values = values ++ "T" ∷ []
encode_overwrite (overwrite false) values = values ++ "F" ∷ []
