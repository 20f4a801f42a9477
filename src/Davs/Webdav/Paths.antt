-- ===== src/Davs/Webdav/Paths.antt =====
-- src/davs/webdav_server.rs: the path that a request names, on a system whose separator is '/'.
-- A path of the source is its text here, and two paths are compared by their components.
pub mod Segments
use Prim.Native.Char.{Char, code}
use Prim.Native.String
use vestirust.Prelude.{
  Bool, true, false, ◌&&◌, ◌||◌, Option, none, some, String, List, [], ◌∷◌, map, Result, ok, err,
  str_eq, ◌==◌, if◌then◌else◌,
}
use vestirust.Prelude.Texts.{concat}

-- How a call fails: by an error that `?` passes on, or by a panic. `out_of_fuel` is a recursion that was
-- given too little fuel.
pub data Fault : Type 0 where
  io_error panicked out_of_fuel : Fault

-- `contains("..")`
dots_after : Bool → String → Bool
dots_after dot String.[] = false
dots_after dot (String.◌∷◌ c s) =
    let rest = dots_after (code c == b'.') s in if dot && code c == b'.' then true else rest

unfoldable pub contains_dots : String → Bool
unfolding dots_after
contains_dots s = dots_after false s

-- `has_root`, and the last character
unfoldable pub is_absolute : String → Bool
is_absolute String.[] = false
is_absolute (String.◌∷◌ c s) = code c == b'/'

unfoldable pub ends_with_slash : String → Bool
ends_with_slash String.[] = false
ends_with_slash (String.◌∷◌ c s) = if str_eq s "" then code c == b'/' else ends_with_slash s

-- `Path::join`: an absolute path replaces the path that it is joined to.
unfoldable pub join : String → String → String
unfolding is_absolute ends_with_slash
join base path =
    if is_absolute path || str_eq base ""
    then path
    else if ends_with_slash base
    then concat (base ∷ path ∷ [])
    else concat (base ∷ "/" ∷ path ∷ [])

push_front : Char → List String → List String
push_front c [] = String.◌∷◌ c "" ∷ []
push_front c (s ∷ rest) = String.◌∷◌ c s ∷ rest

-- `split('/')`
unfoldable pub split_slash : String → List String
unfolding push_front
split_slash String.[] = "" ∷ []
split_slash (String.◌∷◌ c s) =
    let rest = split_slash s in if code c == b'/' then "" ∷ rest else push_front c rest

-- `encode_uri`, from the encoding of one segment
unfoldable pub join_slash : List String → String
join_slash [] = ""
join_slash (s ∷ []) = s
join_slash (s ∷ t ∷ rest) = concat (s ∷ "/" ∷ join_slash (t ∷ rest) ∷ [])

unfoldable pub encode_uri : (String → String) → String → String
unfolding split_slash join_slash
encode_uri urlencode v = join_slash (map urlencode (split_slash v))

-- `decode` is `decode_uri`: percent-decoding to UTF-8, or `none`.
module _ (decode : String → Option String) where
  -- `wanted_path[1..]` panics on the empty text; a request's path begins with '/' or is "*".
  join_decoded : String → String → Result Fault (Option String)
  join_decoded String.[] dav_path = err panicked
  join_decoded (String.◌∷◌ c rest) dav_path = elim (decode rest) [
    | none ↦ ok none
    | some decoded_path ↦ ok (some (join dav_path decoded_path))
  ]

  unfoldable pub extract_path : String → String → Result Fault (Option String)
  unfolding join_decoded
  extract_path wanted_path dav_path =
      if contains_dots wanted_path then ok none else join_decoded wanted_path dav_path
