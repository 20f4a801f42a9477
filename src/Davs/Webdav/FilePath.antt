-- ===== src/Davs/Webdav/FilePath.antt =====
-- `std::path`, on a system whose separator is '/': components, parents, prefixes.
pub mod Prefix
pub mod Names
use vestirust.Prelude.{
  ℕ, zero, suc, Bool, true, false, ◌&&◌, ◌||◌, Option, none, some, String, List, [], ◌∷◌, length,
  str_eq, if◌then◌else◌,
}
use vestirust.Davs.Webdav.Paths.{is_absolute, split_slash, join_slash}

-- A segment that is no component: repeated slashes, and ".".
is_blank : String → Bool
is_blank s = str_eq s "" || str_eq s "."

unfoldable pub named : List String → List String
unfolding is_blank
named [] = []
named (s ∷ rest) = if is_blank s then named rest else s ∷ named rest

relative_components : List String → List String
relative_components [] = []
relative_components (s ∷ rest) = if str_eq s "." then s ∷ named rest else named (s ∷ rest)

-- `components`: the root is "/", and "." is one only at the start of a relative path
unfoldable pub components : String → List String
unfolding named relative_components
components path =
    if is_absolute path
    then "/" ∷ named (split_slash path)
    else relative_components (split_slash path)

texts_eq : List String → List String → Bool
texts_eq [] [] = true
texts_eq [] (t ∷ ts) = false
texts_eq (s ∷ ss) [] = false
texts_eq (s ∷ ss) (t ∷ ts) = str_eq s t && texts_eq ss ts

-- `==` of paths
unfoldable pub same_path : String → String → Bool
unfolding texts_eq
same_path path other = texts_eq (components path) (components other)

is_prefix : List String → List String → Bool
is_prefix [] ts = true
is_prefix (s ∷ ss) [] = false
is_prefix (s ∷ ss) (t ∷ ts) = str_eq s t && is_prefix ss ts

-- `Path::starts_with`
unfoldable pub starts_with : String → String → Bool
unfolding is_prefix
starts_with path base = is_prefix (components base) (components path)

drop_blank : List String → List String
unfolding is_blank
drop_blank [] = []
drop_blank (s ∷ rest) = if is_blank s then drop_blank rest else s ∷ rest

cons_unless_blank : String → List String → List String
unfolding is_blank
cons_unless_blank s [] = if is_blank s then [] else s ∷ []
cons_unless_blank s (t ∷ ts) = s ∷ t ∷ ts

drop_blank_last : List String → List String
unfolding cons_unless_blank
drop_blank_last [] = []
drop_blank_last (s ∷ rest) = cons_unless_blank s (drop_blank_last rest)

drop_last : List String → List String
drop_last [] = []
drop_last (s ∷ []) = []
drop_last (s ∷ t ∷ rest) = s ∷ drop_last (t ∷ rest)

last : List String → Option String
last [] = none
last (s ∷ []) = some s
last (s ∷ t ∷ rest) = last (t ∷ rest)

-- the segments behind the first `n` that are components
skip_named : ℕ → List String → List String
unfolding is_blank
skip_named zero segments = segments
skip_named (suc n) [] = []
skip_named (suc n) (s ∷ rest) = skip_named (if is_blank s then suc n else n) rest

-- `Path::strip_prefix`: the rest keeps its spelling
unfoldable pub strip_prefix : String → String → Option String
unfolding starts_with drop_blank drop_blank_last skip_named
strip_prefix path base = elim (components base) [
  | [] ↦ some path
  | c ∷ cs ↦
      if starts_with path base
      then some (
          join_slash (
            drop_blank_last
              (drop_blank (skip_named (length (named (split_slash base))) (split_slash path)))))
      else none
]

-- `Path::file_name`
unfoldable pub file_name : String → Option String
unfolding last
file_name path = elim (last (components path)) [
  | none ↦ none
  | some name ↦ if str_eq name "/" || str_eq name "." || str_eq name ".." then none else some name
]

rooted : Bool → String → String
rooted absolute text = if absolute && str_eq text "" then "/" else text

-- `Path::parent`
unfoldable pub parent : String → Option String
unfolding last rooted drop_last drop_blank_last
parent path = elim (last (components path)) [
  | none ↦ none
  | some name ↦
      if str_eq name "/"
      then none
      else some (
          rooted (is_absolute path)
            (join_slash (drop_blank_last (drop_last (drop_blank_last (split_slash path))))))
]
