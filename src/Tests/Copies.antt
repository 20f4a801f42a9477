-- ===== src/Tests/Copies.antt =====
-- Runs of the theorems on COPY, on a file system with one file and on one whose directories do not end.
use Prim.Native.String.{count}
use vestirust.Prelude.{
  true, false, Option, none, some, String, [], ◌∷◌, ◌≡◌, refl, ok, length, leb, Bool, List, arith,
  if◌then◌else◌, ap,
}
use vestirust.Prelude.Texts.{concat}
use vestirust.Model.{StatusCode}
use vestirust.Davs.Webdav.FileSystem.{FileSystem}
use vestirust.Davs.Webdav.Paths.{is_absolute, split_slash, join_slash}
use vestirust.Davs.Webdav.FilePath.{same_path, components, parent}
use vestirust.Davs.Webdav.Response.{default_response}
use vestirust.Davs.Webdav.CopyMove.{copymove_to, parent_exists}
use vestirust.Davs.Webdav.Copy.{do_copy}
use vestirust.Davs.Webdav.Copy.Termination.{IsBounded, IsFinished, AreNames, do_copy-terminates}
use vestirust.Davs.Webdav.CopyMove.OneFile.{copymove_to-place}
use vestirust.Davs.Headers.{infinity}
use vestirust.Tests.Files.{OneFile, file_metadata, dir_metadata, one_file, content, with_a, named_a}

-- Each directory has a directory `x` in it, as far down as paths can name one.
abbrev endless : FileSystem OneFile
endless = record one_file {
  metadata = λ w path. some dir_metadata;
  symlink_metadata = λ w path. some dir_metadata;
  read_dir = λ w path. if leb (count path) 4096 then some (some "x" ∷ []) else none;
}

entries_of : Option (List (Option String)) → List (Option String)
entries_of none = []
entries_of (some entries) = entries

only_x :
    (b : Bool) (entries : List (Option String))
    → (if b then some (some "x" ∷ []) else none) ≡ some entries
    → (b ≡ true) × AreNames entries
unfolding is_absolute entries_of
only_x true entries e =
    let x : some "x" ∷ [] ≡ entries = ap entries_of e in (refl, rw (← x) (refl, omega arith, tt))
only_x false entries e = cc

endless-IsBounded : IsBounded endless 4096
endless-IsBounded = record {
  names = λ w path entries e. (only_x (leb (count path) 4096) entries e).1;
  limit = λ w path entries e. let le = (only_x (leb (count path) 4096) entries e).0 in ground arith;
}

do_copy-terminates_example :
    IsFinished (do_copy endless 4098 infinity "/srv/b" "/srv/a" "/srv/b" true none).1
do_copy-terminates_example =
    do_copy-terminates endless 4096 endless-IsBounded 4098 infinity "/srv/b" "/srv/a" "/srv/b" true
      none (omega arith) (omega arith)

other_path : same_path "/srv/a" "/srv/b" ≡ false
unfolding same_path components is_absolute split_slash
other_path = refl

-- A file system whose copies succeed.
abbrev copying : FileSystem OneFile
copying = record one_file { copy = λ path to w. (w, true) }

has_parent : parent_exists copying with_a "/srv/b" ≡ true
unfolding parent_exists parent components is_absolute split_slash join_slash concat
has_parent = refl

copymove_to-place_example :
    copymove_to copying 1 true true infinity "/srv/a" "/srv/b" default_response with_a
    ≡ (with_a, ok (record default_response { status = StatusCode.created }))
copymove_to-place_example =
    copymove_to-place copying 0 infinity "/srv/a" "a" "/srv/b" (file_metadata (length content))
      default_response with_a refl refl refl named_a other_path has_parent true
