-- ===== src/Davs/Webdav/Copy.antt =====
-- src/davs/webdav_server.rs: `do_copy`. The names in a directory are read once, before its entries are
-- copied. The fuel bounds how deep it recurs.
pub mod Footprint
pub mod OneFile
pub mod Termination
use vestirust.Prelude.{
  ℕ, zero, suc, Bool, true, false, not, ◌&&◌, ◌||◌, Option, none, some, String, List, [], ◌∷◌,
  Result, ok, err, if◌then◌else◌,
}
use vestirust.Model.{StatusCode}
use vestirust.Davs.Headers.{Depth, infinity, overwrite, decode_depth, decode_overwrite}
use vestirust.Davs.Webdav.Paths.{Fault, io_error, out_of_fuel, join, extract_path}
use vestirust.Davs.Webdav.FilePath.{same_path, file_name, parent}
use vestirust.Davs.Webdav.FileSystem.{FileSystem, Metadata}
use vestirust.Davs.Webdav.PathItem.{Libraries}
use vestirust.Davs.Webdav.Response.{Response}
use vestirust.Davs.Webdav.Upload.{done_or_error}

abbrev pub Outcome : Type 0
Outcome = Result Fault (Unit {0})

pub is_zero : Depth → Bool
is_zero Depth.zero = true
is_zero Depth.one = false
is_zero infinity = false

-- the later error, if there is one
keep_error : Outcome → Outcome → Outcome
keep_error (ok done) retval = retval
keep_error (err e) retval = err e

unfoldable pub done : {World : Type 0} → World × Bool → World × Outcome
done (w, true) = (w, ok tt)
done (w, false) = (w, err io_error)

module _ {World : Type 0} (fs : FileSystem World) where
  copy_file : String → String → Bool → World → World × Outcome
  unfolding done
  copy_file source dest dest_is_dir w =
      if dest_is_dir
      then (elim (file_name source) [
        | none ↦ (w, err io_error)
        | some name ↦ done (fs.copy source (join dest name) w)
      ])
      else done (fs.copy source dest w)

  -- the loop over the entries, for the recursive call `copy`
  copy_entries :
      (String → String → Bool → World → World × Outcome)
      → String
      → String
      → List (Option String)
      → World × Outcome
      → World × Outcome
  unfolding keep_error
  copy_entries copy source dest [] (w, retval) = (w, retval)
  copy_entries copy source dest (none ∷ rest) (w, retval) = (w, err io_error)
  copy_entries copy source dest (some name ∷ rest) (w, retval) =
      elim (fs.symlink_metadata w (join source name)) [
        | none ↦ (w, err io_error)
        | some meta ↦
            let (w', result) = copy (join source name) (join dest name) meta.is_dir w in
            copy_entries copy source dest rest (w', keep_error result retval)
      ]

  -- the entries of a directory, where the depth allows
  copy_children :
      (String → String → Bool → World → World × Outcome)
      → Depth
      → String
      → String
      → World
      → World × Outcome
  unfolding copy_entries is_zero
  copy_children copy depth source dest w =
      if is_zero depth then (w, ok tt) else (elim (fs.read_dir w source) [
        | none ↦ (w, err io_error)
        | some entries ↦ copy_entries copy source dest entries (w, ok tt)
      ])

  copy_found :
      (String → String → Bool → World → World × Outcome)
      → Depth
      → String
      → String
      → Bool
      → Metadata
      → World
      → World × Outcome
  unfolding copy_file copy_children
  copy_found copy depth source dest dest_is_dir meta w =
      let w' = if dest_is_dir then (fs.create_dir dest w).0 else w in
      if meta.is_file
      then copy_file source dest dest_is_dir w'
      else copy_children copy depth source dest w'

  unfoldable pub do_copy : ℕ → Depth → String → String → String → Bool → World → World × Outcome
  unfolding copy_found
  do_copy zero depth topdest source dest dest_is_dir w = (w, err out_of_fuel)
  do_copy (suc fuel) depth topdest source dest dest_is_dir w =
      let copy = do_copy fuel depth topdest in
      if same_path source topdest then (w, ok tt) else (elim (fs.metadata w source) [
        | none ↦ (w, err io_error)
        | some meta ↦ copy_found copy depth source dest dest_is_dir meta w
      ])
