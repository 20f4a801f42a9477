-- ===== src/Davs/Webdav/Copy/OneFile.antt =====
-- Where `do_copy` puts one file.
use vestirust.Prelude.{ℕ, suc, Bool, true, false, not, some, String, ◌≡◌, refl}
use vestirust.Davs.Headers.{Depth}
use vestirust.Davs.Webdav.Paths.{join}
use vestirust.Davs.Webdav.FilePath.{file_name, same_path}
use vestirust.Davs.Webdav.FileSystem.{FileSystem, Metadata}
use vestirust.Davs.Webdav.Copy.{done, copy_file, copy_found, do_copy}

module _ {World : Type 0} (fs : FileSystem World) where
  -- The call that copies the file: onto a destination that is a file, and else into the destination,
  -- which is made a directory first.
  abbrev pub place : Bool → String → String → String → World → World × Bool
  place true path name dest w = fs.copy path dest w
  place false path name dest w = fs.copy path (join dest name) (fs.create_dir dest w).0

  pub do_copy-place :
      (fuel : ℕ) (depth : Depth) (path name dest : String) (onto_file : Bool) (meta : Metadata)
      (w : World)
      → fs.metadata w path ≡ some meta
      → meta.is_file ≡ true
      → file_name path ≡ some name
      → same_path path dest ≡ false
      → do_copy fs (suc fuel) depth dest path dest (not onto_file) w
        ≡ done (place onto_file path name dest w)
  unfolding do_copy copy_found copy_file
  do_copy-place fuel depth path name dest true meta w m f n s = rw (s, m, f) refl
  do_copy-place fuel depth path name dest false meta w m f n s = rw (s, m, f, n) refl
