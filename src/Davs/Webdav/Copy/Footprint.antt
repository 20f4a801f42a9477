-- ===== src/Davs/Webdav/Copy/Footprint.antt =====
-- Where `do_copy` writes.
use vestirust.Prelude.{
  ℕ, zero, suc, Bool, true, false, Option, none, some, String, List, [], ◌∷◌, ◌≡◌, refl, ok, inl,
  inr, Option-cases, Bool-cases, if◌then◌else◌,
}
use vestirust.Davs.Headers.{Depth}
use vestirust.Davs.Webdav.Paths.{join, is_absolute}
use vestirust.Davs.Webdav.FilePath.{file_name, same_path}
use vestirust.Davs.Webdav.FilePath.Names.{file_name-relative}
use vestirust.Davs.Webdav.FileSystem.{FileSystem, FsOp, Metadata}
use vestirust.Davs.Webdav.FileSystem.Changes.{Changes, same, Changes-one, Changes-trans}
use vestirust.Davs.Webdav.Copy.Termination.{AreNames}
use vestirust.Davs.Webdav.Copy.{
  Outcome, is_zero, done, copy_file, copy_entries, copy_children, copy_found, do_copy,
}

-- `Below top path`: names that are not absolute, joined to `top`, lead to `path`.
pub data Below (top : String) : String → Type 0 where
  at_top : {path : String} → path ≡ top → Below top path
  entry :
      {path directory : String} (name : String)
      → is_absolute name ≡ false
      → Below top directory
      → path ≡ join directory name
      → Below top path

-- The documented behaviour of a file system: a directory that can be read has names as its entries.
abbrev pub HasNames : {World : Type 0} → FileSystem World → Type 0
HasNames {World} fs =
    (w : World) (path : String) (entries : List (Option String))
    → fs.read_dir w path ≡ some entries
    → AreNames entries

done-world : {World : Type 0} (r : World × Bool) → (done r).0 ≡ r.0
unfolding done
done-world (w, true) = refl
done-world (w, false) = refl

module _ {World : Type 0} {fs : FileSystem World} (names : HasNames fs) {top : String} where
  copy_file-Changes :
      (source dest : String) (dest_is_dir : Bool) (w : World)
      → Below top dest
      → Changes fs (Below top) w (copy_file fs source dest dest_is_dir w).0
  unfolding copy_file
  copy_file-Changes source dest false w b =
      rw (done-world (fs.copy source dest w)) (Changes-one (FsOp.copy source dest) b)
  copy_file-Changes source dest true w b = elim (Option-cases (file_name source)) [
    | inl e ↦ rw e same
    | inr (name, e) ↦ rw e (
        rw (done-world (fs.copy source (join dest name) w)) (
          Changes-one (FsOp.copy source (join dest name))
            (entry name (file_name-relative source name e) b refl)))
  ]

  module _ (copy : String → String → Bool → World → World × Outcome)
      (ih : (source dest : String) (dest_is_dir : Bool) (w : World)
        → Below top dest
        → Changes fs (Below top) w (copy source dest dest_is_dir w).0) where
    copy_entries-Changes :
        (source dest : String) (entries : List (Option String)) (r : World × Outcome)
        → AreNames entries
        → Below top dest
        → Changes fs (Below top) r.0 (copy_entries fs copy source dest entries r).0
    unfolding copy_entries
    copy_entries-Changes source dest [] (w, retval) a b = same
    copy_entries-Changes source dest (none ∷ rest) (w, retval) a b = same
    copy_entries-Changes source dest (some name ∷ rest) (w, retval) (relative, filled, a) b =
        elim (Option-cases (fs.symlink_metadata w (join source name))) [
          | inl e ↦ rw (e, copy_entries) same
          | inr (meta, e) ↦
              rw (e, copy_entries)
                (Changes-trans
                  (ih (join source name) (join dest name) meta.is_dir w
                    (entry name relative b refl))
                  (copy_entries-Changes source dest rest _ a b))
        ]

    copy_children-Changes :
        (depth : Depth) (source dest : String) (w : World)
        → Below top dest
        → Changes fs (Below top) w (copy_children fs copy depth source dest w).0
    unfolding copy_children
    copy_children-Changes depth source dest w b = elim (Bool-cases (is_zero depth)) [
      | inl e ↦ rw e same
      | inr e ↦ elim (Option-cases (fs.read_dir w source)) [
        | inl k ↦ rw e (rw k same)
        | inr (entries, k) ↦ rw e (
            rw k (copy_entries-Changes source dest entries (w, ok tt) (names w source entries k) b))
      ]
    ]

    created-Changes :
        (dest : String) (dest_is_dir : Bool) (w : World)
        → Below top dest
        → Changes fs (Below top) w (if dest_is_dir then (fs.create_dir dest w).0 else w)
    created-Changes dest true w b = Changes-one (FsOp.create_dir dest) b
    created-Changes dest false w b = same

    copy_found-Changes :
        (depth : Depth) (source dest : String) (dest_is_dir : Bool) (meta : Metadata) (w : World)
        → Below top dest
        → Changes fs (Below top) w (copy_found fs copy depth source dest dest_is_dir meta w).0
    unfolding copy_found
    copy_found-Changes depth source dest dest_is_dir meta w b =
        Changes-trans (created-Changes dest dest_is_dir w b) (elim (Bool-cases meta.is_file) [
          | inl e ↦ rw e (copy_file-Changes source dest dest_is_dir _ b)
          | inr e ↦ rw e (copy_children-Changes depth source dest _ b)
        ])

  pub do_copy-Changes :
      (fuel : ℕ) (depth : Depth) (topdest source dest : String) (dest_is_dir : Bool) (w : World)
      → Below top dest
      → Changes fs (Below top) w (do_copy fs fuel depth topdest source dest dest_is_dir w).0
  unfolding do_copy
  do_copy-Changes zero depth topdest source dest dest_is_dir w b = same
  do_copy-Changes (suc fuel) depth topdest source dest dest_is_dir w b =
      elim (Bool-cases (same_path source topdest)) [
        | inl e ↦ rw e same
        | inr e ↦ elim (Option-cases (fs.metadata w source)) [
          | inl k ↦ rw e (rw k same)
          | inr (meta, k) ↦ rw e (
              rw k (
                copy_found-Changes (do_copy fs fuel depth topdest)
                  (do_copy-Changes fuel depth topdest) depth source dest dest_is_dir meta w b))
        ]
      ]
