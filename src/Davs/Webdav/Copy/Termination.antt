-- ===== src/Davs/Webdav/Copy/Termination.antt =====
-- How deep `do_copy` recurs.
use Prim.Native.String
use Prim.Native.String.{count}
use text.Mathlib.TextLemmas.{length-append, length-nil}
use vestirust.Prelude.{
  ℕ, zero, suc, ap, ◌+◌, ◌≤◌, ◌<◌, Bool, true, false, Option, none, some, String, List, [], ◌∷◌,
  ◌≡◌, ok, err, inl, inr, Option-cases, Bool-cases, str_eq, eq_iff, arith,
}
use vestirust.Prelude.Texts.{concat}
use vestirust.Davs.Headers.{Depth}
use vestirust.Davs.Webdav.Paths.{
  io_error, panicked, out_of_fuel, join, is_absolute, ends_with_slash,
}
use vestirust.Davs.Webdav.FilePath.{file_name, same_path}
use vestirust.Davs.Webdav.FileSystem.{FileSystem, Metadata}
use vestirust.Davs.Webdav.Copy.{
  Outcome, is_zero, keep_error, done, copy_file, copy_entries, copy_children, copy_found, do_copy,
}

-- A name joined to a path makes it longer.
join-longer :
    (base name : String)
    → is_absolute name ≡ false
    → 0 < count name
    → count base < count (join base name)
unfolding join concat
join-longer base name r l = elim (Bool-cases (str_eq base "")) [
  | inl e ↦ rw (r, e) (omega (arith, length-nil, ap count ((eq_iff base "").0 e)))
  | inr e ↦ elim (Bool-cases (ends_with_slash base)) [
    | inl s ↦
        rw (r, e, s)
          (omega (arith, length-append base (String.◌++◌ name ""), length-append name ""))
    | inr s ↦
        rw (r, e, s)
          (omega (
            arith,
            length-append base (String.◌++◌ "/" (String.◌++◌ name "")),
            length-append "/" (String.◌++◌ name ""),
            length-append name "",
          ))
  ]
]

-- Names of entries, which are not empty and not absolute.
abbrev pub AreNames : List (Option String) → Type 0
AreNames [] = Unit
AreNames (none ∷ rest) = AreNames rest
AreNames (some name ∷ rest) = (is_absolute name ≡ false) × (0 < count name) × AreNames rest

-- The documented behaviour of a file system: a directory that can be read has names as its entries,
-- and a path that is longer than the limit cannot be read.
pub record IsBounded {World : Type 0} (fs : FileSystem World) (path_max : ℕ) : Type 0 where
  pub names :
      (w : World) (path : String) (entries : List (Option String))
      → fs.read_dir w path ≡ some entries
      → AreNames entries
  pub limit :
      (w : World) (path : String) (entries : List (Option String))
      → fs.read_dir w path ≡ some entries
      → count path ≤ path_max

abbrev pub IsFinished : Outcome → Type 0
IsFinished (ok d) = Unit
IsFinished (err io_error) = Unit
IsFinished (err panicked) = Unit
IsFinished (err out_of_fuel) = ⊥

keep_error-IsFinished :
    (result retval : Outcome)
    → IsFinished result
    → IsFinished retval
    → IsFinished (keep_error result retval)
unfolding keep_error
keep_error-IsFinished (ok d) retval h k = k
keep_error-IsFinished (err e) retval h k = h

module _ {World : Type 0} (fs : FileSystem World) where
  done-IsFinished : (r : World × Bool) → IsFinished (done r).1
  unfolding done
  done-IsFinished (w, true) = tt
  done-IsFinished (w, false) = tt

  copy_file-IsFinished :
      (source dest : String) (dest_is_dir : Bool) (w : World)
      → IsFinished (copy_file fs source dest dest_is_dir w).1
  unfolding copy_file
  copy_file-IsFinished source dest false w = done-IsFinished (fs.copy source dest w)
  copy_file-IsFinished source dest true w = elim (Option-cases (file_name source)) [
    | inl e ↦ rw e tt
    | inr (name, e) ↦ rw e (done-IsFinished (fs.copy source (join dest name) w))
  ]

  module _ (path_max fuel : ℕ) (copy : String → String → Bool → World → World × Outcome)
      (ih : (source dest : String) (dest_is_dir : Bool) (w : World)
        → path_max + 1 < fuel + count source
        → IsFinished (copy source dest dest_is_dir w).1)
      (source : String) (enough : path_max < fuel + count source) where
    copy_entries-IsFinished :
        (dest : String) (entries : List (Option String)) (r : World × Outcome)
        → AreNames entries
        → IsFinished r.1
        → IsFinished (copy_entries fs copy source dest entries r).1
    unfolding copy_entries
    copy_entries-IsFinished dest [] (w, retval) a h = h
    copy_entries-IsFinished dest (none ∷ rest) (w, retval) a h = tt
    copy_entries-IsFinished dest (some name ∷ rest) (w, retval) (n, l, a) h =
        elim (Option-cases (fs.symlink_metadata w (join source name))) [
          | inl e ↦ rw (e, copy_entries) tt
          | inr (meta, e) ↦
              rw (e, copy_entries)
                (copy_entries-IsFinished dest rest _ a (
                  keep_error-IsFinished _ retval
                    (ih (join source name) (join dest name) meta.is_dir w
                      (omega (arith, join-longer source name n l)))
                    h))
        ]

  module _ (path_max : ℕ) (bounded : IsBounded fs path_max) where
    module _ (fuel : ℕ) (copy : String → String → Bool → World → World × Outcome)
        (ih : (source dest : String) (dest_is_dir : Bool) (w : World)
          → 0 < fuel
          → path_max + 1 < fuel + count source
          → IsFinished (copy source dest dest_is_dir w).1)
        (source : String) (enough : path_max < fuel + count source) where
      copy_children-IsFinished :
          (depth : Depth) (dest : String) (w : World)
          → IsFinished (copy_children fs copy depth source dest w).1
      unfolding copy_children
      copy_children-IsFinished depth dest w = elim (Bool-cases (is_zero depth)) [
        | inl e ↦ rw e tt
        | inr e ↦ elim (Option-cases (fs.read_dir w source)) [
          | inl k ↦ rw e (rw k tt)
          | inr (entries, k) ↦
              let short = bounded.limit w source entries k in
              rw e (
                rw k (
                  copy_entries-IsFinished path_max fuel copy
                    (λ s d b w' h. ih s d b w' (omega arith) h) source enough dest entries
                    (w, ok tt) (bounded.names w source entries k) tt))
        ]
      ]

      copy_found-IsFinished :
          (depth : Depth) (dest : String) (dest_is_dir : Bool) (meta : Metadata) (w : World)
          → IsFinished (copy_found fs copy depth source dest dest_is_dir meta w).1
      unfolding copy_found
      copy_found-IsFinished depth dest dest_is_dir meta w = elim (Bool-cases meta.is_file) [
        | inl e ↦ rw e (copy_file-IsFinished source dest dest_is_dir _)
        | inr e ↦ rw e (copy_children-IsFinished depth dest _)
      ]

    -- On a file system whose directories have names as their entries and cannot be read by a path
    -- that is longer than a limit, `do_copy` ends, whatever links or changes there are: with two more
    -- steps of fuel than the limit it does not run out of fuel, from any source to any destination.
    pub do_copy-terminates :
        (fuel : ℕ) (depth : Depth) (topdest source dest : String) (dest_is_dir : Bool) (w : World)
        → 0 < fuel
        → path_max + 1 < fuel + count source
        → IsFinished (do_copy fs fuel depth topdest source dest dest_is_dir w).1
    unfolding do_copy
    do_copy-terminates zero depth topdest source dest dest_is_dir w p h = absurd (omega arith)
    do_copy-terminates (suc fuel) depth topdest source dest dest_is_dir w p h =
        elim (Bool-cases (same_path source topdest)) [
          | inl e ↦ rw e tt
          | inr e ↦ elim (Option-cases (fs.metadata w source)) [
            | inl k ↦ rw e (rw k tt)
            | inr (meta, k) ↦ rw e (
                rw k (
                  copy_found-IsFinished fuel (do_copy fs fuel depth topdest)
                    (do_copy-terminates fuel depth topdest) source (omega arith) depth dest
                    dest_is_dir meta w))
          ]
        ]
