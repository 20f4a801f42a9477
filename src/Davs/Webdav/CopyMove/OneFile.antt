-- ===== src/Davs/Webdav/CopyMove/OneFile.antt =====
-- Where a COPY of one file puts it.
use vestirust.Prelude.{
  ℕ, suc, Bool, true, false, Option, none, some, String, Result, ok, err, ◌≡◌, refl, ap, ◌∙◌, inl,
  inr, Bool-cases, Option-cases, not, ◌&&◌, ◌||◌, arith, if◌then◌else◌,
}
use vestirust.Model.{StatusCode}
use vestirust.Davs.Headers.{Depth}
use vestirust.Davs.Webdav.Paths.{Fault, io_error, join}
use vestirust.Davs.Webdav.FilePath.{file_name, same_path}
use vestirust.Davs.Webdav.FileSystem.{FileSystem, Metadata}
use vestirust.Davs.Webdav.Response.{Response}
use vestirust.Davs.Webdav.Copy.{done}
use vestirust.Davs.Webdav.Copy.OneFile.{place, do_copy-place}
use vestirust.Davs.Webdav.CopyMove.{
  copied, transfer, after_removal, copymove_to, parent_exists, dest_is_file, dest_exists,
  is_directory, followed_is_file,
}

module _ {World : Type 0} (fs : FileSystem World) where
  -- There is a file at a path, or a link to one, from what is there and what a link leads to.
  abbrev pub is_file_there : Metadata → Option Metadata → Bool
  is_file_there link none = link.is_file
  is_file_there link (some followed) = link.is_file || (link.is_symlink && followed.is_file)

  -- The copy onto a file, or into a directory that is made where there is no file.
  abbrev pub put_at : Bool → String → String → String → World → World × Bool
  put_at true path name dest w = fs.copy path dest w
  put_at false path name dest w = fs.copy path (join dest name) (fs.create_dir dest w).0

  abbrev pub answer_of : StatusCode → Response → World × Bool → World × Result Fault Response
  answer_of status res (w, true) = (w, ok (record res { status = status }))
  answer_of status res (w, false) = (w, err io_error)

  -- What the COPY of a file does, from whether overwriting is allowed, what is at the destination, and
  -- what that leads to if it is a link.
  abbrev pub file_copy :
      Bool
      → Option Metadata
      → Option Metadata
      → String
      → String
      → String
      → Response
      → World
      → World × Result Fault Response
  file_copy replace none followed path name dest res w =
      answer_of StatusCode.created res (put_at false path name dest w)
  file_copy false (some link) followed path name dest res w =
      (w, ok (record res { status = StatusCode.precondition_failed }))
  file_copy true (some link) followed path name dest res w =
      answer_of StatusCode.no_content res (put_at (is_file_there link followed) path name dest w)

  copied-answer_of :
      (replaced : Bool) (res : Response) (r : World × Bool)
      → copied fs replaced res (done r)
        ≡ answer_of (if replaced then StatusCode.no_content else StatusCode.created) res r
  unfolding copied done
  copied-answer_of replaced res (w, true) = refl
  copied-answer_of replaced res (w, false) = refl

  place-put_at :
      (onto_file : Bool) (path name dest : String) (w : World)
      → place fs onto_file path name dest w ≡ put_at onto_file path name dest w
  place-put_at true path name dest w = refl
  place-put_at false path name dest w = refl

  module _ (fuel : ℕ) (depth : Depth) (path name dest : String) (meta : Metadata) (res : Response)
      (w : World) (found : fs.metadata w path ≡ some meta) (is_file : meta.is_file ≡ true)
      (no_dir : meta.is_dir ≡ false) (named : file_name path ≡ some name)
      (other : same_path path dest ≡ false) (parent : parent_exists fs w dest ≡ true) where
    -- the code, once the destination is known and in nobody's way
    to_place :
        (replace onto_file there : Bool)
        → dest_is_file fs w dest ≡ onto_file
        → dest_exists fs w dest ≡ there
        → (not replace && there) ≡ false
        → copymove_to fs (suc fuel) true replace depth path dest res w
          ≡ copied fs (replace && there) res (done (place fs onto_file path name dest w))
    unfolding copymove_to is_directory after_removal transfer
    to_place replace onto_file there o t free =
        let file : is_directory fs w path ≡ false = rw (found, is_directory) no_dir in
        rw (parent, o, t, free, other, file)
          (ap (copied fs (replace && there) res)
            (do_copy-place fs fuel depth path name dest onto_file meta w found is_file named other))

    placed :
        (replace onto_file there : Bool)
        → dest_is_file fs w dest ≡ onto_file
        → dest_exists fs w dest ≡ there
        → (not replace && there) ≡ false
        → copymove_to fs (suc fuel) true replace depth path dest res w
          ≡ answer_of
              (if replace && there then StatusCode.no_content else StatusCode.created)
              res
              (put_at onto_file path name dest w)
    placed replace onto_file there o t free =
        to_place replace onto_file there o t free
        ∙ (copied-answer_of (replace && there) res _
            ∙ ap
                (answer_of (if replace && there then StatusCode.no_content else StatusCode.created)
                  res)
                (place-put_at onto_file path name dest w))

    in_the_way :
        dest_exists fs w dest ≡ true
        → copymove_to fs (suc fuel) true false depth path dest res w
          ≡ (w, ok (record res { status = StatusCode.precondition_failed }))
    unfolding copymove_to
    in_the_way t = rw (parent, t) refl

    is_there :
        (link : Metadata) (followed : Option Metadata)
        → fs.symlink_metadata w dest ≡ some link
        → fs.metadata w dest ≡ followed
        → dest_is_file fs w dest ≡ is_file_there link followed
    unfolding dest_is_file followed_is_file
    is_there link none l f = rw (l, dest_is_file, followed_is_file, f) (ground arith)
    is_there link (some m) l f = rw (l, dest_is_file, followed_is_file, f) refl

    placed_new :
        (replace : Bool)
        → fs.symlink_metadata w dest ≡ none
        → copymove_to fs (suc fuel) true replace depth path dest res w
          ≡ answer_of StatusCode.created res (put_at false path name dest w)
    unfolding dest_exists dest_is_file
    placed_new true e =
        placed true false false (rw (e, dest_is_file) refl) (rw (e, dest_exists) refl) refl
    placed_new false e =
        placed false false false (rw (e, dest_is_file) refl) (rw (e, dest_exists) refl) refl

    -- The COPY of a file to another path whose parent exists. If nothing is at the destination, a
    -- directory is made there, the file is copied into it under its own name, and the answer is 201. If
    -- something is there and overwriting is not allowed, nothing is done and the answer is 412. If it is
    -- allowed, the file is copied onto a file or onto a link to one, and into anything else under its
    -- own name, and the answer is 204. If the call that copies fails, so does the request.
    pub copymove_to-place :
        (replace : Bool)
        → copymove_to fs (suc fuel) true replace depth path dest res w
          ≡ file_copy replace (fs.symlink_metadata w dest) (fs.metadata w dest) path name dest res w
    unfolding dest_exists
    copymove_to-place replace = elim (Option-cases (fs.symlink_metadata w dest)) [
      | inl e ↦ rw e (placed_new replace e)
      | inr (link, e) ↦ elim (Bool-cases replace) [
        | inl r ↦
            rw (e, r)
              (placed true (is_file_there link (fs.metadata w dest)) true
                (is_there link (fs.metadata w dest) e refl) (rw (e, dest_exists) refl) refl)
        | inr r ↦ rw (e, r) (in_the_way (rw (e, dest_exists) refl))
      ]
    ]
