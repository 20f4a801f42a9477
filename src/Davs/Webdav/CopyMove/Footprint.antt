-- ===== src/Davs/Webdav/CopyMove/Footprint.antt =====
-- Where COPY and MOVE write.
use vestirust.Prelude.{
  ℕ, Bool, true, false, not, ◌&&◌, String, Result, ◌≡◌, refl, ok, err, inl, inr, Bool-cases,
  if◌then◌else◌,
}
use vestirust.Model.{StatusCode}
use vestirust.Davs.Headers.{Depth}
use vestirust.Davs.Webdav.Paths.{Fault}
use vestirust.Davs.Webdav.FilePath.{same_path}
use vestirust.Davs.Webdav.FileSystem.{FileSystem, FsOp}
use vestirust.Davs.Webdav.FileSystem.Changes.{
  Changes, same, Changes-one, Changes-trans, Changes-weaken,
}
use vestirust.Davs.Webdav.Response.{Response}
use vestirust.Davs.Webdav.Upload.Footprint.{done_or_error-world}
use vestirust.Davs.Webdav.Copy.{Outcome, is_zero, do_copy}
use vestirust.Davs.Webdav.Copy.Footprint.{Below, at_top, HasNames, do_copy-Changes}
use vestirust.Davs.Webdav.CopyMove.{
  copied, transfer, after_removal, copymove_to, parent_exists, dest_is_file, dest_exists,
  is_directory,
}

module _ {World : Type 0} (fs : FileSystem World) where
  copied-world :
      (replaced : Bool) (res : Response) (r : World × Outcome) → (copied fs replaced res r).0 ≡ r.0
  unfolding copied
  copied-world replaced res (w, ok d) = refl
  copied-world replaced res (w, err e) = refl

module _ {World : Type 0} {fs : FileSystem World} (names : HasNames fs) {P : String → Type 0}
    (path dest : String) (is_copy : Bool) (p : is_copy ≡ false → P path)
    (below : (q : String) → Below dest q → P q) where
  transfer-Changes :
      (fuel : ℕ) (depth : Depth) (onto_file replaced : Bool) (res : Response) (w : World)
      → Changes fs P w (transfer fs fuel is_copy depth onto_file replaced path dest res w).0
  unfolding transfer
  transfer-Changes fuel depth onto_file replaced res w = elim (Bool-cases is_copy) [
    | inl e ↦ rw e (
        rw (copied-world fs replaced res (do_copy fs fuel depth dest path dest (not onto_file) w)) (
          Changes-weaken below
            (do_copy-Changes names fuel depth dest path dest (not onto_file) w (at_top refl))))
    | inr e ↦ rw e (
        rw (done_or_error-world (fs.rename path dest w))
          (Changes-one (FsOp.rename path dest) (p e, below dest (at_top refl))))
  ]

  after_removal-Changes :
      (fuel : ℕ) (depth : Depth) (onto_file replaced : Bool) (res : Response) (r : World × Bool)
      → Changes fs P r.0 (after_removal fs fuel is_copy depth onto_file replaced path dest res r).0
  unfolding after_removal
  after_removal-Changes fuel depth onto_file replaced res (w, false) = same
  after_removal-Changes fuel depth onto_file replaced res (w, true) =
      transfer-Changes fuel depth onto_file replaced res w

  removed-Changes :
      (removal : Bool) (w : World)
      → Changes fs P w (if removal then fs.remove_dir_all dest w else (w, true)).0
  removed-Changes true w = Changes-one (FsOp.remove_dir_all dest) (below dest (at_top refl))
  removed-Changes false w = same

  if_else-Changes :
      (b : Bool) (res : Response) (w : World) (r : World × Result Fault Response)
      → Changes fs P w r.0
      → Changes fs P w (if b then (w, ok res) else r).0
  if_else-Changes true res w r c = same
  if_else-Changes false res w r c = c

  pub copymove_to-Changes :
      (fuel : ℕ) (replace : Bool) (depth : Depth) (res : Response) (w : World)
      → Changes fs P w (copymove_to fs fuel is_copy replace depth path dest res w).0
  unfolding copymove_to
  copymove_to-Changes fuel replace depth res w =
      let onto_file = dest_is_file fs w dest in
      let there = dest_exists fs w dest in
      let removal =
        is_directory fs w path && replace && there && not (is_zero depth) && not onto_file in
      let removed = if removal then fs.remove_dir_all dest w else (w, true) in
      let rest =
        after_removal fs fuel is_copy depth onto_file (replace && there) path dest res removed in
      let forbidden = record res { status = StatusCode.forbidden } in
      let failed = record res { status = StatusCode.precondition_failed } in
      let third = if same_path path dest then (w, ok forbidden) else rest in
      let second = if not replace && there then (w, ok failed) else third in
      if_else-Changes (not (parent_exists fs w dest)) (record res { status = StatusCode.conflict })
        w second
        (if_else-Changes (not replace && there) failed w third (
          if_else-Changes (same_path path dest) forbidden w rest (
            Changes-trans (removed-Changes removal w)
              (after_removal-Changes fuel depth onto_file (replace && there) res removed))))
