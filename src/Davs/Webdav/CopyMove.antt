-- ===== src/Davs/Webdav/CopyMove.antt =====
-- src/davs/webdav_server.rs: COPY and MOVE. The fuel is that of `do_copy`.
pub mod Footprint
pub mod OneFile
use vestirust.Prelude.{
  ℕ, zero, suc, Bool, true, false, not, ◌&&◌, ◌||◌, Option, none, some, String, List, [], ◌∷◌,
  Result, ok, err, if◌then◌else◌,
}
use vestirust.Model.{StatusCode}
use vestirust.Davs.Headers.{Depth, infinity, overwrite, decode_depth, decode_overwrite}
use vestirust.Davs.Webdav.Paths.{Fault, io_error, out_of_fuel, join, extract_path}
use vestirust.Davs.Webdav.FilePath.{same_path, file_name, parent}
use vestirust.Davs.Webdav.FileSystem.{FileSystem, Metadata}
use vestirust.Davs.Webdav.PathItem.{Libraries}
use vestirust.Davs.Webdav.Response.{Response}
use vestirust.Davs.Webdav.Upload.{done_or_error}
use vestirust.Davs.Webdav.Copy.{Outcome, is_zero, do_copy}

-- the header `Destination`, if it is there and printable
unfoldable pub extract_dest : Libraries → Option String → String → Result Fault (Option String)
extract_dest libraries none dav_path = ok none
extract_dest libraries (some destination) dav_path = elim (libraries.parse_uri_path destination) [
  | none ↦ ok none
  | some path ↦ extract_path libraries.decode path dav_path
]

-- A header that is not there, or does not decode, has its default.
unfoldable pub wants_overwrite : List String → Bool
wants_overwrite values = elim (decode_overwrite values) [ err e ↦ true | ok (overwrite b) ↦ b ]

depth_allowed : Bool → Depth → Option Depth
depth_allowed is_copy infinity = some infinity
depth_allowed is_copy Depth.one = none
depth_allowed true Depth.zero = some Depth.zero
depth_allowed false Depth.zero = none

-- `none` is a bad request
unfoldable pub copy_depth : List String → Bool → Option Depth
unfolding depth_allowed
copy_depth values is_copy = elim (decode_depth values) [
  | err e ↦ some infinity
  | ok depth ↦ depth_allowed is_copy depth
]

module _ {World : Type 0} (fs : FileSystem World) where
  exists : World → String → Bool
  exists w path = elim (fs.metadata w path) [ none ↦ false | some meta ↦ true ]

  is_directory : World → String → Bool
  is_directory w path = elim (fs.metadata w path) [ none ↦ false | some meta ↦ meta.is_dir ]

  followed_is_file : World → String → Bool
  followed_is_file w path = elim (fs.metadata w path) [ none ↦ false | some meta ↦ meta.is_file ]

  unfoldable pub parent_exists : World → String → Bool
  unfolding exists
  parent_exists w dest = elim (parent dest) [ none ↦ false | some directory ↦ exists w directory ]

  -- the metadata of the destination: whether it is a file, also behind a link, and whether it exists
  unfoldable pub dest_is_file : World → String → Bool
  unfolding followed_is_file
  dest_is_file w dest = elim (fs.symlink_metadata w dest) [
    | none ↦ false
    | some meta ↦ meta.is_file || (meta.is_symlink && followed_is_file w dest)
  ]

  unfoldable pub dest_exists : World → String → Bool
  dest_exists w dest = elim (fs.symlink_metadata w dest) [ none ↦ false | some meta ↦ true ]

  -- the end of a COPY
  unfoldable pub copied : Bool → Response → World × Outcome → World × Result Fault Response
  copied replaced res (w, err e) = (w, err e)
  copied replaced res (w, ok done) = (
    w,
    ok (record res { status = if replaced then StatusCode.no_content else StatusCode.created }),
  )

  -- COPY or MOVE, once nothing is in the way
  transfer :
      ℕ
      → Bool
      → Depth
      → Bool
      → Bool
      → String
      → String
      → Response
      → World
      → World × Result Fault Response
  unfolding copied do_copy done_or_error
  transfer fuel is_copy depth onto_file replaced path dest res w =
      if is_copy
      then copied replaced res (do_copy fs fuel depth dest path dest (not onto_file) w)
      else done_or_error (fs.rename path dest w) (record res { status = StatusCode.created })

  after_removal :
      ℕ
      → Bool
      → Depth
      → Bool
      → Bool
      → String
      → String
      → Response
      → World × Bool
      → World × Result Fault Response
  unfolding transfer
  after_removal fuel is_copy depth onto_file replaced path dest res (w, false) =
      (w, ok (record res { status = StatusCode.internal_server_error }))
  after_removal fuel is_copy depth onto_file replaced path dest res (w, true) =
      transfer fuel is_copy depth onto_file replaced path dest res w

  -- from the decoded destination on
  pub copymove_to :
      ℕ → Bool → Bool → Depth → String → String → Response → World → World × Result Fault Response
  unfolding after_removal parent_exists dest_is_file dest_exists is_directory
  copymove_to fuel is_copy replace depth path dest res w =
      let onto_file = dest_is_file w dest in
      let there = dest_exists w dest in
      let removal =
        is_directory w path && replace && there && not (is_zero depth) && not onto_file in
      if not (parent_exists w dest)
      then (w, ok (record res { status = StatusCode.conflict }))
      else if not replace && there
      then (w, ok (record res { status = StatusCode.precondition_failed }))
      else if same_path path dest
      then (w, ok (record res { status = StatusCode.forbidden }))
      else after_removal fuel is_copy depth onto_file (replace && there) path dest res
          (if removal then fs.remove_dir_all dest w else (w, true))

  unfoldable pub handle_copymove :
      Libraries
      → ℕ
      → Bool
      → List String
      → List String
      → Option String
      → String
      → String
      → Response
      → World
      → World × Result Fault Response
  unfolding copymove_to
  handle_copymove libraries fuel is_copy overwrites depths destination path dav_path res w =
      elim (copy_depth depths is_copy) [
        | none ↦ (w, ok (record res { status = StatusCode.bad_request }))
        | some depth ↦ elim (extract_dest libraries destination dav_path) [
          | err e ↦ (w, err e)
          | ok none ↦ (w, ok (record res { status = StatusCode.forbidden }))
          | ok (some dest) ↦
              copymove_to fuel is_copy (wants_overwrite overwrites) depth path dest res w
        ]
      ]
