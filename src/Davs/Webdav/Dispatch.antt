-- ===== src/Davs/Webdav/Dispatch.antt =====
-- src/davs/webdav_server.rs: `handle` and `call`, and what they need of a request.
pub mod Footprint
pub mod Put
pub mod Get
pub mod PutGet
pub mod Kept
pub mod Links
use package.text.Mathlib.Text.{starts_with}
use vestirust.Prelude.{
  ℕ, Bool, true, false, not, ◌&&◌, ◌||◌, Option, none, some, String, List, Result, ok, err, str_eq,
  length, ltb, if◌then◌else◌,
}
use vestirust.Model.{StatusCode, Dav}
use vestirust.Davs.EncryptedStreamer.Cipher.{StreamCipher, Reader}
use vestirust.Davs.Streamer.{ReadSize}
use vestirust.Davs.Webdav.Paths.{Fault, io_error, panicked, out_of_fuel, extract_path}
use vestirust.Davs.Webdav.FilePath.{file_name}
use vestirust.Davs.Webdav.FileSystem.{FileSystem, Metadata}
use vestirust.Davs.Webdav.PathItem.{Libraries, is_root_contained}
use vestirust.Davs.Webdav.Propfind.{
  handle_propfind_dir, handle_propfind_file, handle_proppatch, handle_lock,
}
use vestirust.Davs.Webdav.Upload.{Chance, handle_upload, handle_delete, handle_mkcol}
use vestirust.Davs.Webdav.Listing.{handle_query_dir, handle_zip_dir}
use vestirust.Davs.Webdav.CopyMove.{handle_copymove}
use vestirust.Davs.Webdav.SendFile.{Texts, SendHeaders, handle_send_file}
use vestirust.Davs.Webdav.Response.{
  Response, text, default_response, status_forbid, status_not_found, status_method_not_allowed,
  set_webdav_headers,
}

-- `other` is any method that `handle` has no case for.
pub data Method : Type 0 where
  get head options put delete : Method
  propfind proppatch mkcol copy move lock unlock other : Method

pub record Request : Type 0 where
  pub method : Method
  pub path : String
  pub query : Option String
  -- the conditional headers and the ranges, and the values of "Depth", "Overwrite", "Destination"
  pub conditions : SendHeaders
  pub depth : List String
  pub overwrite : List String
  pub destination : Option String
  pub body : Reader

abbrev pub Answer : Type 0
Answer = Result Fault Response

-- whether `HttpBody::data` gives a chunk or an error
has_data : Reader → Bool
has_data body = ltb 0 (length body.bytes) || body.fails

-- `&query[2..]`, for a query that starts with "q="
behind_two : String → String
behind_two String.[] = ""
behind_two (String.◌∷◌ a String.[]) = ""
behind_two (String.◌∷◌ a (String.◌∷◌ b rest)) = rest

-- `unwrap_or_default`
or_empty : Option String → String
or_empty none = ""
or_empty (some s) = s

-- What `handle` knows of the path: its metadata's kind and size, `(true, false, false, 0)` where it
-- has none.
pub record Target : Type 0 where
  pub is_miss : Bool
  pub is_dir : Bool
  pub is_file : Bool
  pub size : ℕ

unfoldable pub target_of : Option Metadata → Target
target_of none = record { is_miss = true; is_dir = false; is_file = false; size = 0 }
target_of (some meta) = record {
  is_miss = false;
  is_dir = meta.is_dir;
  is_file = meta.is_file;
  size = meta.len;
}

answer_error : {World : Type 0} → World × Answer → World × Answer
answer_error (w, ok res) = (w, ok res)
answer_error (w, err io_error) =
    (w, ok (record default_response { status = StatusCode.internal_server_error }))
answer_error (w, err panicked) = (w, err panicked)
answer_error (w, err out_of_fuel) = (w, err out_of_fuel)

module _ {Encryptor Decryptor : Type 0} (cipher : StreamCipher Encryptor Decryptor)
    (read_size : ReadSize) (texts : Texts) (libraries : Libraries) (fuel : ℕ) (chance : Chance)
    {World : Type 0} (fs : FileSystem World) (dav : Dav) (req : Request) where
  -- GET and HEAD
  handle_get : Bool → String → Target → World → Answer
  unfolding behind_two or_empty
  handle_get head_only path target w =
      let query = or_empty req.query in
      let decoded = or_empty (libraries.decode (behind_two query)) in
      if target.is_dir
      then if str_eq query "zip"
        then handle_zip_dir cipher fs w libraries read_size path head_only dav.key default_response
        else if starts_with query "q="
        then handle_query_dir libraries fs w path decoded dav.directory dav.allow_symlinks dav.key
            default_response
        else ok default_response
      else if target.is_file
      then handle_send_file cipher read_size texts path (file_name path) (fs.open_file w path)
          (fs.metadata w path) req.conditions head_only dav.key
      else ok (status_not_found default_response)

  handle_propfind : String → Target → World → Answer
  handle_propfind path target w =
      if target.is_dir
      then handle_propfind_dir libraries fs w path req.depth dav.directory dav.allow_symlinks
          dav.key default_response
      else if target.is_file
      then handle_propfind_file libraries fs w path dav.directory dav.allow_symlinks dav.key
          default_response
      else ok (status_not_found default_response)

  handle_put : String → Target → World → World × Answer
  handle_put path target w =
      if not dav.writable || (not dav.writable && target.is_file && ltb 0 target.size)
      then (w, ok (status_forbid default_response))
      else handle_upload cipher chance fs path dav.key req.body default_response w

  handle_delete_request : String → Target → World → World × Answer
  handle_delete_request path target w =
      if not dav.writable
      then (w, ok (status_forbid default_response))
      else if not target.is_miss
      then handle_delete fs path target.is_dir default_response w
      else (w, ok (status_not_found default_response))

  handle_mkcol_request : String → Target → World → World × Answer
  unfolding has_data
  handle_mkcol_request path target w =
      if not dav.writable
      then (w, ok (status_forbid default_response))
      else if not target.is_miss
      then (w, ok (status_method_not_allowed default_response))
      else if has_data req.body
      then (
        w,
        ok (record default_response {
          status = StatusCode.unsupported_media_type;
          body = text "Unsupported Media Type";
        }),
      )
      else handle_mkcol fs path default_response w

  -- COPY and MOVE have the same guards, since a dav that allows uploads allows deletions.
  handle_copymove_request : Bool → String → Target → World → World × Answer
  handle_copymove_request is_copy path target w =
      if not dav.writable
      then (w, ok (status_forbid default_response))
      else if target.is_miss
      then (w, ok (status_not_found default_response))
      else handle_copymove fs libraries fuel is_copy req.overwrite req.depth req.destination path
          dav.directory default_response w

  pub handle_method : Method → String → Target → World → World × Answer
  unfolding handle_get handle_propfind handle_put handle_delete_request handle_mkcol_request
      handle_copymove_request
  handle_method get path target w = (w, handle_get false path target w)
  handle_method head path target w = (w, handle_get true path target w)
  handle_method options path target w = (w, ok (set_webdav_headers default_response))
  handle_method put path target w = handle_put path target w
  handle_method delete path target w = handle_delete_request path target w
  handle_method propfind path target w = (w, handle_propfind path target w)
  handle_method proppatch path target w = (
    w,
    ok (
        if target.is_file
        then handle_proppatch req.path default_response
        else status_not_found default_response),
  )
  handle_method mkcol path target w = handle_mkcol_request path target w
  handle_method copy path target w = handle_copymove_request true path target w
  handle_method move path target w = handle_copymove_request false path target w
  handle_method lock path target w = (
    w,
    ok (
        if target.is_file
        then handle_lock chance.uuid chance.timestamp req.path true default_response
        else status_not_found default_response),
  )
  handle_method unlock path target w =
      (w, ok (if target.is_miss then status_not_found default_response else default_response))
  handle_method other path target w = (w, ok (status_method_not_allowed default_response))

  -- from the path on
  pub handle_path : String → World → World × Answer
  unfolding handle_method
  handle_path path w =
      let target = target_of (fs.metadata w path) in
      if not dav.allow_symlinks
        && not target.is_miss
        && not (is_root_contained fs w path dav.directory)
      then (w, ok (status_not_found default_response))
      else handle_method req.method path target w

  unfoldable pub handle : World → World × Answer
  unfolding handle_path
  handle w = elim (extract_path libraries.decode req.path dav.directory) [
    | err e ↦ (w, err e)
    | ok none ↦ (w, ok (status_forbid default_response))
    | ok (some path) ↦ handle_path path w
  ]

  -- `call`: an error is logged and answered, a panic is not caught.
  unfoldable pub call : World → World × Answer
  unfolding answer_error
  call w = answer_error (handle w)
