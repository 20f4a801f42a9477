-- ===== src/Davs/Webdav/Propfind.antt =====
-- src/davs/webdav_server.rs: the answers to PROPFIND, PROPPATCH and LOCK.
use vestirust.Prelude.{
  ℕ, ◌^◌, Bool, Option, none, some, String, List, [], ◌∷◌, map, Result, ok, err, ◌>>=◌, ok_or, ltb,
  ◌==◌, if◌then◌else◌,
}
use vestirust.Prelude.Texts.{concat}
use vestirust.Model.{StatusCode}
use vestirust.Davs.EncryptedStreamer.Cipher.{Bytes}
use vestirust.Davs.Webdav.Paths.{Fault, io_error, panicked, out_of_fuel}
use vestirust.Davs.Webdav.FileSystem.{FileSystem}
use vestirust.Davs.Webdav.PathItem.{PathItem, Libraries, to_pathitem, list_dir, to_dav_xml}
use vestirust.Davs.Webdav.Ranges.{parse_u64}
use vestirust.Davs.Webdav.Response.{text, Response, with_header, status_forbid, status_not_found}

unfoldable pub res_multistatus : String → Response → Response
res_multistatus content res =
    record (with_header "content-type" "application/xml; charset=utf-8"
      (record res { status = StatusCode.multi_status })) {
        body = text (
            concat (
              "<?xml version=\"1.0\" encoding=\"utf-8\" ?>\n<D:multistatus xmlns:D=\"DAV:\">\n"
              ∷ content ∷ "\n</D:multistatus>" ∷ []));
      }

-- `str::parse::<u32>`
parse_u32 : String → Option ℕ
parse_u32 value = elim (parse_u64 value) [
  | none ↦ none
  | some n ↦ if ltb n (2 ^ 32) then some n else none
]

-- the first value of the header "depth", or 1 without it; `none` is a bad request
unfoldable pub propfind_depth : List String → Option ℕ
unfolding parse_u32
propfind_depth [] = some 1
propfind_depth (value ∷ more) = parse_u32 value

unfoldable pub handle_proppatch : String → Response → Response
unfolding res_multistatus
handle_proppatch req_path res =
    res_multistatus
      (concat (
        "<D:response>\n<D:href>" ∷ req_path
        ∷ "</D:href>\n<D:propstat>\n<D:prop>\n</D:prop>\n<D:status>HTTP/1.1 403 Forbidden</D:status>\n</D:propstat>\n</D:response>"
        ∷ []))
      res

-- The uuid and the time are drawn by the handler.
unfoldable pub handle_lock : String → String → String → Bool → Response → Response
handle_lock uuid timestamp req_path auth res =
    let token = if auth then concat ("opaquelocktoken:" ∷ uuid ∷ []) else timestamp in
    record (with_header "lock-token" (concat ("<" ∷ token ∷ ">" ∷ []))
      (with_header "content-type" "application/xml; charset=utf-8" res)) {
        body = text (
            concat (
              "<?xml version=\"1.0\" encoding=\"utf-8\"?>\n<D:prop xmlns:D=\"DAV:\"><D:lockdiscovery><D:activelock>\n<D:locktoken><D:href>"
              ∷ token ∷ "</D:href></D:locktoken>\n<D:lockroot><D:href>" ∷ req_path
              ∷ "</D:href></D:lockroot>\n</D:activelock></D:lockdiscovery></D:prop>" ∷ []));
      }

module _ (libraries : Libraries) {World : Type 0} (fs : FileSystem World) (w : World) where
  items_xml : List PathItem → String
  items_xml items = concat (map (to_dav_xml libraries "/") items)

  -- the answer for a directory, from what `list_dir` gave
  with_children : PathItem → Response → Result Fault (List PathItem) → Result Fault Response
  unfolding items_xml
  with_children item res (ok children) = ok (res_multistatus (items_xml (item ∷ children)) res)
  with_children item res (err io_error) = ok (status_forbid res)
  with_children item res (err panicked) = err panicked
  with_children item res (err out_of_fuel) = err out_of_fuel

  unfoldable pub handle_propfind_dir :
      String → List String → String → Bool → Option Bytes → Response → Result Fault Response
  unfolding with_children propfind_depth
  handle_propfind_dir path depths directory allow_symlinks key res = elim (propfind_depth depths) [
    | none ↦ ok (record res { status = StatusCode.bad_request })
    | some depth ↦ do
      found ← to_pathitem fs w path directory directory allow_symlinks key
      item ← ok_or found panicked
      if depth == 0
          then ok (res_multistatus (items_xml (item ∷ [])) res)
          else with_children item res (list_dir fs w path directory directory allow_symlinks key)
  ]

  unfoldable pub handle_propfind_file :
      String → String → Bool → Option Bytes → Response → Result Fault Response
  handle_propfind_file path directory allow_symlinks key res = do
    found ← to_pathitem fs w path directory directory allow_symlinks key
    elim found [
      | some item ↦ ok (res_multistatus (to_dav_xml libraries "/" item) res)
      | none ↦ ok (status_not_found res)
    ]
