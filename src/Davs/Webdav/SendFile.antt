-- ===== src/Davs/Webdav/SendFile.antt =====
-- src/davs/webdav_server.rs: `handle_send_file`, `extract_cache_headers` and `get_file_name`.
pub mod Slices
pub mod Transparent
pub mod Whole
use vestirust.Prelude.{
  ℕ, Bool, true, false, not, ◌&&◌, leb, ◌^◌, Option, none, some, String, List, [], ◌∷◌, Result, ok,
  err, ◌>>=◌, ok_or, if◌then◌else◌,
}
use vestirust.Prelude.Slices.{drop}
use vestirust.Prelude.Texts.{concat, decimal}
use vestirust.Model.{StatusCode}
use vestirust.Davs.EncryptedStreamer.Position.{decrypted_size}
use vestirust.Davs.EncryptedStreamer.Cipher.{Bytes, StreamCipher}
use vestirust.Davs.EncryptedStreamer.Streams
use vestirust.Davs.Streamer
use vestirust.Davs.Streamer.{ReadSize}
use vestirust.Davs.Webdav.FileSystem.{Metadata, SystemTime}
use vestirust.Davs.Webdav.PathItem.{to_timestamp}
use vestirust.Davs.Webdav.Paths.{Fault, io_error, encode_uri}
use vestirust.Davs.Webdav.Ranges.{
  RangeValue, RangeAnswer, part, not_satisfiable, parse_range, answer_range,
}
use vestirust.Davs.Webdav.Response.{Body, empty, stream, Response, default_response, with_header}

abbrev pub buf_size : ℕ
buf_size = 65536

-- The headers of a request, decoded by the crate `headers`: `precondition_passes` of `IfNoneMatch`,
-- `is_modified` of `IfModifiedSince` and of `IfRange`, whether `Range` decodes, and its text.
pub record SendHeaders : Type 0 where
  pub if_none_match : Option (String → Bool)
  pub if_modified_since : Option (SystemTime → Bool)
  pub has_range : Bool
  pub if_range : Option (String → SystemTime → Bool)
  pub range : Option String

-- What `handle_send_file` uses of other crates: `mime_guess`, `httpdate` and `urlencoding`.
pub record Texts : Type 0 where
  pub mime_guess : String → Option String
  pub http_date : SystemTime → String
  pub urlencode : String → String

etag_text : ℕ → ℕ → String
etag_text timestamp size = concat ("\"" ∷ decimal timestamp ∷ "-" ∷ decimal size ∷ "\"" ∷ [])

-- the entity tag, and the time for `LastModified`
unfoldable pub extract_cache_headers : Metadata → Result Fault (Option (String × SystemTime))
unfolding etag_text
extract_cache_headers meta = elim meta.modified [
  | none ↦ ok none
  | some modified ↦ do
    timestamp ← to_timestamp modified
    ok (some (etag_text timestamp meta.len, modified))
]

-- whether the client's copy is still good
is_cached : SendHeaders → String → SystemTime → Bool
is_cached headers etag modified = elim headers.if_none_match [
  | some precondition_passes ↦ not (precondition_passes etag)
  | none ↦ elim headers.if_modified_since [
    | some is_modified ↦ not (is_modified modified)
    | none ↦ false
  ]
]

-- whether the range is used, for a file whose time is known
is_range_fresh : SendHeaders → String → SystemTime → Bool
is_range_fresh headers etag modified =
    if headers.has_range
    then (elim headers.if_range [
      | some is_modified ↦ not (is_modified etag modified)
      | none ↦ true
    ])
    else false

module _ {Encryptor Decryptor : Type 0} (cipher : StreamCipher Encryptor Decryptor)
    (read_size : ReadSize) (texts : Texts) where
  -- the body of a whole file, and of a part
  pub whole_body : Option Bytes → Bytes → Body
  whole_body none file = stream (Streamer.into_stream read_size buf_size file)
  whole_body (some key) file = stream (Streams.into_stream cipher key file)

  pub part_body : Option Bytes → Bytes → ℕ → ℕ → Body
  part_body none file start part_size =
      stream (Streamer.into_stream_sized read_size buf_size (drop start file) part_size)
  part_body (some key) file start part_size =
      stream (Streams.into_stream_sized cipher key file start part_size)

  -- the end of `handle_send_file`, for the size of the content
  send_range : RangeAnswer → ℕ → Bool → Option Bytes → Bytes → Response → Response
  send_range not_satisfiable size head_only key file res =
      with_header "content-range" (concat ("bytes */" ∷ decimal size ∷ []))
        (record res { status = StatusCode.range_not_satisfiable })
  send_range (part start end part_size) size head_only key file res =
      let res' : Response = with_header "content-length" (decimal part_size) (
        with_header "content-range"
          (concat ("bytes " ∷ decimal start ∷ "-" ∷ decimal end ∷ "/" ∷ decimal size ∷ []))
          (record res { status = StatusCode.partial_content })) in
      if head_only then res' else record res' { body = part_body key file start part_size }

  pub send_content : Option RangeValue → ℕ → Bool → Option Bytes → Bytes → Response → Response
  unfolding send_range whole_body part_body
  send_content (some range) size head_only key file res =
      send_range (answer_range range size) size head_only key file res
  send_content none size head_only key file res =
      let res' : Response = with_header "content-length" (decimal size) res in
      if head_only then res' else record res' { body = whole_body key file }

  unfoldable pub content_size : Option Bytes → ℕ → ℕ
  content_size none encrypted_size = encrypted_size
  content_size (some key) encrypted_size = decrypted_size encrypted_size

  content_type : String → String
  content_type path = elim (texts.mime_guess path) [
    | some mime ↦ mime
    | none ↦ "application/octet-stream"
  ]

  -- whether `seek` fails: where the body is a part of a file without a key that starts behind the offsets
  -- that a file can have, which are those of an `i64`
  is_past_offsets : RangeAnswer → Bool
  is_past_offsets not_satisfiable = false
  is_past_offsets (part start end part_size) = leb (2 ^ 63) start

  seek_fails : Option RangeValue → ℕ → Bool → Option Bytes → Bool
  unfolding is_past_offsets
  seek_fails none size head_only key = false
  seek_fails (some range) size head_only (some key) = false
  seek_fails (some range) size head_only none =
      not head_only && is_past_offsets (answer_range range size)

  -- after the cache headers; `file_name` is that of the path, if it has one that is text
  send_opened :
      Bool
      → String
      → Option String
      → SendHeaders
      → Bool
      → Option Bytes
      → Bytes
      → Metadata
      → Response
      → Result Fault Response
  unfolding send_content content_size content_type seek_fails
  send_opened use_range path file_name headers head_only key file meta res = do
    filename ← ok_or file_name io_error
    let range = if use_range then parse_range headers.range else none
    let size = content_size key meta.len
    if seek_fails range size head_only key
        then err io_error
        else ok (
            send_content range size head_only key file (
              with_header "accept-ranges" "bytes" (
                with_header "content-disposition"
                  (concat ("inline; filename=\"" ∷ encode_uri texts.urlencode filename ∷ "\"" ∷ []))
                  (with_header "content-type" (content_type path) res))))

  -- The file and its metadata, where the calls for them succeed.
  unfoldable pub handle_send_file :
      String
      → Option String
      → Option Bytes
      → Option Metadata
      → SendHeaders
      → Bool
      → Option Bytes
      → Result Fault Response
  unfolding send_opened is_cached is_range_fresh
  handle_send_file path file_name opened found headers head_only key = do
    file ← ok_or opened io_error
    meta ← ok_or found io_error
    cache_headers ← extract_cache_headers meta
    elim cache_headers [
      | none ↦ send_opened true path file_name headers head_only key file meta default_response
      | some (etag, modified) ↦
          if is_cached headers etag modified
          then ok (record default_response { status = StatusCode.not_modified })
          else send_opened (is_range_fresh headers etag modified) path file_name headers head_only
              key file meta
              (with_header "etag" etag
                (with_header "last-modified" (texts.http_date modified) default_response))
    ]
