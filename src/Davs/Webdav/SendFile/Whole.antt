-- ===== src/Davs/Webdav/SendFile/Whole.antt =====
-- What a request without conditions gets of a file.
use vestirust.Prelude.{
  ◌%◌, Bool, true, false, Option, none, some, String, ◌≡◌, refl, ap, [], ◌∷◌, ok, length,
}
use vestirust.Prelude.Words.{u64_mod}
use vestirust.Prelude.Texts.{concat, decimal}
use vestirust.Model.{StatusCode}
use vestirust.Davs.EncryptedStreamer.Cipher.{Bytes, StreamCipher}
use vestirust.Davs.Streamer.{ReadSize}
use vestirust.Davs.Webdav.Paths.{encode_uri}
use vestirust.Davs.Webdav.Ranges.{parse_range}
use vestirust.Davs.Webdav.Response.{Response, Headers, insert, default_response, with_header}
use vestirust.Davs.Webdav.FileSystem.{Metadata, SystemTime, since_epoch, before_epoch}
use vestirust.Davs.Webdav.PathItem.{to_timestamp}
use vestirust.Davs.Webdav.SendFile.{
  Texts, SendHeaders, send_content, content_size, seek_fails, send_opened, handle_send_file,
  extract_cache_headers, etag_text, content_type, is_cached, is_range_fresh,
}
use vestirust.Davs.Webdav.SendFile.Slices.{Yields, Serves}

abbrev pub no_conditions : SendHeaders
no_conditions = record {
  if_none_match = none;
  if_modified_since = none;
  has_range = false;
  if_range = none;
  range = none;
}

-- A response 200 with the bytes, and with their number as its length.
pub record HasContent (bytes : Bytes) (res : Response) : Type 0 where
  pub status : res.status ≡ StatusCode.ok
  pub body : Yields res.body bytes
  pub others : Headers
  pub headers : res.headers ≡ insert "content-length" (decimal (length bytes)) others

-- The time of the last change, where it is known, is not before 1970.
abbrev pub IsDated : Option SystemTime → Type 0
IsDated none = Unit
IsDated (some (since_epoch milliseconds)) = Unit
IsDated (some (before_epoch milliseconds)) = ⊥

dated :
    (meta : Metadata)
    → IsDated meta.modified
    → (cache_headers : Option (String × SystemTime)) × (extract_cache_headers meta
        ≡ ok cache_headers)
unfolding extract_cache_headers to_timestamp
dated meta d = by_time meta.modified refl d
  where
    by_time :
        (modified : Option SystemTime)
        → meta.modified ≡ modified
        → IsDated modified
        → (cache_headers : Option (String × SystemTime)) × (extract_cache_headers meta
            ≡ ok cache_headers)
    by_time none e d = (none, rw (e, extract_cache_headers) refl)
    by_time (some (since_epoch milliseconds)) e d = (
      some (etag_text (milliseconds % u64_mod) meta.len, since_epoch milliseconds),
      rw (e, extract_cache_headers) refl,
    )
    by_time (some (before_epoch milliseconds)) e d = absurd d

module _ {Encryptor Decryptor : Type 0} (cipher : StreamCipher Encryptor Decryptor)
    (read_size : ReadSize) (texts : Texts) (path name : String) (key : Option Bytes)
    (file bytes : Bytes) (meta : Metadata) (serves : Serves cipher read_size texts key file bytes)
    (size : content_size cipher read_size texts key meta.len ≡ length bytes)
    (is_dated : IsDated meta.modified) where
  send_content-whole :
      (res : Response)
      → res.status ≡ StatusCode.ok
      → HasContent bytes (
          send_content cipher read_size texts none
            (content_size cipher read_size texts key meta.len)
            false
            key
            file
            res)
  unfolding send_content with_header
  send_content-whole res h = record {
    status = h;
    body = serves.whole;
    others = res.headers;
    headers = ap (λ n. insert "content-length" (decimal n) res.headers) size;
  }

  abbrev file_headers : Response → Response
  file_headers res = with_header "accept-ranges" "bytes" (
      with_header "content-disposition"
        (concat ("inline; filename=\"" ∷ encode_uri texts.urlencode name ∷ "\"" ∷ []))
        (with_header "content-type" (content_type cipher read_size texts path) res))

  send_opened-whole :
      (use_range : Bool) (res : Response)
      → res.status ≡ StatusCode.ok
      → (sent : Response) × (send_opened cipher read_size texts use_range path
            (some name)
            no_conditions
            false
            key
            file
            meta
            res
          ≡ ok sent)
        × HasContent bytes sent
  unfolding send_opened parse_range with_header seek_fails
  send_opened-whole true res h = (_, refl, send_content-whole (file_headers res) h)
  send_opened-whole false res h = (_, refl, send_content-whole (file_headers res) h)

  -- The file is answered whole, with 200.
  pub handle_send_file-whole :
      (sent : Response) × (handle_send_file cipher read_size texts path
          (some name)
          (some file)
          (some meta)
          no_conditions
          false
          key
        ≡ ok sent)
      × HasContent bytes sent
  unfolding handle_send_file is_cached is_range_fresh with_header
  handle_send_file-whole = by_headers (dated meta is_dated)
    where
      by_headers :
          (cache_headers : Option (String × SystemTime)) × (extract_cache_headers meta
              ≡ ok cache_headers)
          → (sent : Response) × (handle_send_file cipher read_size texts path
                (some name)
                (some file)
                (some meta)
                no_conditions
                false
                key
              ≡ ok sent)
            × HasContent bytes sent
      by_headers (none, e) = rw (e, handle_send_file) (send_opened-whole true default_response refl)
      by_headers (some (etag, modified), e) =
          rw (e, handle_send_file)
            (send_opened-whole false
              (with_header "etag" etag
                (with_header "last-modified" (texts.http_date modified) default_response))
              refl)
