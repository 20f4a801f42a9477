-- ===== src/Davs/Webdav/Response.antt =====
-- src/davs/webdav_server.rs: the response that a handler fills in.
use vestirust.Prelude.{String, List, [], str_eq, eq_iff}
use vestirust.Prelude.Tables.{Keyed, replace_or_push}
use vestirust.Model.{StatusCode}
use vestirust.Davs.EncryptedStreamer.Streams.{ByteStream}

pub data Body : Type 0 where
  empty : Body
  text : String → Body
  stream : ByteStream → Body

abbrev pub Headers : Type 0
Headers = List (String × String)

pub record Response : Type 0 where
  pub status : StatusCode
  pub headers : Headers
  pub body : Body

-- `Response::default()`
abbrev pub default_response : Response
default_response = record { status = StatusCode.ok; headers = []; body = empty }

abbrev pub by_header : Keyed (String × String) String
by_header = record { key = λ h. h.0; beq = str_eq; beq_iff = eq_iff }

-- `headers_mut().insert`, which replaces the value of a header that is there
unfoldable pub insert : String → String → Headers → Headers
unfolding replace_or_push
insert name value headers = replace_or_push by_header (name, value) headers

unfoldable pub with_header : String → String → Response → Response
unfolding insert
with_header name value res = record res { headers = insert name value res.headers }

unfoldable pub status_forbid : Response → Response
status_forbid res = record res { status = StatusCode.forbidden; body = text "Forbidden" }

unfoldable pub status_not_found : Response → Response
status_not_found res = record res { status = StatusCode.not_found; body = text "Not Found" }

unfoldable pub status_no_content : Response → Response
status_no_content res = record res { status = StatusCode.no_content }

unfoldable pub status_method_not_allowed : Response → Response
status_method_not_allowed res = record res {
  status = StatusCode.method_not_allowed;
  body = text "Method not allowed";
}

unfoldable pub set_webdav_headers : Response → Response
unfolding with_header
set_webdav_headers res =
    with_header "dav" "1,2"
      (with_header "allow" "GET,HEAD,PUT,OPTIONS,DELETE,PROPFIND,COPY,MOVE" res)
