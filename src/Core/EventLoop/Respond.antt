-- ===== src/Core/EventLoop/Respond.antt =====
-- `EventLoop::prepare_response`: from a parsed request to a response and the file to send.
pub mod Links
pub mod Sizes
pub mod Head
pub mod Framing
mod Tests
use file_web_server.Base.{
  ℕ, ◌+◌, ◌-◌, ◌^◌, Bool, true, false, not, List, [], ◌∷◌, ◌++◌, Option, none, some, is_some,
  if◌then◌else◌, length, Bytes, codes, equal, to_decimal,
}
use file_web_server.Base.Int.{ℤ, pos, ◌+ℤ◌, ◌-ℤ◌, negsuc, ltb_ℤ, leb_ℤ}
use file_web_server.Core.Connection.Sending.{prepare_headers, set_send_file}
use file_web_server.Core.Connection.{Connection, emit}
use file_web_server.Core.EventLoop.{Env}
use file_web_server.Core.Io.{Io, closed_fd, signed_overflow}
use file_web_server.Http.Request.Range.{RangeResult, no_range, undefined, range, parse_range_value}
use file_web_server.Http.Request.{
  HttpRequest, Method, get, head, unknown, header, is_keep_alive, parse_if_modified_since,
}
use file_web_server.Http.Response.{
  Status, ok, partial_content, not_modified, not_found, forbidden, internal_error, not_implemented,
  set_status, set_header, set_body, set_content_type, set_content_length, set_last_modified,
  set_accept_ranges, set_keep_alive, error_body,
}
use file_web_server.Http.Response
use file_web_server.Server.FileServer.Files.{
  FileInfo, FileError, is_directory, opened, refused, open_request,
}
use file_web_server.Server.FileServer.Files
use file_web_server.Server.FileServer.Listing.{list_directory}
use file_web_server.Server.FileServer.Page.{build_directory_html}
use file_web_server.Server.FileServer.Path.{normalize}

abbrev pub is_head_method : Method → Bool
is_head_method head = true
is_head_method _ = false

-- An HTML page as the whole response.
unfoldable pub page_response : Io → Status → Bytes → Connection → Connection
unfolding prepare_headers
page_response io status body c = prepare_headers io (record c {
  response = set_content_length (length body) (
      set_content_type (codes "text/html; charset=utf-8")
        (set_body body (set_status status c.response)));
})

unfoldable pub error_status : FileError → Status
error_status Files.not_found = not_found
error_status Files.forbidden = forbidden
error_status Files.bad_request = Response.bad_request
error_status is_directory = internal_error

unfoldable pub directory_response : Env → Bytes → Connection → Connection
unfolding page_response
directory_response env root c =
    let path = c.request.path in
    let show_parent = not (equal (normalize path) (codes "/")) in
    let entries = list_directory env.sort env.fs root path in
    page_response env.io ok (build_directory_html env.localtime path entries show_parent) c

-- 304: no body; the destructor of FileInfo closes the file.
unfoldable pub not_modified_response : Io → FileInfo → Connection → Connection
unfolding prepare_headers
not_modified_response io info c = emit (closed_fd info.fd ∷ []) (
    prepare_headers io (record c {
      response = set_last_modified info.last_modified (set_status not_modified c.response);
    }))

-- The interval that is sent, given what the Range header asks for.
abbrev pub range_start : RangeResult → ℤ
range_start (range s e) = s
range_start _ = pos 0

abbrev pub range_end : ℤ → RangeResult → ℤ
range_end size (range s e) = e
range_end size _ = size -ℤ pos 1

abbrev pub is_range : RangeResult → Bool
is_range (range s e) = true
is_range _ = false

-- std::to_string of an off_t
abbrev pub signed_decimal : ℤ → Bytes
signed_decimal (pos n) = to_decimal n
signed_decimal (negsuc n) = b'-' ∷ to_decimal (n + 1)

-- static_cast<uint64_t>
abbrev pub as_uint64 : ℤ → ℕ
as_uint64 (pos n) = n
as_uint64 (negsuc n) = 2 ^ 64 - (n + 1)

abbrev pub with_content_range : ℤ → RangeResult → Response.HttpResponse → Response.HttpResponse
with_content_range size (range s e) r =
    set_header (codes "Content-Range")
      (codes "bytes "
        ++ (signed_decimal s
            ++ (codes "-" ++ (signed_decimal e ++ (codes "/" ++ signed_decimal size)))))
      (set_status partial_content r)
with_content_range size _ r = r

unfoldable pub content_length : ℤ → RangeResult → ℤ
content_length size r =
    if ltb_ℤ (pos 0) size then range_end size r -ℤ range_start r +ℤ pos 1 else pos 0

-- 200 or 206: the headers, and the part of the file to send.
unfoldable pub file_response : Io → FileInfo → RangeResult → Connection → Connection
unfolding prepare_headers content_length
file_response io info r c =
    let described : Connection = record c {
      response = set_accept_ranges true (
          set_last_modified info.last_modified (
            set_content_length (as_uint64 (content_length info.size r)) (
              set_content_type info.mime_type (
                set_status (if is_range r then partial_content else ok)
                  (with_content_range info.size r c.response)))));
    } in
    set_send_file info.fd info.size (range_start r) (range_end info.size r)
      (is_head_method c.request.method) (prepare_headers io described)

-- A digit loop that overflows is undefined behaviour, and recorded.
abbrev pub note_overflow : RangeResult → Connection → Connection
note_overflow undefined c = emit (signed_overflow ∷ []) c
note_overflow _ c = c

-- What is answered behind an overflow is up to the compiled program: any interval, or none.
abbrev pub answered_range : Option (ℤ × ℤ) → RangeResult → RangeResult
answered_range none undefined = no_range
answered_range (some (s, e)) undefined = range s e
answered_range _ r = r

unfoldable pub is_fresh : Option ℤ → FileInfo → Bool
is_fresh none info = false
is_fresh (some ims) info = leb_ℤ info.last_modified ims

unfoldable pub serve_file : Env → FileInfo → Connection → Connection
unfolding is_fresh
serve_file env info c =
    if is_fresh (parse_if_modified_since env.http_date c.request) info
    then not_modified_response env.io info c
    else let field = header c.request (codes "range") in
      let r = parse_range_value field info.size in
      file_response env.io info (answered_range (env.overflowed field info.size) r)
        (note_overflow r c)

-- The response of a request whose method is GET or HEAD.
unfoldable pub serve : Env → Bytes → Connection → Connection
unfolding serve_file
serve env root c = elim (open_request env.fs root c.request.path) [
  | opened info ↦ serve_file env info c
  | refused is_directory ↦ directory_response env root c
  | refused Files.not_found ↦
      page_response env.io (error_status Files.not_found)
        (error_body (error_status Files.not_found)) c
  | refused Files.forbidden ↦
      page_response env.io (error_status Files.forbidden)
        (error_body (error_status Files.forbidden)) c
  | refused Files.bad_request ↦
      page_response env.io (error_status Files.bad_request)
        (error_body (error_status Files.bad_request)) c
]

-- resp.reset(), the connection header, and the HEAD flag.
unfoldable pub begin_response : Connection → Connection
begin_response c = record c {
  response = set_keep_alive (is_keep_alive c.request) Response.reset;
  is_head = is_head_method c.request.method;
}

unfoldable pub prepare_for : Method → Env → Bytes → Connection → Connection
unfolding serve
prepare_for get env root c = serve env root c
prepare_for head env root c = serve env root c
prepare_for unknown env root c = page_response env.io not_implemented (error_body not_implemented) c

unfoldable pub prepare_response : Env → Bytes → Connection → Connection
unfolding prepare_for begin_response
prepare_response env root c = prepare_for c.request.method env root (begin_response c)
