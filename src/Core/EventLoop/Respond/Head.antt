-- ===== src/Core/EventLoop/Respond/Head.antt =====
-- A request with HEAD against the same request with GET.
use file_web_server.Base.{ap, codes, true, ◌≡◌, refl, sym, ◌∙◌, inl, inr, Bytes, Bool-cases}
use file_web_server.Core.Connection.Delivery.{is_bodyless}
use file_web_server.Core.Connection.Sending.{prepare_headers, set_send_file}
use file_web_server.Core.Connection.{Connection}
use file_web_server.Core.EventLoop.Respond.Links.{serve-served, served}
use file_web_server.Core.EventLoop.Respond.{
  answered_range, note_overflow, begin_response, directory_response, file_response, is_fresh,
  not_modified_response, page_response, prepare_for, prepare_response, serve, serve_file,
}
use file_web_server.Core.EventLoop.{Env}
use file_web_server.Core.Io.{Io}
use file_web_server.Http.Request.Range.{parse_range_value, RangeResult, no_range, undefined, range}
use file_web_server.Http.Request.{header, Method, get, head, is_keep_alive, parse_if_modified_since}
use file_web_server.Http.Response.{HttpResponse}
use file_web_server.Server.FileServer.Files.{
  FileInfo, FileResult, opened, refused, is_directory, open_request,
}
use file_web_server.Server.FileServer.Files

-- The same request with another method.
abbrev pub asked : Method → Bytes → Connection → Connection
asked m raw c = record c { request = record c.request { method = m; raw_method = raw } }

-- What the client sees of the headers, and the HEAD flag.
abbrev pub Headers : Type 0
Headers = Bytes × HttpResponse

abbrev pub headers : Connection → Headers
headers c = (c.header_buf, c.response)

-- A connection that answers HEAD, and one that answers GET.
record Twins (c d : Connection) : Type 0 where
  same : headers c ≡ headers d
  silent : c.is_head ≡ true

module _ (c : Connection) where
  abbrev by_head : Connection
  by_head = begin_response (asked head (codes "HEAD") c)

  abbrev by_get : Connection
  by_get = begin_response (asked get (codes "GET") c)

  file_response-Twins :
      (io : Io) (info : FileInfo) (r read : RangeResult)
      → Twins
          (file_response io info r (note_overflow read by_head))
          (file_response io info r (note_overflow read by_get))
  unfolding file_response prepare_headers set_send_file begin_response is_keep_alive
  file_response-Twins io info r no_range = record { same = refl; silent = refl }
  file_response-Twins io info r undefined = record { same = refl; silent = refl }
  file_response-Twins io info r (range s e) = record { same = refl; silent = refl }

  serve_file-Twins :
      (env : Env) (info : FileInfo)
      → Twins (serve_file env info by_head) (serve_file env info by_get)
  unfolding serve_file not_modified_response prepare_headers parse_if_modified_since begin_response
      is_keep_alive
  serve_file-Twins env info =
      elim (Bool-cases (is_fresh (parse_if_modified_since env.http_date c.request) info)) [
        | inl e ↦ rw (serve_file, e) (record { same = refl; silent = refl })
        | inr e ↦
            let field = header c.request (codes "range") in
            let read = parse_range_value field info.size in
            rw (serve_file, e)
              (file_response-Twins env.io info
                (answered_range (env.overflowed field info.size) read) read)
      ]

  served-Twins :
      (env : Env) (root : Bytes) (r : FileResult)
      → Twins (served env root by_head r) (served env root by_get r)
  unfolding directory_response page_response prepare_headers begin_response is_keep_alive
  served-Twins env root (opened info) = serve_file-Twins env info
  served-Twins env root (refused is_directory) = record { same = refl; silent = refl }
  served-Twins env root (refused Files.not_found) = record { same = refl; silent = refl }
  served-Twins env root (refused Files.forbidden) = record { same = refl; silent = refl }
  served-Twins env root (refused Files.bad_request) = record { same = refl; silent = refl }

-- The connection once its request has been answered, had the method been HEAD, or GET.
abbrev pub head_answer : Env → Bytes → Connection → Connection
head_answer env root c = prepare_response env root (asked head (codes "HEAD") c)

abbrev pub get_answer : Env → Bytes → Connection → Connection
get_answer env root c = prepare_response env root (asked get (codes "GET") c)

-- A request with HEAD gets the header bytes and the response that it would get with GET, and is
-- marked so that nothing is sent behind the headers.
pub prepare_response-head :
    (env : Env) (root : Bytes) (c : Connection)
    → ((head_answer env root c).header_buf ≡ (get_answer env root c).header_buf)
      × ((head_answer env root c).response ≡ (get_answer env root c).response)
      × (is_bodyless (head_answer env root c) ≡ true)
unfolding prepare_response prepare_for begin_response
prepare_response-head env root c =
    let r = open_request env.fs root c.request.path in
    let twins = served-Twins c env root r in
    let a = serve-served env root (by_head c) in
    let b = serve-served env root (by_get c) in
    let same = ap headers a ∙ twins.same ∙ sym (ap headers b) in
    let silent : (serve env root (by_head c)).is_head ≡ true =
      ap (λ d. d.is_head) a ∙ twins.silent in
    (ap (λ h. h.0) same, ap (λ h. h.1) same, rw silent refl)
