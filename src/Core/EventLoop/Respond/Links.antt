-- ===== src/Core/EventLoop/Respond/Links.antt =====
-- What preparing a response does to the fields of a connection that are not those of the response.
use file_web_server.Base.{ap, codes, ℕ, ◌≡◌, refl, ◌∙◌, Option, arith, inl, inr, Bytes, Bool-cases}
use file_web_server.Core.Connection.Links.{Links, links}
use file_web_server.Core.Connection.Sending.{prepare_headers, set_send_file}
use file_web_server.Core.Connection.{Connection, State}
use file_web_server.Core.EventLoop.Respond.{
  error_status, begin_response, directory_response, file_response, is_fresh, not_modified_response,
  answered_range, note_overflow, page_response, prepare_for, prepare_response, serve, serve_file,
}
use file_web_server.Core.EventLoop.{Env}
use file_web_server.Http.Request.Range.{parse_range_value, RangeResult, no_range, undefined, range}
use file_web_server.Http.Request.{header, Method, get, head, unknown, parse_if_modified_since}
use file_web_server.Http.Response.{Status, error_body}
use file_web_server.Core.Io.{Io}
use file_web_server.Server.FileServer.Files
use file_web_server.Server.FileServer.Files.{
  FileInfo, FileResult, opened, refused, is_directory, open_request,
}

abbrev pub Kept : Type 0
Kept = Links × State × Option ℕ × ℕ × ℕ × ℕ × Option ℕ

abbrev pub kept : Connection → Kept
kept c = (links c, c.state, c.ssl, c.body_sent, c.chunk_used, c.header_sent, c.fd)

-- With none of the headers sent.
abbrev pub unsent_headers : Connection → Connection
unsent_headers c = record c { header_sent = 0 }

kept-page_response :
    (io : Io) (s : Status) (body : Bytes) (c : Connection)
    → kept (page_response io s body c) ≡ kept (unsent_headers c)
unfolding page_response prepare_headers
kept-page_response io s body c = refl

kept-file_response :
    (io : Io) (info : FileInfo) (r : RangeResult) (c : Connection)
    → kept (file_response io info r c) ≡ kept (unsent_headers c)
unfolding file_response prepare_headers set_send_file
kept-file_response io info r c = refl

kept-note_overflow :
    (r : RangeResult) (c : Connection)
    → kept (unsent_headers (note_overflow r c)) ≡ kept (unsent_headers c)
kept-note_overflow no_range c = refl
kept-note_overflow undefined c = refl
kept-note_overflow (range s e) c = refl

kept-serve_file :
    (env : Env) (info : FileInfo) (c : Connection)
    → kept (serve_file env info c) ≡ kept (unsent_headers c)
unfolding serve_file not_modified_response prepare_headers
kept-serve_file env info c =
    let field = header c.request (codes "range") in
    let r = parse_range_value field info.size in
    let answered = answered_range (env.overflowed field info.size) r in
    elim (Bool-cases (is_fresh (parse_if_modified_since env.http_date c.request) info)) [
      | inl e ↦ rw e refl
      | inr e ↦
          rw e
            (kept-file_response env.io info answered (note_overflow r c) ∙ kept-note_overflow r c)
    ]

abbrev pub served : Env → Bytes → Connection → FileResult → Connection
served env root c (opened info) = serve_file env info c
served env root c (refused is_directory) = directory_response env root c
served env root c (refused e) =
    page_response env.io (error_status e) (error_body (error_status e)) c

pub serve-served :
    (env : Env) (root : Bytes) (c : Connection)
    → serve env root c ≡ served env root c (open_request env.fs root c.request.path)
unfolding serve
serve-served env root c = ground arith

kept-served :
    (env : Env) (root : Bytes) (c : Connection) (r : FileResult)
    → kept (served env root c r) ≡ kept (unsent_headers c)
unfolding directory_response page_response prepare_headers
kept-served env root c (opened info) = kept-serve_file env info c
kept-served env root c (refused is_directory) = refl
kept-served env root c (refused Files.not_found) = refl
kept-served env root c (refused Files.forbidden) = refl
kept-served env root c (refused Files.bad_request) = refl

kept-prepare_for :
    (m : Method) (env : Env) (root : Bytes) (c : Connection)
    → kept (prepare_for m env root c) ≡ kept (unsent_headers c)
unfolding prepare_for page_response prepare_headers
kept-prepare_for get env root c = ap kept (serve-served env root c) ∙ kept-served env root c _
kept-prepare_for head env root c = ap kept (serve-served env root c) ∙ kept-served env root c _
kept-prepare_for unknown env root c = refl

pub kept-prepare_response :
    (env : Env) (root : Bytes) (c : Connection)
    → kept (prepare_response env root c) ≡ kept (unsent_headers c)
unfolding prepare_response begin_response
kept-prepare_response env root c = kept-prepare_for c.request.method env root (begin_response c)
