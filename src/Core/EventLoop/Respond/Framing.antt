-- ===== src/Core/EventLoop/Respond/Framing.antt =====
-- The length that a response announces, whatever the request, against what is behind its headers.
use file_web_server.Base.{codes, ℕ, true, ◌≡◌, ◌≢◌, ◌⊎◌, Option, none, some, length}
use file_web_server.Base.Int.{ℤ, pos, ◌≤ℤ◌}
use file_web_server.Core.Connection.{Connection}
use file_web_server.Core.Io.{Io}
use file_web_server.Http.Request.Range.{parse_range_value, undefined}
use file_web_server.Http.Request.{header}
use file_web_server.Http.Response.{not_modified}
use file_web_server.Server.FileServer.Files.{FileInfo}
use file_web_server.Server.FileServer.Files

-- The number of bytes of the body: the part of the file, or what is in memory. A HEAD leaves them
-- unsent.
abbrev pub body_of : Option ℕ → Connection → ℤ
body_of none c = pos (length c.response.body)
body_of (some f) c = c.send_remaining

abbrev pub body_size : Connection → ℤ
body_size c = body_of c.file_fd c

-- A 304 with nothing behind its headers, or a response whose Content-Length is that number.
abbrev pub Framed : Connection → Type 0
Framed c =
    ((c.response.status ≡ not_modified) × (body_size c ≡ pos 0))
    ⊎ ((c.response.has_content_length ≡ true) × (pos c.response.content_length ≡ body_size c))

-- A file of which the Range header of a request can be answered.
abbrev pub Servable : Connection → FileInfo → Type 0
Servable c info =
    (pos 0 ≤ℤ info.size)
    × (parse_range_value (header c.request (codes "range")) info.size ≢ undefined)
