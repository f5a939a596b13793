-- ===== src/Http/Response/Tests.antt =====
-- The header block of a page.
use file_web_server.Base.{[], ◌∷◌, ◌≡◌, arith, codes}
use file_web_server.Base.Int.{ℤ, pos}
use file_web_server.Http.Request.Printed.{request_text}
use file_web_server.Http.Response.Block.{Ends, build_headers-block, response_fields}
use file_web_server.Http.Response.Values.{status_line}
use file_web_server.Http.Response.{HttpResponse, Tm, build_headers, reset}

abbrev midnight : ℤ → Tm
midnight _ = record { wday = 4; mday = 1; mon = 0; year = 1970; hour = 0; minute = 0; second = 0 }

abbrev page : HttpResponse
page = record reset {
  content_type = codes "text/plain";
  headers = (codes "Content-Range", codes "bytes 0-1/9") ∷ [];
}

build_headers-block_example :
    (build_headers midnight (pos 0) page
      ≡ request_text (status_line page.status) (response_fields midnight (pos 0) page) [])
    × Ends (build_headers midnight (pos 0) page) (codes "ab")
build_headers-block_example =
    build_headers-block midnight (pos 0) page (codes "ab") (ground arith) (ground arith)
