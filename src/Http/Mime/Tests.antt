-- ===== src/Http/Mime/Tests.antt =====
-- Runs of the MIME lookup.
use file_web_server.Base.{◌≡◌, refl, codes, arith, some, less, equal}
use file_web_server.Http.Mime.Lookup.{detect_mime_type-linear, linear}
use file_web_server.Http.Mime.{mime_table, detect_mime_type, search_ext, rfind_byte, fallback_mime}

html : detect_mime_type (codes "/www/index.html") ≡ codes "text/html; charset=utf-8"
unfolding detect_mime_type search_ext mime_table rfind_byte less equal
html = refl

avi : detect_mime_type (codes "a.avi") ≡ fallback_mime
unfolding detect_mime_type search_ext mime_table rfind_byte less equal
avi = refl

page_dot : rfind_byte b'.' (codes "/a.b/page.html") ≡ some 9
unfolding rfind_byte
page_dot = refl

detect_mime_type-linear_example :
    detect_mime_type (codes "/a.b/page.html") ≡ linear mime_table (codes ".html")
detect_mime_type-linear_example =
    detect_mime_type-linear (codes "/a.b/page.html") 9 page_dot (λ e. ground arith)
