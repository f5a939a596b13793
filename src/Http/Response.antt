-- ===== src/Http/Response.antt =====
-- src/http/http_response.h and http_response.cpp: the response builder.
pub mod Values
pub mod Block
mod Tests
use file_web_server.Base.{
  ℕ, ◌-◌, ◌%◌, Bool, true, false, not, ◌&&◌, List, [], ◌∷◌, ◌++◌, if◌then◌else◌, get_or, length,
  Bytes, codes, is_empty, to_decimal, zero, suc,
}
use file_web_server.Base.Int.{ℤ, pos}

pub data Status : Type 0 where
  ok partial_content not_modified bad_request forbidden not_found : Status
  method_not_allowed range_not_satisfiable internal_error not_implemented : Status

-- The values of the enumeration.
abbrev pub status_code : Status → ℕ
status_code ok = 200
status_code partial_content = 206
status_code not_modified = 304
status_code bad_request = 400
status_code forbidden = 403
status_code not_found = 404
status_code method_not_allowed = 405
status_code range_not_satisfiable = 416
status_code internal_error = 500
status_code not_implemented = 501

-- `switch` covers every value, so the fallback "Unknown" is not reached.
unfoldable pub reason : Status → Bytes
reason ok = codes "OK"
reason partial_content = codes "Partial Content"
reason not_modified = codes "Not Modified"
reason bad_request = codes "Bad Request"
reason forbidden = codes "Forbidden"
reason not_found = codes "Not Found"
reason method_not_allowed = codes "Method Not Allowed"
reason range_not_satisfiable = codes "Range Not Satisfiable"
reason internal_error = codes "Internal Server Error"
reason not_implemented = codes "Not Implemented"

pub record HttpResponse : Type 0 where
  pub status : Status
  pub headers : List (Bytes × Bytes)
  pub body : Bytes
  pub content_type : Bytes
  pub content_length : ℕ
  pub has_content_length : Bool
  pub accept_ranges : Bool
  pub keep_alive : Bool
  pub has_last_modified : Bool
  pub last_modified : ℤ

-- `reset()`, and the state of a new object.
abbrev pub reset : HttpResponse
reset = record {
  status = ok;
  headers = [];
  body = [];
  content_type = [];
  content_length = 0;
  has_content_length = false;
  accept_ranges = false;
  keep_alive = true;
  has_last_modified = false;
  last_modified = pos 0;
}

abbrev pub set_status : Status → HttpResponse → HttpResponse
set_status s r = record r { status = s }

abbrev pub set_header : Bytes → Bytes → HttpResponse → HttpResponse
set_header name value r = record r { headers = r.headers ++ (name, value) ∷ [] }

abbrev pub set_content_type : Bytes → HttpResponse → HttpResponse
set_content_type ct r = record r { content_type = ct }

abbrev pub set_content_length : ℕ → HttpResponse → HttpResponse
set_content_length len r = record r { content_length = len; has_content_length = true }

abbrev pub set_last_modified : ℤ → HttpResponse → HttpResponse
set_last_modified tm r = record r { last_modified = tm; has_last_modified = true }

abbrev pub set_accept_ranges : Bool → HttpResponse → HttpResponse
set_accept_ranges v r = record r { accept_ranges = v }

abbrev pub set_keep_alive : Bool → HttpResponse → HttpResponse
set_keep_alive v r = record r { keep_alive = v }

abbrev pub set_body : Bytes → HttpResponse → HttpResponse
set_body b r = record r { body = b }

abbrev pub has_body : HttpResponse → Bool
has_body r = not (is_empty r.body)

-- struct tm, as gmtime_r fills it: no field is negative.
pub record Tm : Type 0 where
  pub wday : ℕ
  pub mday : ℕ
  pub mon : ℕ
  pub year : ℕ  -- tm_year + 1900
  pub hour : ℕ
  pub minute : ℕ
  pub second : ℕ

abbrev pub weekday_names : List Bytes
weekday_names =
    codes "Sun"
    ∷ codes "Mon"
    ∷ codes "Tue"
    ∷ codes "Wed"
    ∷ codes "Thu"
    ∷ codes "Fri"
    ∷ codes "Sat"
    ∷ []

abbrev pub weekday_name : ℕ → Bytes
weekday_name wday = get_or weekday_names (wday % 7) []

abbrev pub month_names : List Bytes
month_names =
    codes "Jan"
    ∷ codes "Feb"
    ∷ codes "Mar"
    ∷ codes "Apr"
    ∷ codes "May"
    ∷ codes "Jun"
    ∷ codes "Jul"
    ∷ codes "Aug"
    ∷ codes "Sep"
    ∷ codes "Oct"
    ∷ codes "Nov"
    ∷ codes "Dec"
    ∷ []

abbrev pub month_name : ℕ → Bytes
month_name mon = get_or month_names (mon % 12) []

unfoldable pub zeros : ℕ → Bytes
zeros zero = []
zeros (suc n) = b'0' ∷ zeros n

-- The conversion %0<w>d.
unfoldable pub padded : ℕ → ℕ → Bytes
unfolding zeros
padded w n = let digits = to_decimal n in zeros (w - length digits) ++ digits

abbrev pub space : Bytes
space = b' ' ∷ []

abbrev pub line_end : Bytes
line_end = 13 ∷ 10 ∷ []

-- "%s, %02d %s %04d %02d:%02d:%02d GMT"
unfoldable pub format_time : Tm → Bytes
format_time t =
    weekday_name t.wday
    ++ (codes ", "
        ++ (padded 2 t.mday
            ++ (space
                ++ (month_name t.mon
                    ++ (space
                        ++ (padded 4 t.year
                            ++ (space
                                ++ (padded 2 t.hour
                                    ++ (codes ":"
                                        ++ (padded 2 t.minute
                                            ++ (codes ":"
                                                ++ (padded 2 t.second ++ codes " GMT"))))))))))))

-- A header line with its line end.
abbrev pub line : Bytes → Bytes → Bytes
line name value = name ++ (codes ": " ++ (value ++ line_end))

abbrev pub is_not_modified : Status → Bool
is_not_modified not_modified = true
is_not_modified _ = false

unfoldable pub custom_lines : List (Bytes × Bytes) → Bytes
custom_lines [] = []
custom_lines ((k, v) ∷ hs) = line k v ++ custom_lines hs

abbrev pub optional : Bool → Bytes → Bytes
optional test text = if test then text else []

-- gmtime_r is the first argument, std::time(nullptr) the second.
unfoldable pub build_headers : (ℤ → Tm) → ℤ → HttpResponse → Bytes
unfolding custom_lines
build_headers gmtime now r =
    (codes "HTTP/1.1 "
      ++ (to_decimal (status_code r.status) ++ (space ++ (reason r.status ++ line_end))))
    ++ (line (codes "Date") (format_time (gmtime now))
        ++ (optional (not (is_not_modified r.status) && not (is_empty r.content_type))
              (line (codes "Content-Type") r.content_type)
            ++ (optional (not (is_not_modified r.status) && r.has_content_length)
                  (line (codes "Content-Length") (to_decimal r.content_length))
                ++ (optional r.has_last_modified
                      (line (codes "Last-Modified") (format_time (gmtime r.last_modified)))
                    ++ (optional r.accept_ranges (codes "Accept-Ranges: bytes\r\n")
                        ++ (codes "Connection: "
                            ++ ((if r.keep_alive then codes "keep-alive\r\n" else codes "close\r\n")
                                ++ (custom_lines r.headers ++ line_end))))))))

unfoldable pub error_body : Status → Bytes
error_body s =
    let title = to_decimal (status_code s) ++ (space ++ reason s) in
    codes "<!DOCTYPE html><html><head><meta charset=\"utf-8\"><title>"
    ++ (title ++ (codes "</title></head><body><h1>" ++ (title ++ codes "</h1></body></html>")))
