-- ===== src/Http/Response/Block.antt =====
-- The header block that `build_headers` writes, as a status line, fields and an empty line.
use file_web_server.Base.{
  ℕ, ◌+◌, Bool, true, false, not, ◌&&◌, List, [], ◌∷◌, ◌++◌, ◌≡◌, refl, sym, ap, ◌∙◌, arith, some,
  if◌then◌else◌, append_assoc, All, NotByte, Bytes, codes, is_empty, length, length-append, find,
  to_decimal,
}
use file_web_server.Base.Int.{ℤ}
use file_web_server.Http.Request.Printed.{
  IsField, IsLine, StartsDark, closed, fields_text, find-closed, request_text, request_text-closed,
}
use file_web_server.Http.Request.{crlf, crlf_crlf}
use file_web_server.Http.Response.Values.{
  format_time-IsValue, status_line, status_line-IsLine, to_decimal-IsValue,
}
use file_web_server.Http.Response.{
  HttpResponse, Tm, Status, build_headers, custom_lines, format_time, is_not_modified, line,
  line_end, optional, reason, space, status_code,
}

abbrev pub when : Bool → Bytes × Bytes → List (Bytes × Bytes) → List (Bytes × Bytes)
when test f fs = if test then f ∷ fs else fs

-- The fields, in their order.
abbrev pub response_fields : (ℤ → Tm) → ℤ → HttpResponse → List (Bytes × Bytes)
response_fields gmtime now r =
    (codes "Date", format_time (gmtime now))
    ∷ when (not (is_not_modified r.status) && not (is_empty r.content_type))
        (codes "Content-Type", r.content_type)
        (when (not (is_not_modified r.status) && r.has_content_length)
          (codes "Content-Length", to_decimal r.content_length)
          (when r.has_last_modified (codes "Last-Modified", format_time (gmtime r.last_modified))
            (when r.accept_ranges (codes "Accept-Ranges", codes "bytes")
              ((codes "Connection", if r.keep_alive then codes "keep-alive" else codes "close")
                ∷ r.headers))))

-- Fields and the empty line behind them.
abbrev ended : List (Bytes × Bytes) → Bytes
ended fs = fields_text fs ++ (crlf ++ [])

ended-line : (n v : Bytes) (fs : List (Bytes × Bytes)) → line n v ++ ended fs ≡ ended ((n, v) ∷ fs)
ended-line n v fs = simp append_assoc

ended-when :
    (b : Bool) (n v : Bytes) (fs : List (Bytes × Bytes))
    → optional b (line n v) ++ ended fs ≡ ended (when b (n, v) fs)
ended-when true n v fs = ended-line n v fs
ended-when false n v fs = refl

ended-custom : (hs : List (Bytes × Bytes)) → custom_lines hs ++ line_end ≡ ended hs
unfolding custom_lines
ended-custom [] = refl
ended-custom ((k, v) ∷ hs) =
    append_assoc (line k v) (custom_lines hs) line_end
    ∙ ap (λ z. line k v ++ z) (ended-custom hs)
    ∙ ended-line k v hs

ended-connection :
    (b : Bool) (hs : List (Bytes × Bytes))
    → codes "Connection: "
        ++ ((if b then codes "keep-alive\r\n" else codes "close\r\n")
            ++ (custom_lines hs ++ line_end))
      ≡ ended ((codes "Connection", if b then codes "keep-alive" else codes "close") ∷ hs)
ended-connection true hs =
    ap (λ z. codes "Connection: " ++ (codes "keep-alive\r\n" ++ z)) (ended-custom hs)
ended-connection false hs =
    ap (λ z. codes "Connection: " ++ (codes "close\r\n" ++ z)) (ended-custom hs)

status_line-end :
    (s : Status)
    → codes "HTTP/1.1 " ++ (to_decimal (status_code s) ++ (space ++ (reason s ++ line_end)))
      ≡ status_line s ++ crlf
status_line-end s = sym (simp append_assoc)

with_status :
    (s : Status) (text : Bytes)
    → (codes "HTTP/1.1 " ++ (to_decimal (status_code s) ++ (space ++ (reason s ++ line_end))))
        ++ text
      ≡ status_line s ++ (crlf ++ text)
with_status s text =
    ap (λ z. z ++ text) (status_line-end s) ∙ append_assoc (status_line s) crlf text

-- One more field in front of a text.
in_front :
    (b : Bool) (n v : Bytes) (fs : List (Bytes × Bytes)) (text : Bytes)
    → text ≡ ended fs
    → optional b (line n v) ++ text ≡ ended (when b (n, v) fs)
in_front b n v fs text e = ap (λ z. optional b (line n v) ++ z) e ∙ ended-when b n v fs

build_headers-request_text :
    (gmtime : ℤ → Tm) (now : ℤ) (r : HttpResponse)
    → build_headers gmtime now r
      ≡ request_text (status_line r.status) (response_fields gmtime now r) []
unfolding build_headers
build_headers-request_text gmtime now r =
    let fresh = not (is_not_modified r.status) in
    let date = format_time (gmtime now) in
    let fields =
      in_front (fresh && not (is_empty r.content_type)) (codes "Content-Type") r.content_type _ _ (
        in_front (fresh && r.has_content_length) (codes "Content-Length")
          (to_decimal r.content_length) _ _
          (in_front r.has_last_modified (codes "Last-Modified")
            (format_time (gmtime r.last_modified)) _ _
            (in_front r.accept_ranges (codes "Accept-Ranges") (codes "bytes") _ _
              (ended-connection r.keep_alive r.headers)))) in
    let all = ap (λ z. line (codes "Date") date ++ z) fields ∙ ended-line (codes "Date") date _ in
    with_status r.status _ ∙ ap (λ z. status_line r.status ++ (crlf ++ z)) all

when-IsField :
    (b : Bool) (f : Bytes × Bytes) (fs : List (Bytes × Bytes))
    → IsField f
    → All IsField fs
    → All IsField (when b f fs)
when-IsField true f fs h hs = (h, hs)
when-IsField false f fs h hs = hs

-- A name that is written in the source.
named : (n v : Bytes) → All (NotByte b':') n × IsLine n → StartsDark v × IsLine v → IsField (n, v)
named n v (a, b) (c, d) = (a, b, c, d)

response_fields-IsField :
    (gmtime : ℤ → Tm) (now : ℤ) (r : HttpResponse)
    → IsField (codes "Content-Type", r.content_type)
    → All IsField r.headers
    → All IsField (response_fields gmtime now r)
response_fields-IsField gmtime now r ct hs =
    let fresh = not (is_not_modified r.status) in
    let length_field : Bytes × Bytes = (codes "Content-Length", to_decimal r.content_length) in
    let modified_field : Bytes × Bytes =
      (codes "Last-Modified", format_time (gmtime r.last_modified)) in
    let ranges_field : Bytes × Bytes = (codes "Accept-Ranges", codes "bytes") in
    let last : List (Bytes × Bytes) =
      (codes "Connection", if r.keep_alive then codes "keep-alive" else codes "close")
      ∷ r.headers in
    let ranged = when r.accept_ranges ranges_field last in
    let dated = when r.has_last_modified modified_field ranged in
    let sized = when (fresh && r.has_content_length) length_field dated in
    (
      named (codes "Date") (format_time (gmtime now)) (ground arith)
          (format_time-IsValue (gmtime now)),
      when-IsField (fresh && not (is_empty r.content_type)) (codes "Content-Type", r.content_type)
          sized ct
          (when-IsField (fresh && r.has_content_length) length_field dated
            (named (codes "Content-Length") (to_decimal r.content_length) (ground arith)
              (to_decimal-IsValue r.content_length))
            (when-IsField r.has_last_modified modified_field ranged
              (named (codes "Last-Modified") (format_time (gmtime r.last_modified)) (ground arith)
                (format_time-IsValue (gmtime r.last_modified)))
              (when-IsField r.accept_ranges ranges_field last
                (named (codes "Accept-Ranges") (codes "bytes") (ground arith) (ground arith))
                (connection r.keep_alive, hs)))),
    )
  where
    connection :
        (b : Bool) → IsField (codes "Connection", if b then codes "keep-alive" else codes "close")
    connection true = ground arith
    connection false = ground arith

-- Where the header block ends: four bytes behind the first empty line.
abbrev pub Ends : Bytes → Bytes → Type 0
Ends block body = (k : ℕ) × (find crlf_crlf (block ++ body) ≡ some k) × (length block ≡ k + 4)

request_text-Ends :
    (line : Bytes) (fs : List (Bytes × Bytes)) (body : Bytes)
    → IsLine line
    → All IsField fs
    → Ends (request_text line fs []) body
request_text-Ends line fs body l h =
    let e = request_text-closed line fs [] in
    let whole = append_assoc (closed line fs) crlf_crlf body in
    (
      length (closed line fs),
      rw (e, whole) (find-closed line fs body l h),
      ap length e ∙ length-append (closed line fs) crlf_crlf,
    )

-- If the content type and the custom headers hold no carriage return, no colon in a name and no
-- blank in front of a value: build_headers is the status line, the fields and an empty line, and
-- whatever body stands behind it, the first empty line of the whole is the end of the header
-- block.
pub build_headers-block :
    (gmtime : ℤ → Tm) (now : ℤ) (r : HttpResponse) (body : Bytes)
    → IsField (codes "Content-Type", r.content_type)
    → All IsField r.headers
    → (build_headers gmtime now r
        ≡ request_text (status_line r.status) (response_fields gmtime now r) [])
      × Ends (build_headers gmtime now r) body
build_headers-block gmtime now r body ct hs =
    let e = build_headers-request_text gmtime now r in
    let fields = response_fields-IsField gmtime now r ct hs in
    (
      e,
      rw e (
          request_text-Ends (status_line r.status) (response_fields gmtime now r) body
            (status_line-IsLine r.status) fields),
    )
