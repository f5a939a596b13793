-- ===== src/Core/Connection/Reading.antt =====
-- Protocol detection, the TLS handshake, reading and parsing a request.
pub mod Pieces
use file_web_server.Base.{
  ℕ, Bool, true, [], ◌∷◌, ◌++◌, is_some, ltb, ◌==◌, if◌then◌else◌, length, Bytes, codes, find,
}
use file_web_server.Core.Io.{
  Io, again, other, want_read, want_write, fatal, peeked, no_byte, peek_failed, accepted,
  not_accepted, got, read_failed, ssl_got, ssl_read_failed,
}
use file_web_server.Core.Connection.{
  Connection, Want, nothing, read, write, tls_accept, reading, parsing, sending_headers, close,
}
use file_web_server.Core.Connection.Sending.{error_response}
use file_web_server.Http.Request.{parse, crlf_crlf}
use file_web_server.Http.Response.{bad_request, internal_error, error_body}

unfoldable pub do_proto_detect : Io → Bool → Connection → Connection × Want
do_proto_detect io tls_available c = elim io.peek [
  | no_byte ↦ (close c, nothing)
  | peek_failed again ↦ (c, read)
  | peek_failed other ↦ (close c, nothing)
  | peeked byte ↦
      if byte == 0x16
      then if tls_available then (record c { state = tls_accept }, nothing) else (
        record (error_response io bad_request
            (error_body bad_request ++ codes "\n(Server does not support HTTPS/TLS)") c) {
              state = sending_headers;
            },
        write,
      )
      else (record c { last_active = io.clock; state = reading }, read)
]

unfoldable pub do_tls_accept : Io → Connection → Connection × Want
do_tls_accept io c = elim io.ssl_accept [
  | accepted ↦ (record c { state = reading; last_active = io.clock }, read)
  | not_accepted want_read ↦ (c, read)
  | not_accepted want_write ↦ (c, write)
  | not_accepted fatal ↦ (
    record (error_response io internal_error (error_body internal_error) c) {
      state = sending_headers;
    },
    write,
  )
]

-- The largest read_buf_ that is kept waiting for the end of the headers.
abbrev pub max_headers : ℕ
max_headers = 65536

-- What follows a successful read of `bytes`.
unfoldable pub after_read : Bytes → Connection → Connection × Want
after_read bytes c =
    let d : Connection = record c { read_buf = c.read_buf ++ bytes } in
    if is_some (find crlf_crlf d.read_buf)
    then (record d { headers_complete = true; state = parsing }, nothing)
    else if ltb max_headers (length d.read_buf)
    then (close d, nothing)
    else (d, read)

unfoldable pub do_read : Io → Connection → Connection × Want
unfolding after_read
do_read io c0 =
    let c : Connection = record c0 { last_active = io.clock } in
    if is_some c.ssl
    then elim io.ssl_read [
      | ssl_got b bs ↦ after_read (b ∷ bs) c
      | ssl_read_failed want_read ↦ (c, read)
      | ssl_read_failed want_write ↦ (c, write)
      | ssl_read_failed fatal ↦ (close c, nothing)
    ]
    else elim io.read [
      | got [] ↦ (close c, nothing)
      | got (b ∷ bs) ↦ after_read (b ∷ bs) c
      | read_failed again ↦ (c, read)
      | read_failed other ↦ (close c, nothing)
    ]

unfoldable pub do_parse : Io → Connection → Connection × Want
do_parse io c =
    let parsed = parse c.read_buf in
    if parsed.0 then (record c { request = parsed.1 }, nothing) else (
      record (error_response io bad_request (error_body bad_request)
          (record c { request = parsed.1 })) { state = sending_headers },
      write,
    )
