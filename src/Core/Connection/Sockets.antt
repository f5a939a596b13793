-- ===== src/Core/Connection/Sockets.antt =====
-- The socket of a connection: the connection's own methods keep it, or close the connection with it.
use file_web_server.Base.{
  ◌+◌, take, drop, leb, Bool-cases, ℕ, length, false, if◌then◌else◌, none, [], ◌∷◌, Bool, ◌≡◌, refl,
  Option, arith, inl, inr, Bytes,
}
use file_web_server.Core.Connection.Reading.{
  after_read, do_parse, do_proto_detect, do_read, do_tls_accept,
}
use file_web_server.Core.Connection.Sending.{
  Pushed, advanced, wait, broken, after_chunk, after_headers, after_memory, after_pread, after_push,
  after_sendfile, do_send_body, do_send_body_plain, do_send_body_tls, do_send_headers,
  error_response, prepare_headers, push, push_ssl, send_memory,
}
use file_web_server.Core.Connection.{
  closed, is_closed, Connection, emit, close, close_file, close_socket, free_ssl, reset,
}
use file_web_server.Core.Io.{
  Io, sent, sent_all, sent_some, sendfile_failed, SendfileResult, PreadResult, pread_failed,
  pread_got,
}

-- The socket behind a step, given the connection in front of it: none if it is now closed.
abbrev pub socket_after : Connection → Connection → Option ℕ
socket_after c d = if is_closed d.state then none else c.fd

abbrev pub Keeps : Connection → Connection → Type 0
Keeps c d = d.fd ≡ socket_after c d

abbrev pub IsOpen : Connection → Type 0
IsOpen c = is_closed c.state ≡ false

pub fd-close : (c : Connection) → IsOpen c → (close c).fd ≡ none
unfolding close close_file close_socket free_ssl
fd-close c o = ground arith

pub state-close : (c : Connection) → IsOpen c → (close c).state ≡ closed
unfolding close
state-close c o = ground arith

pub socket-close : (c : Connection) → IsOpen c → Keeps c (close c)
socket-close c o = rw (fd-close c o, state-close c o) refl

fd-close_file : (c : Connection) → (close_file c).fd ≡ c.fd
unfolding close_file
fd-close_file c = ground arith

pub state-close_file : (c : Connection) → (close_file c).state ≡ c.state
unfolding close_file
state-close_file c = ground arith

pub fd-reset : (c : Connection) → (reset c).fd ≡ c.fd
unfolding reset
fd-reset c = fd-close_file c

pub state-reset : (c : Connection) → (reset c).state ≡ c.state
unfolding reset
state-reset c = state-close_file c

socket-after_read : (bs : Bytes) (c : Connection) → IsOpen c → Keeps c (after_read bs c).0
unfolding after_read
socket-after_read bs c o = grind (arith, socket-close)

pub socket-do_read : (io : Io) (c : Connection) → IsOpen c → Keeps c (do_read io c).0
unfolding do_read
socket-do_read io c o = grind (arith, socket-after_read, socket-close)

pub socket-do_parse : (io : Io) (c : Connection) → IsOpen c → Keeps c (do_parse io c).0
unfolding do_parse error_response prepare_headers
socket-do_parse io c o = ground arith

pub socket-do_proto_detect :
    (io : Io) (tls : Bool) (c : Connection) → IsOpen c → Keeps c (do_proto_detect io tls c).0
unfolding do_proto_detect error_response prepare_headers
socket-do_proto_detect io tls c o = ground (arith, socket-close c)

pub socket-do_tls_accept : (io : Io) (c : Connection) → IsOpen c → Keeps c (do_tls_accept io c).0
unfolding do_tls_accept error_response prepare_headers
socket-do_tls_accept io c o = ground arith

socket-after_sendfile :
    (r : SendfileResult) (c : Connection) → IsOpen c → Keeps c (after_sendfile r c).0
unfolding after_sendfile
socket-after_sendfile (sent_all n) c o = grind (arith, fd-close_file, state-close_file)
socket-after_sendfile (sent_some n) c o = rw o refl
socket-after_sendfile sendfile_failed c o = socket-close c o

socket-do_send_body_plain :
    (io : Io) (c : Connection) → IsOpen c → Keeps c (do_send_body_plain io c).0
unfolding do_send_body_plain
socket-do_send_body_plain io c o =
    grind (arith, socket-after_sendfile, fd-close_file, state-close_file)

socket-after_chunk : (p : Pushed) (c : Connection) → IsOpen c → Keeps c (after_chunk p c).0
unfolding after_chunk
socket-after_chunk (advanced n) c o = ground arith
socket-after_chunk (wait w) c o = rw o refl
socket-after_chunk broken c o = socket-close c o

socket-after_pread :
    (r : PreadResult) (io : Io) (c : Connection) → IsOpen c → Keeps c (after_pread r io c).0
unfolding after_pread
socket-after_pread pread_failed io c o = socket-close c o
socket-after_pread (pread_got []) io c o = socket-close c o
socket-after_pread (pread_got (b ∷ bs)) io c o =
    socket-after_chunk (push_ssl io.ssl_write_body)
      (record c { chunk_buf = b ∷ bs; chunk_used = length (b ∷ bs); chunk_sent = 0 }) o

socket-do_send_body_tls : (io : Io) (c : Connection) → IsOpen c → Keeps c (do_send_body_tls io c).0
unfolding do_send_body_tls
socket-do_send_body_tls io c o =
    grind (arith, socket-after_chunk, socket-after_pread, fd-close_file, state-close_file)

socket-after_memory : (p : Pushed) (c : Connection) → IsOpen c → Keeps c (after_memory p c).0
unfolding after_memory
socket-after_memory (advanced n) c o = ground arith
socket-after_memory (wait w) c o = rw o refl
socket-after_memory broken c o = socket-close c o

pub socket-do_send_body : (io : Io) (c : Connection) → IsOpen c → Keeps c (do_send_body io c).0
unfolding do_send_body send_memory
socket-do_send_body io c o =
    grind (arith, socket-after_memory, socket-do_send_body_tls, socket-do_send_body_plain)

socket-after_headers : (io : Io) (c : Connection) → IsOpen c → Keeps c (after_headers io c).0
unfolding after_headers
socket-after_headers io c o = grind (arith, socket-do_send_body)

socket-after_push :
    (p : Pushed) (io : Io) (c : Connection) → IsOpen c → Keeps c (after_push p io c).0
unfolding after_push
socket-after_push (advanced n) io c o =
    let bytes = take n (drop c.header_sent c.header_buf) in
    let d : Connection = record (emit (sent bytes ∷ []) c) { header_sent = c.header_sent + n } in
    elim (Bool-cases (leb (length c.header_buf) (c.header_sent + n))) [
      | inl e ↦ rw e (socket-after_headers io d o)
      | inr e ↦ rw (e, o) refl
    ]
socket-after_push (wait w) io c o = rw o refl
socket-after_push broken io c o = socket-close c o

pub socket-do_send_headers :
    (io : Io) (c : Connection) → IsOpen c → Keeps c (do_send_headers io c).0
unfolding do_send_headers
socket-do_send_headers io c o =
    socket-after_push (push c io.write_headers io.ssl_write_headers) io c o
