-- ===== src/Core/Connection/Links.antt =====
-- The fields of a connection that belong to the keep-alive list: the connection's own methods leave
-- them alone.
use file_web_server.Base.{
  ◌+◌, take, drop, leb, Bool-cases, ℕ, length, [], ◌∷◌, Bool, ◌≡◌, refl, Option, arith, inl, inr,
  Bytes,
}
use file_web_server.Core.Connection.Reading.{
  after_read, do_parse, do_proto_detect, do_read, do_tls_accept,
}
use file_web_server.Core.Connection.Sending.{
  Pushed, advanced, wait, broken, after_chunk, after_headers, after_memory, after_pread, after_push,
  after_sendfile, do_send_body, do_send_body_plain, do_send_body_tls, do_send_headers,
  error_response, prepare_headers, push, push_ssl, send_memory,
}
use file_web_server.Core.Connection.{
  Connection, emit, close, close_file, close_socket, free_ssl, reset,
}
use file_web_server.Core.Io.{
  Io, sent, sent_all, sent_some, sendfile_failed, SendfileResult, PreadResult, pread_failed,
  pread_got,
}

abbrev pub Links : Type 0
Links = Bool × Option ℕ × Option ℕ

abbrev pub links : Connection → Links
links c = (c.in_keepalive_list, c.keepalive_prev, c.keepalive_next)

pub links-close_file : (c : Connection) → links (close_file c) ≡ links c
unfolding close_file
links-close_file c = ground arith

pub links-close : (c : Connection) → links (close c) ≡ links c
unfolding close close_file close_socket free_ssl
links-close c = ground arith

pub links-reset : (c : Connection) → links (reset c) ≡ links c
unfolding reset close_file
links-reset c = ground arith

links-after_read : (bs : Bytes) (c : Connection) → links (after_read bs c).0 ≡ links c
unfolding after_read
links-after_read bs c = grind (arith, links-close)

pub links-do_read : (io : Io) (c : Connection) → links (do_read io c).0 ≡ links c
unfolding do_read
links-do_read io c = grind (arith, links-after_read, links-close)

pub links-do_parse : (io : Io) (c : Connection) → links (do_parse io c).0 ≡ links c
unfolding do_parse error_response prepare_headers
links-do_parse io c = ground arith

pub links-do_proto_detect :
    (io : Io) (tls : Bool) (c : Connection) → links (do_proto_detect io tls c).0 ≡ links c
unfolding do_proto_detect error_response prepare_headers
links-do_proto_detect io tls c = ground (arith, links-close c)

pub links-do_tls_accept : (io : Io) (c : Connection) → links (do_tls_accept io c).0 ≡ links c
unfolding do_tls_accept error_response prepare_headers
links-do_tls_accept io c = ground arith

links-after_sendfile :
    (r : SendfileResult) (c : Connection) → links (after_sendfile r c).0 ≡ links c
unfolding after_sendfile
links-after_sendfile (sent_all n) c = grind (arith, links-close_file)
links-after_sendfile (sent_some n) c = refl
links-after_sendfile sendfile_failed c = links-close c

links-do_send_body_plain : (io : Io) (c : Connection) → links (do_send_body_plain io c).0 ≡ links c
unfolding do_send_body_plain
links-do_send_body_plain io c = grind (arith, links-after_sendfile, links-close_file)

links-after_chunk : (p : Pushed) (c : Connection) → links (after_chunk p c).0 ≡ links c
unfolding after_chunk
links-after_chunk (advanced n) c = ground arith
links-after_chunk (wait w) c = refl
links-after_chunk broken c = links-close c

links-after_pread :
    (r : PreadResult) (io : Io) (c : Connection) → links (after_pread r io c).0 ≡ links c
unfolding after_pread
links-after_pread pread_failed io c = links-close c
links-after_pread (pread_got []) io c = links-close c
links-after_pread (pread_got (b ∷ bs)) io c =
    links-after_chunk (push_ssl io.ssl_write_body)
      (record c { chunk_buf = b ∷ bs; chunk_used = length (b ∷ bs); chunk_sent = 0 })

links-do_send_body_tls : (io : Io) (c : Connection) → links (do_send_body_tls io c).0 ≡ links c
unfolding do_send_body_tls
links-do_send_body_tls io c = grind (arith, links-after_chunk, links-after_pread, links-close_file)

links-after_memory : (p : Pushed) (c : Connection) → links (after_memory p c).0 ≡ links c
unfolding after_memory
links-after_memory (advanced n) c = ground arith
links-after_memory (wait w) c = refl
links-after_memory broken c = links-close c

pub links-do_send_body : (io : Io) (c : Connection) → links (do_send_body io c).0 ≡ links c
unfolding do_send_body send_memory
links-do_send_body io c =
    grind (arith, links-after_memory, links-do_send_body_tls, links-do_send_body_plain)

links-after_headers : (io : Io) (c : Connection) → links (after_headers io c).0 ≡ links c
unfolding after_headers
links-after_headers io c = grind (arith, links-do_send_body)

links-after_push : (p : Pushed) (io : Io) (c : Connection) → links (after_push p io c).0 ≡ links c
unfolding after_push
links-after_push (advanced n) io c =
    let bytes = take n (drop c.header_sent c.header_buf) in
    let d : Connection = record (emit (sent bytes ∷ []) c) { header_sent = c.header_sent + n } in
    elim (Bool-cases (leb (length c.header_buf) (c.header_sent + n))) [
      | inl e ↦ rw e (links-after_headers io d)
      | inr e ↦ rw e refl
    ]
links-after_push (wait w) io c = refl
links-after_push broken io c = links-close c

pub links-do_send_headers : (io : Io) (c : Connection) → links (do_send_headers io c).0 ≡ links c
unfolding do_send_headers
links-do_send_headers io c = links-after_push (push c io.write_headers io.ssl_write_headers) io c
