-- ===== src/Core/Connection/States.antt =====
-- The states that a connection goes through as it sends a response.
use file_web_server.Base.{
  ◌+◌, take, drop, leb, Bool-cases, length, [], ◌∷◌, Bool, true, false, ◌≡◌, refl, arith, inl, inr,
}
use file_web_server.Core.Connection.Sending.{
  Pushed, advanced, wait, broken, after_chunk, after_headers, after_memory, after_pread, after_push,
  after_sendfile, do_send_body, do_send_body_plain, do_send_body_tls, do_send_headers, push,
  push_ssl, send_memory,
}
use file_web_server.Core.Connection.Delivery.{close-closed}
use file_web_server.Core.Connection.Sockets.{state-close_file}
use file_web_server.Core.Connection.{
  State, proto_detect, tls_accept, reading, parsing, sending_headers, sending_body, keep_alive,
  closed, Connection, emit, close,
}
use file_web_server.Core.Io.{
  Io, sent, sent_all, sent_some, sendfile_failed, SendfileResult, PreadResult, pread_failed,
  pread_got,
}

abbrev pub same_state : State → State → Bool
same_state closed closed = true
same_state proto_detect proto_detect = true
same_state tls_accept tls_accept = true
same_state reading reading = true
same_state parsing parsing = true
same_state sending_headers sending_headers = true
same_state sending_body sending_body = true
same_state keep_alive keep_alive = true
same_state _ _ = false

pub same_state-same : (s : State) → same_state s s ≡ true
same_state-same closed = refl
same_state-same proto_detect = refl
same_state-same tls_accept = refl
same_state-same reading = refl
same_state-same parsing = refl
same_state-same sending_headers = refl
same_state-same sending_body = refl
same_state-same keep_alive = refl

-- Sending stays in its state, or comes to the body or to the end of the response, or fails.
abbrev pub sends : State → State → Bool
sends s closed = true
sends s sending_body = true
sends s keep_alive = true
sends s t = same_state s t

sends-stays : (s : State) → sends s s ≡ true
sends-stays s = ground arith

sends-close : (c : Connection) → sends c.state (close c).state ≡ true
sends-close c = rw (close-closed c) refl

sends-after_sendfile :
    (r : SendfileResult) (c : Connection) → sends c.state (after_sendfile r c).0.state ≡ true
unfolding after_sendfile
sends-after_sendfile (sent_all n) c = grind (arith, state-close_file)
sends-after_sendfile (sent_some n) c = sends-stays c.state
sends-after_sendfile sendfile_failed c = sends-close c

sends-do_send_body_plain :
    (io : Io) (c : Connection) → sends c.state (do_send_body_plain io c).0.state ≡ true
unfolding do_send_body_plain
sends-do_send_body_plain io c = grind (arith, sends-after_sendfile, state-close_file)

sends-after_chunk : (p : Pushed) (c : Connection) → sends c.state (after_chunk p c).0.state ≡ true
unfolding after_chunk
sends-after_chunk (advanced n) c = ground arith
sends-after_chunk (wait w) c = sends-stays c.state
sends-after_chunk broken c = sends-close c

sends-after_pread :
    (r : PreadResult) (io : Io) (c : Connection) → sends c.state (after_pread r io c).0.state ≡ true
unfolding after_pread
sends-after_pread pread_failed io c = sends-close c
sends-after_pread (pread_got []) io c = sends-close c
sends-after_pread (pread_got (b ∷ bs)) io c =
    sends-after_chunk (push_ssl io.ssl_write_body)
      (record c { chunk_buf = b ∷ bs; chunk_used = length (b ∷ bs); chunk_sent = 0 })

sends-do_send_body_tls :
    (io : Io) (c : Connection) → sends c.state (do_send_body_tls io c).0.state ≡ true
unfolding do_send_body_tls
sends-do_send_body_tls io c = grind (arith, sends-after_chunk, sends-after_pread, state-close_file)

sends-after_memory : (p : Pushed) (c : Connection) → sends c.state (after_memory p c).0.state ≡ true
unfolding after_memory
sends-after_memory (advanced n) c = ground arith
sends-after_memory (wait w) c = sends-stays c.state
sends-after_memory broken c = sends-close c

pub sends-do_send_body :
    (io : Io) (c : Connection) → sends c.state (do_send_body io c).0.state ≡ true
unfolding do_send_body send_memory
sends-do_send_body io c =
    grind (arith, sends-after_memory, sends-do_send_body_tls, sends-do_send_body_plain)

sends-after_headers : (io : Io) (c : Connection) → sends c.state (after_headers io c).0.state ≡ true
unfolding after_headers
sends-after_headers io c = grind (arith, sends-do_send_body)

sends-after_push :
    (p : Pushed) (io : Io) (c : Connection) → sends c.state (after_push p io c).0.state ≡ true
unfolding after_push
sends-after_push (advanced n) io c =
    let bytes = take n (drop c.header_sent c.header_buf) in
    let d : Connection = record (emit (sent bytes ∷ []) c) { header_sent = c.header_sent + n } in
    elim (Bool-cases (leb (length c.header_buf) (c.header_sent + n))) [
      | inl e ↦ rw e (sends-after_headers io d)
      | inr e ↦ rw e (sends-stays c.state)
    ]
sends-after_push (wait w) io c = sends-stays c.state
sends-after_push broken io c = sends-close c

pub sends-do_send_headers :
    (io : Io) (c : Connection) → sends c.state (do_send_headers io c).0.state ≡ true
unfolding do_send_headers
sends-do_send_headers io c = sends-after_push (push c io.write_headers io.ssl_write_headers) io c
