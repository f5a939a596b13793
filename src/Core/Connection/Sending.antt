-- ===== src/Core/Connection/Sending.antt =====
-- Sending a response: headers, then a body held in memory or a file.
use file_web_server.Base.{
  ℕ, suc, ◌+◌, Bool, false, not, ◌&&◌, ◌||◌, List, [], ◌∷◌, none, some, is_some, leb, if◌then◌else◌,
  length, take, drop, Bytes,
}
use file_web_server.Base.Int.{ℤ, pos, ◌+ℤ◌, ◌-ℤ◌, leb_ℤ}
use file_web_server.Core.Io.{
  Io, again, other, want_read, want_write, fatal, WriteResult, wrote, write_failed, SslWriteResult,
  SendfileResult, PreadResult, ssl_wrote_suc, ssl_write_failed, sent_all, sent_some,
  sendfile_failed, pread_got, pread_failed, Effect, sent, sent_file,
}
use file_web_server.Core.Connection.{
  Connection, Want, nothing, read, write, keep_alive, sending_body, close, close_file, emit,
}
use file_web_server.Http.Response.{
  Status, build_headers, has_body, set_status, set_body, set_keep_alive, set_content_type,
  set_content_length,
}
use file_web_server.Base.{codes}

unfoldable pub prepare_headers : Io → Connection → Connection
prepare_headers io c = record c {
  header_buf = build_headers io.gmtime io.time c.response;
  header_sent = 0;
}

-- The response that the error branches set up: an HTML page, and no keep-alive.
unfoldable pub error_response : Io → Status → Bytes → Connection → Connection
unfolding prepare_headers
error_response io status body c = prepare_headers io (record c {
  response = set_content_length (length body) (
      set_content_type (codes "text/html; charset=utf-8")
        (set_keep_alive false (set_body body (set_status status c.response))));
})

-- One call of write or SSL_write: it took bytes, the loop has to wait, or the connection is broken.
pub data Pushed : Type 0 where
  advanced : ℕ → Pushed
  wait : Want → Pushed
  broken : Pushed

unfoldable pub push_ssl : SslWriteResult → Pushed
push_ssl (ssl_wrote_suc n) = advanced (suc n)
push_ssl (ssl_write_failed want_write) = wait write
push_ssl (ssl_write_failed want_read) = wait read
push_ssl (ssl_write_failed fatal) = broken

unfoldable pub push_plain : WriteResult → Pushed
push_plain (wrote n) = advanced n
push_plain (write_failed again) = wait write
push_plain (write_failed other) = broken

unfoldable pub push : Connection → WriteResult → SslWriteResult → Pushed
unfolding push_ssl push_plain
push c plain ssl = if is_some c.ssl then push_ssl ssl else push_plain plain

-- state_ = KEEP_ALIVE, the file closed, and Want::READ
abbrev pub finish_body : Connection → Connection × Want
finish_body c = (close_file (record c { state = keep_alive }), read)

abbrev pub file_effect : Connection → ℕ → List Effect
file_effect c n = elim c.file_fd [ none ↦ [] | some f ↦ sent_file f c.send_offset n ∷ [] ]

-- What follows the call of sendfile.
unfoldable pub after_sendfile : SendfileResult → Connection → Connection × Want
after_sendfile (sent_all n) c =
    finish_body (record (emit (file_effect c n) c) { send_remaining = pos 0 })
after_sendfile (sent_some n) c = (
  record (emit (file_effect c n) c) {
    send_offset = c.send_offset +ℤ pos n;
    send_remaining = c.send_remaining -ℤ pos n;
  },
  write,
)
after_sendfile sendfile_failed c = (close c, nothing)

unfoldable pub do_send_body_plain : Io → Connection → Connection × Want
unfolding after_sendfile
do_send_body_plain io c =
    if leb_ℤ c.send_remaining (pos 0) then finish_body c else after_sendfile io.sendfile c

-- CHUNK_SIZE
abbrev pub chunk_size : ℕ
chunk_size = 65536

-- What follows SSL_write of what is left of the chunk.
unfoldable pub after_chunk : Pushed → Connection → Connection × Want
after_chunk (advanced n) c =
    let bytes = take n (drop c.chunk_sent (take c.chunk_used c.chunk_buf)) in
    (
      if leb c.chunk_used (c.chunk_sent + n)
          then record (emit (sent bytes ∷ []) c) {
            chunk_sent = c.chunk_sent + n;
            send_offset = c.send_offset +ℤ pos c.chunk_used;
            send_remaining = c.send_remaining -ℤ pos c.chunk_used;
          }
          else record (emit (sent bytes ∷ []) c) { chunk_sent = c.chunk_sent + n },
      write,
    )
after_chunk (wait w) c = (c, w)
after_chunk broken c = (close c, nothing)

-- pread of the next chunk, and the first SSL_write of it. The buffer is as long as the call asks
-- for; what pread did not fill is never read, and is left out.
unfoldable pub after_pread : PreadResult → Io → Connection → Connection × Want
unfolding after_chunk
after_pread pread_failed io c = (close c, nothing)
after_pread (pread_got []) io c = (close c, nothing)
after_pread (pread_got (b ∷ bs)) io c =
    after_chunk (push_ssl io.ssl_write_body)
      (record c { chunk_buf = b ∷ bs; chunk_used = length (b ∷ bs); chunk_sent = 0 })

unfoldable pub do_send_body_tls : Io → Connection → Connection × Want
unfolding after_chunk after_pread
do_send_body_tls io c =
    if leb c.chunk_used c.chunk_sent
    then if leb_ℤ c.send_remaining (pos 0) then finish_body c else after_pread io.pread io c
    else after_chunk (push_ssl io.ssl_write_body) c

-- What follows a write of the body held in memory.
unfoldable pub after_memory : Pushed → Connection → Connection × Want
after_memory (advanced n) c =
    let bytes = take n (drop c.body_sent c.response.body) in
    if leb (length c.response.body) (c.body_sent + n)
    then (
      record (emit (sent bytes ∷ []) c) { body_sent = c.body_sent + n; state = keep_alive },
      read,
    )
    else (record (emit (sent bytes ∷ []) c) { body_sent = c.body_sent + n }, write)
after_memory (wait w) c = (c, w)
after_memory broken c = (close c, nothing)

unfoldable pub send_memory : Io → Connection → Connection × Want
unfolding after_memory push
send_memory io c =
    if leb (length c.response.body) c.body_sent
    then (record c { state = keep_alive }, read)
    else after_memory (push c io.write_body io.ssl_write_body) c

unfoldable pub do_send_body : Io → Connection → Connection × Want
unfolding send_memory do_send_body_tls do_send_body_plain
do_send_body io c =
    if not (is_some c.file_fd) && has_body c.response
    then send_memory io c
    else if is_some c.ssl
    then do_send_body_tls io c
    else do_send_body_plain io c

-- What follows the last byte of the headers.
unfoldable pub after_headers : Io → Connection → Connection × Want
after_headers io c =
    if c.is_head || (not (has_body c.response) && not (is_some c.file_fd))
    then (record c { state = keep_alive }, read)
    else do_send_body io (record c { state = sending_body })

-- What follows a write of the headers.
unfoldable pub after_push : Pushed → Io → Connection → Connection × Want
unfolding after_headers
after_push (advanced n) io c =
    let bytes = take n (drop c.header_sent c.header_buf) in
    let d : Connection = record (emit (sent bytes ∷ []) c) { header_sent = c.header_sent + n } in
    if leb (length c.header_buf) (c.header_sent + n) then after_headers io d else (d, write)
after_push (wait w) io c = (c, w)
after_push broken io c = (close c, nothing)

unfoldable pub do_send_headers : Io → Connection → Connection × Want
unfolding after_push push
do_send_headers io c = after_push (push c io.write_headers io.ssl_write_headers) io c

unfoldable pub set_send_file : ℕ → ℤ → ℤ → ℤ → Bool → Connection → Connection
set_send_file fd size start end is_head c = record c {
  file_fd = some fd;
  file_size = size;
  send_offset = start;
  send_remaining = if leb_ℤ start end then end -ℤ start +ℤ pos 1 else pos 0;
  is_head = is_head;
}
