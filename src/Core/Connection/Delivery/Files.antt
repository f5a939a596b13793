-- ===== src/Core/Connection/Delivery/Files.antt =====
-- Progress of a response with a file, at one event.
use file_web_server.Base.{
  ℕ, suc, true, ◌+◌, ◌≤◌, ◌<◌, [], ◌∷◌, Bytes, ◌≡◌, refl, inl, inr, arith, leb, length, take, drop,
  is_some, Bool-cases,
}
use file_web_server.Core.Io.{Io, sent}
use file_web_server.Core.Connection.{Connection, State, emit, sending_headers, sending_body}
use file_web_server.Core.Connection.Sending.{
  after_headers, after_push, do_send_body, do_send_headers,
}
use file_web_server.Core.Connection.Delivery.Progress.{push-takes}
use file_web_server.Core.Connection.Delivery.Whole.{resume}
use file_web_server.Core.Connection.Delivery.{is_bodyless}
use file_web_server.Core.Connection.Delivery.Chunks.{do_send_body_tls-FileMoves}
use file_web_server.Core.Connection.Delivery.Flow.{
  Answers, FileAt, FileMoves, at_most, do_send_body_plain-FileMoves, file_left, unsent,
}

do_send_body-FileMoves :
    (content : Bytes) (io : Io) (c : Connection)
    → Answers content io c.send_offset c.send_remaining
    → c.state ≡ sending_body
    → is_some c.file_fd ≡ true
    → (n : ℕ) → file_left sending_body c ≤ n
    → FileMoves n (do_send_body io c).0
unfolding do_send_body
do_send_body-FileMoves content io c a s f n h = elim (Bool-cases (is_some c.ssl)) [
  | inl t ↦ rw f (rw t (do_send_body_tls-FileMoves content io c a s f t n h))
  | inr t ↦ rw f (rw t (at_most _ h (do_send_body_plain-FileMoves content io c a s f t)))
]

after_headers-FileMoves :
    (content : Bytes) (io : Io) (c : Connection) (n : ℕ)
    → Answers content io c.send_offset c.send_remaining
    → is_some c.file_fd ≡ true
    → unsent c + 1 < n
    → FileMoves n (after_headers io c).0
unfolding after_headers
after_headers-FileMoves content io c n a f h = elim (Bool-cases (is_bodyless c)) [
  | inl e ↦ rw e (inl refl)
  | inr e ↦ rw e (
      do_send_body-FileMoves content io (record c { state = sending_body }) a refl f n
        (omega arith))
]

do_send_headers-FileMoves :
    (content : Bytes) (io : Io) (c : Connection)
    → Answers content io c.send_offset c.send_remaining
    → c.state ≡ sending_headers
    → is_some c.file_fd ≡ true
    → FileMoves (file_left sending_headers c) (do_send_headers io c).0
unfolding do_send_headers after_push
do_send_headers-FileMoves content io c a s f =
    let (n, e) =
      push-takes c io.write_headers io.ssl_write_headers a.takes.headers a.takes.ssl_headers in
    let bytes = take (suc n) (drop c.header_sent c.header_buf) in
    let moved : Connection = record (emit (sent bytes ∷ []) c) {
      header_sent = c.header_sent + suc n;
    } in
    elim (Bool-cases (leb (length c.header_buf) (c.header_sent + suc n))) [
      | inl done ↦
          rw (e, done)
            (after_headers-FileMoves content io moved (file_left sending_headers c) a f
              (omega arith))
      | inr more ↦ rw (e, more) (inr ((f, inl s), rw s (ground arith)))
    ]

-- One event of a connection with a file: it ends the response, or leaves less of it.
pub resume-FileMoves :
    (content : Bytes) (s : State) (io : Io) (c : Connection)
    → Answers content io c.send_offset c.send_remaining
    → c.state ≡ s
    → FileAt s c
    → FileMoves (file_left s c) (resume s io c)
unfolding resume
resume-FileMoves content sending_headers io c a s p = do_send_headers-FileMoves content io c a s p.0
resume-FileMoves content sending_body io c a s p =
    do_send_body-FileMoves content io c a s p.0 _ (omega arith)
resume-FileMoves content _ io c a s p = absurd (ground arith)
