-- ===== src/Core/Connection/Delivery/Chunks.antt =====
-- Progress of a file over TLS, by chunks.
use file_web_server.Base.{
  ℕ, suc, true, false, ◌+◌, ◌≤◌, [], ◌∷◌, Bytes, ◌≡◌, inl, inr, arith, leb, length, is_some,
  Bool-cases,
}
use file_web_server.Base.Int.{pos, leb_ℤ, ◌-ℤ◌, ◌≤ℤ◌}
use file_web_server.Core.Io.{Io, PreadResult, pread_got, pread_failed}
use file_web_server.Core.Connection.{Connection, sending_body}
use file_web_server.Core.Connection.Sending.{
  advanced, after_chunk, after_pread, do_send_body_tls, push_ssl,
}
use file_web_server.Core.Connection.Delivery.Progress.{Takes}
use file_web_server.Core.Connection.Delivery.{PreadFits}
use file_web_server.Core.Connection.Delivery.Flow.{
  Answers, FileMoves, PreadFlows, at_most, file_left, finish_body-FileMoves, unsent,
}

-- SSL_write of a byte or more of a chunk.
after_chunk-FileMoves :
    (n : ℕ) (c : Connection)
    → c.state ≡ sending_body
    → is_some c.file_fd ≡ true
    → is_some c.ssl ≡ true
    → leb c.chunk_used c.chunk_sent ≡ false
    → FileMoves (file_left sending_body c) (after_chunk (advanced (suc n)) c).0
unfolding after_chunk ◌-ℤ◌
after_chunk-FileMoves n c s f t u = elim (Bool-cases (leb c.chunk_used (c.chunk_sent + suc n))) [
  | inl e ↦ rw e (inr ((f, inr s), rw (s, t) (rw (u, e) (ground arith))))
  | inr e ↦ rw e (inr ((f, inr s), rw (s, t) (rw (u, e) (ground arith))))
]

-- A new chunk is no longer than what is left of the file.
loaded-unsent :
    (bs : Bytes) (c : Connection)
    → is_some c.ssl ≡ true
    → leb c.chunk_used c.chunk_sent ≡ true
    → pos (length bs) ≤ℤ c.send_remaining
    → unsent (record c { chunk_buf = bs; chunk_used = length bs; chunk_sent = 0 }) ≡ unsent c
loaded-unsent bs c t u h = rw (t, u) (ground arith)

after_pread-FileMoves :
    (content : Bytes) (r : PreadResult) (io : Io) (c : Connection)
    → Takes io
    → PreadFlows r
    → PreadFits content r c.send_offset c.send_remaining
    → c.state ≡ sending_body
    → is_some c.file_fd ≡ true
    → is_some c.ssl ≡ true
    → leb c.chunk_used c.chunk_sent ≡ true
    → FileMoves (file_left sending_body c) (after_pread r io c).0
unfolding after_pread push_ssl
after_pread-FileMoves content (pread_got []) io c w flows fits s f t u = absurd (omega arith)
after_pread-FileMoves content (pread_got (b ∷ bs)) io c w flows fits s f t u =
    let loaded : Connection = record c {
      chunk_buf = b ∷ bs;
      chunk_used = length (b ∷ bs);
      chunk_sent = 0;
    } in
    let same = loaded-unsent (b ∷ bs) c t u fits.1 in
    let (n, e) = w.ssl_body in
    rw e (elim (after_chunk-FileMoves n loaded s f t (ground arith)) [
      | inl k ↦ inl k
      | inr (p, k) ↦ inr (p, rw same at k)
    ])
after_pread-FileMoves content pread_failed io c w flows fits s f t u = absurd flows

pub do_send_body_tls-FileMoves :
    (content : Bytes) (io : Io) (c : Connection)
    → Answers content io c.send_offset c.send_remaining
    → c.state ≡ sending_body
    → is_some c.file_fd ≡ true
    → is_some c.ssl ≡ true
    → (n : ℕ) → file_left sending_body c ≤ n
    → FileMoves n (do_send_body_tls io c).0
unfolding do_send_body_tls push_ssl
do_send_body_tls-FileMoves content io c a s f t m h =
    elim (Bool-cases (leb c.chunk_used c.chunk_sent)) [
      | inr within ↦
          let (n, e) = a.takes.ssl_body in
          rw within (rw e (at_most _ h (after_chunk-FileMoves n c s f t within)))
      | inl between ↦ elim (Bool-cases (leb_ℤ c.send_remaining (pos 0))) [
        | inl done ↦ rw between (rw done (finish_body-FileMoves _ c))
        | inr more ↦ rw between (
            rw more (
              at_most _ h (
                after_pread-FileMoves content io.pread io c a.takes (a.pread_flows more)
                  a.fits.pread_fits s f t between)))
      ]
    ]
