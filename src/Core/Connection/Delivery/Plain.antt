-- ===== src/Core/Connection/Delivery/Plain.antt =====
-- Delivery of a file by sendfile.
use file_web_server.Base.{
  ℕ, false, [], ◌++◌, append-nil, some, is_some, ◌≡◌, ◌≢◌, sym, ap, ◌∙◌, inl, inr, take, drop,
  Bytes, Bool-cases,
}
use file_web_server.Base.Int.{pos, pos_part, neg_part, ◌+ℤ◌, ◌-ℤ◌, leb_ℤ}
use file_web_server.Core.Io.{Io, SendfileResult, sent_all, sent_some, sendfile_failed}
use file_web_server.Core.Connection.{Connection, closed, sending_body, emit}
use file_web_server.Core.Connection.Sending.{file_effect, after_sendfile, do_send_body_plain}
use file_web_server.Core.Connection.Delivery.{
  wire, in_memory, rest, total, slice, slice_step, SendfileFits, FileOk, close-closed, total-eq,
  wire-file, finish_body-total, slice_done,
}

module _ (content : Bytes) where
  -- A file in one piece.
  pub rest-plain :
      (c : Connection)
      → c.state ≡ sending_body
      → in_memory c ≡ false
      → is_some c.ssl ≡ false
      → rest content c.state c ≡ slice content c.send_offset c.send_remaining
  rest-plain c s m t = ap (λ z. rest content z c) s ∙ rw m (rw t)

  pub after_sendfile-total :
      (r : SendfileResult) (c : Connection) (f : ℕ)
      → c.state ≡ sending_body
      → c.file_fd ≡ some f
      → is_some c.ssl ≡ false
      → neg_part c.send_offset ≡ 0
      → SendfileFits r c.send_remaining
      → (after_sendfile r c).0.state ≢ closed
      → total content (after_sendfile r c).0 ≡ total content c
  unfolding after_sendfile
  after_sendfile-total (sent_all n) c f s e t o fits h =
      finish_body-total content (record (emit (file_effect c n) c) { send_remaining = pos 0 })
      ∙ wire-file content c f n [] e
      ∙ ap (λ z. wire content c.effects ++ z)
          (append-nil _
            ∙ ap (λ z. take (pos_part z) (drop (pos_part c.send_offset) content)) (sym fits))
      ∙ sym (total-eq content c (rest-plain c s (rw e) t))
  after_sendfile-total (sent_some n) c f s e t o fits h =
      let moved : Connection = record (emit (file_effect c n) c) {
        send_offset = c.send_offset +ℤ pos n;
        send_remaining = c.send_remaining -ℤ pos n;
      } in
      total-eq content moved (rest-plain moved s (rw e) t)
      ∙ wire-file content c f n (slice content moved.send_offset moved.send_remaining) e
      ∙ ap (λ z. wire content c.effects ++ z)
          (slice_step content c.send_offset c.send_remaining n o fits)
      ∙ sym (total-eq content c (rest-plain c s (rw e) t))
  after_sendfile-total sendfile_failed c f s e t o fits h = absurd (h (close-closed c))

  pub do_send_body_plain-total :
      (io : Io) (c : Connection) (f : ℕ)
      → c.state ≡ sending_body
      → c.file_fd ≡ some f
      → is_some c.ssl ≡ false
      → FileOk content io c.send_offset c.send_remaining
      → (do_send_body_plain io c).0.state ≢ closed
      → total content (do_send_body_plain io c).0 ≡ total content c
  unfolding do_send_body_plain
  do_send_body_plain-total io c f s e t ok h = elim (Bool-cases (leb_ℤ c.send_remaining (pos 0))) [
    | inl done ↦ rw done (
        finish_body-total content c
        ∙ ap (λ z. wire content c.effects ++ z)
            (sym (slice_done content c.send_offset c.send_remaining done))
        ∙ sym (total-eq content c (rest-plain c s (rw e) t)))
    | inr more ↦
        rw more
          (after_sendfile-total io.sendfile c f s e t ok.offset ok.sendfile_fits (rw more at h))
  ]
