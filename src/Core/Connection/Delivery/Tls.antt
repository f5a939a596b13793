-- ===== src/Core/Connection/Delivery/Tls.antt =====
-- Delivery of a file over TLS: chunks read by pread and written by SSL_write.
use file_web_server.Base.{
  take_all, length-drop, length-take, ℕ, ◌+◌, ◌≤◌, true, false, [], ◌∷◌, ◌++◌, is_some, ◌≡◌, ◌≢◌,
  refl, sym, ap, ◌∙◌, inl, inr, arith, leb, length, take, drop, Bytes, Bool-cases,
}
use file_web_server.Base.Int.{pos, neg_part, ◌+ℤ◌, ◌-ℤ◌, leb_ℤ}
use file_web_server.Core.Io.{Io, sent, PreadResult, pread_got, pread_failed}
use file_web_server.Core.Connection.{Connection, closed, sending_body, emit}
use file_web_server.Core.Connection.Sending.{
  Pushed, advanced, wait, broken, after_chunk, after_pread, do_send_body_tls, push_ssl,
}
use file_web_server.Core.Connection.Delivery.{
  wire, in_memory, chunks_rest, rest, total, slice, slice_step, chunk_split, PreadFits, FileOk,
  close-closed, wire-emit, total-eq, finish_body-total, slice_done,
}

module _ (content : Bytes) where
  rest-tls :
      (c : Connection)
      → c.state ≡ sending_body
      → in_memory c ≡ false
      → is_some c.ssl ≡ true
      → rest content c.state c ≡ chunks_rest content c
  rest-tls c s m t = ap (λ z. rest content z c) s ∙ rw m (rw t)

  rest-between :
      (c : Connection)
      → c.state ≡ sending_body
      → in_memory c ≡ false
      → is_some c.ssl ≡ true
      → leb c.chunk_used c.chunk_sent ≡ true
      → rest content c.state c ≡ slice content c.send_offset c.send_remaining
  rest-between c s m t u = rest-tls c s m t ∙ rw u

  rest-within :
      (c : Connection)
      → c.state ≡ sending_body
      → in_memory c ≡ false
      → is_some c.ssl ≡ true
      → leb c.chunk_used c.chunk_sent ≡ false
      → rest content c.state c
        ≡ drop c.chunk_sent (take c.chunk_used c.chunk_buf)
          ++ slice content
              (c.send_offset +ℤ pos c.chunk_used)
              (c.send_remaining -ℤ pos c.chunk_used)
  rest-within c s m t u = rest-tls c s m t ∙ rw u

  chunk_taken :
      (used sent_so_far n : ℕ) (buf : Bytes)
      → used ≤ sent_so_far + n
      → take n (drop sent_so_far (take used buf)) ≡ drop sent_so_far (take used buf)
  chunk_taken used k n buf h =
      take_all n (drop k (take used buf))
        (omega (arith, length-drop k (take used buf), length-take used buf))

  -- SSL_write of the rest of a chunk that is not sent.
  after_chunk-total :
      (p : Pushed) (c : Connection)
      → c.state ≡ sending_body
      → in_memory c ≡ false
      → is_some c.ssl ≡ true
      → leb c.chunk_used c.chunk_sent ≡ false
      → (after_chunk p c).0.state ≢ closed
      → total content (after_chunk p c).0 ≡ total content c
  unfolding after_chunk
  after_chunk-total (advanced n) c s m t u h =
      let chunk = take c.chunk_used c.chunk_buf in
      let behind =
        slice content (c.send_offset +ℤ pos c.chunk_used) (c.send_remaining -ℤ pos c.chunk_used) in
      let bytes = take n (drop c.chunk_sent chunk) in
      let after = sym (total-eq content c (rest-within c s m t u)) in
      elim (Bool-cases (leb c.chunk_used (c.chunk_sent + n))) [
        | inl done ↦
            let moved : Connection = record (emit (sent bytes ∷ []) c) {
              chunk_sent = c.chunk_sent + n;
              send_offset = c.send_offset +ℤ pos c.chunk_used;
              send_remaining = c.send_remaining -ℤ pos c.chunk_used;
            } in
            rw done (
              total-eq content moved (rest-between moved s m t done)
              ∙ wire-emit content c bytes behind
              ∙ ap (λ z. wire content c.effects ++ (z ++ behind))
                  (chunk_taken c.chunk_used c.chunk_sent n c.chunk_buf (ground arith))
              ∙ after)
        | inr more ↦
            let moved : Connection = record (emit (sent bytes ∷ []) c) {
              chunk_sent = c.chunk_sent + n;
            } in
            rw more (
              total-eq content moved (rest-within moved s m t more)
              ∙ wire-emit content c bytes (drop (c.chunk_sent + n) chunk ++ behind)
              ∙ ap (λ z. wire content c.effects ++ z) (chunk_split c.chunk_sent n chunk behind)
              ∙ after)
      ]
  after_chunk-total (wait w) c s m t u h = refl
  after_chunk-total broken c s m t u h = absurd (h (close-closed c))

  -- A new chunk is the first part of what is left of the file.
  loaded-total :
      (b : ℕ) (bs : Bytes) (c : Connection)
      → c.state ≡ sending_body
      → in_memory c ≡ false
      → is_some c.ssl ≡ true
      → leb c.chunk_used c.chunk_sent ≡ true
      → neg_part c.send_offset ≡ 0
      → PreadFits content (pread_got (b ∷ bs)) c.send_offset c.send_remaining
      → total content
          (record c { chunk_buf = b ∷ bs; chunk_used = length (b ∷ bs); chunk_sent = 0 })
        ≡ total content c
  loaded-total b bs c s m t u o (is_slice, fits) =
      let n = length (b ∷ bs) in
      let loaded : Connection = record c { chunk_buf = b ∷ bs; chunk_used = n; chunk_sent = 0 } in
      let behind = slice content (c.send_offset +ℤ pos n) (c.send_remaining -ℤ pos n) in
      total-eq content loaded (rest-within loaded s m t (ground arith))
      ∙ ap (λ z. wire content c.effects ++ (z ++ behind))
          (take_all n (b ∷ bs) (omega arith) ∙ is_slice)
      ∙ ap (λ z. wire content c.effects ++ z)
          (slice_step content c.send_offset c.send_remaining n o fits)
      ∙ sym (total-eq content c (rest-between c s m t u))

  after_pread-total :
      (r : PreadResult) (io : Io) (c : Connection)
      → c.state ≡ sending_body
      → in_memory c ≡ false
      → is_some c.ssl ≡ true
      → leb c.chunk_used c.chunk_sent ≡ true
      → neg_part c.send_offset ≡ 0
      → PreadFits content r c.send_offset c.send_remaining
      → (after_pread r io c).0.state ≢ closed
      → total content (after_pread r io c).0 ≡ total content c
  unfolding after_pread
  after_pread-total (pread_got (b ∷ bs)) io c s m t u o fits h =
      after_chunk-total (push_ssl io.ssl_write_body)
        (record c { chunk_buf = b ∷ bs; chunk_used = length (b ∷ bs); chunk_sent = 0 }) s m t
        (ground arith) h
      ∙ loaded-total b bs c s m t u o fits
  after_pread-total (pread_got []) io c s m t u o fits h = absurd (h (close-closed c))
  after_pread-total pread_failed io c s m t u o fits h = absurd (h (close-closed c))

  pub do_send_body_tls-total :
      (io : Io) (c : Connection)
      → c.state ≡ sending_body
      → in_memory c ≡ false
      → is_some c.ssl ≡ true
      → FileOk content io c.send_offset c.send_remaining
      → (do_send_body_tls io c).0.state ≢ closed
      → total content (do_send_body_tls io c).0 ≡ total content c
  unfolding do_send_body_tls
  do_send_body_tls-total io c s m t ok h = elim (Bool-cases (leb c.chunk_used c.chunk_sent)) [
    | inr within ↦ rw within (after_chunk-total _ c s m t within (rw within at h))
    | inl between ↦ elim (Bool-cases (leb_ℤ c.send_remaining (pos 0))) [
      | inl done ↦ rw between (
          rw done (
            finish_body-total content c
            ∙ ap (λ z. wire content c.effects ++ z)
                (sym (slice_done content c.send_offset c.send_remaining done))
            ∙ sym (total-eq content c (rest-between c s m t between))))
      | inr more ↦
          let h' = rw between at h in
          rw between (
            rw more (
              after_pread-total io.pread io c s m t between ok.offset ok.pread_fits
                (rw more at h')))
    ]
  ]
