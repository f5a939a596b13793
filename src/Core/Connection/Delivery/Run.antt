-- ===== src/Core/Connection/Delivery/Run.antt =====
-- Delivery over any sequence of events.
use file_web_server.Base.{
  ℕ, ◌+◌, true, false, ◌||◌, [], ◌∷◌, ◌++◌, some, is_some, ◌≡◌, ◌≢◌, ◌⊎◌, refl, sym, ap, ◌∙◌, inl,
  inr, arith, leb, length, take, drop, Bytes, Bool-cases, Option-cases, drop_all,
}
use file_web_server.Core.Io.{Io, sent}
use file_web_server.Core.Connection.{
  Connection, closed, parsing, sending_headers, sending_body, emit,
}
use file_web_server.Core.Connection.Sending.{
  Pushed, advanced, wait, broken, after_push, do_send_body, after_headers, do_send_headers,
}
use file_web_server.Http.Response.{has_body}
use file_web_server.Core.Connection.Delivery.Memory.{send_memory-total}
use file_web_server.Core.Connection.Delivery.Plain.{do_send_body_plain-total}
use file_web_server.Core.Connection.Delivery.Tls.{do_send_body_tls-total}
use file_web_server.Core.Connection.Delivery.{
  wire, in_memory, rest, total, chunk_split, is_bodyless, behind_headers, FileOk, close-closed,
  wire-emit, total-eq,
}

-- Where the body is sent there is one: in memory, or as a file.
abbrev pub HasPayload : Connection → Type 0
HasPayload c = (has_body c.response || is_some c.file_fd) ≡ true

module _ (content : Bytes) where
  file_of : (c : Connection) → HasPayload c → in_memory c ≡ false → (f : ℕ) × (c.file_fd ≡ some f)
  file_of c p m = elim (Option-cases c.file_fd) [
    | inl e ↦ absurd (ground arith)
    | inr found ↦ found
  ]

  pub do_send_body-total :
      (io : Io) (c : Connection)
      → c.state ≡ sending_body
      → HasPayload c
      → FileOk content io c.send_offset c.send_remaining
      → (do_send_body io c).0.state ≢ closed
      → total content (do_send_body io c).0 ≡ total content c
  unfolding do_send_body
  do_send_body-total io c s p ok h = elim (Bool-cases (in_memory c)) [
    | inl m ↦ rw m (send_memory-total content io c s m (rw m at h))
    | inr m ↦ elim (Bool-cases (is_some c.ssl)) [
      | inl t ↦
          let h' = rw m at h in
          rw m (rw t (do_send_body_tls-total content io c s m t ok (rw t at h')))
      | inr t ↦
          let (f, e) = file_of c p m in
          let h' = rw m at h in
          rw m (rw t (do_send_body_plain-total content io c f s e t ok (rw t at h')))
    ]
  ]

  rest-headers :
      (c : Connection)
      → (c.state ≡ sending_headers) ⊎ (c.state ≡ parsing)
      → rest content c.state c ≡ drop c.header_sent c.header_buf ++ behind_headers content c
  rest-headers c (inl s) = ap (λ z. rest content z c) s
  rest-headers c (inr s) = ap (λ z. rest content z c) s

  after_headers-total :
      (io : Io) (c : Connection)
      → FileOk content io c.send_offset c.send_remaining
      → (after_headers io c).0.state ≢ closed
      → total content (after_headers io c).0 ≡ wire content c.effects ++ behind_headers content c
  unfolding after_headers
  after_headers-total io c ok h = elim (Bool-cases (is_bodyless c)) [
    | inl none_left ↦ rw none_left
    | inr left ↦
        let body : Connection = record c { state = sending_body } in
        rw left (do_send_body-total io body refl (ground arith) ok (rw left at h))
  ]

  after_push-total :
      (p : Pushed) (io : Io) (c : Connection)
      → (c.state ≡ sending_headers) ⊎ (c.state ≡ parsing)
      → FileOk content io c.send_offset c.send_remaining
      → (after_push p io c).0.state ≢ closed
      → total content (after_push p io c).0 ≡ total content c
  unfolding after_push
  after_push-total (advanced n) io c s ok h =
      let bytes = take n (drop c.header_sent c.header_buf) in
      let moved : Connection = record (emit (sent bytes ∷ []) c) {
        header_sent = c.header_sent + n;
      } in
      let behind = behind_headers content c in
      let split =
        wire-emit content c bytes (drop (c.header_sent + n) c.header_buf ++ behind)
        ∙ ap (λ z. wire content c.effects ++ z) (chunk_split c.header_sent n c.header_buf behind)
        ∙ sym (total-eq content c (rest-headers c s)) in
      elim (Bool-cases (leb (length c.header_buf) (c.header_sent + n))) [
        | inl done ↦ rw done (
            after_headers-total io moved ok (rw done at h)
            ∙ ap (λ z. wire content moved.effects ++ (z ++ behind))
                (sym (drop_all (c.header_sent + n) c.header_buf (ground arith)))
            ∙ split)
        | inr more ↦ rw more (total-eq content moved (rest-headers moved s) ∙ split)
      ]
  after_push-total (wait w) io c s ok h = refl
  after_push-total broken io c s ok h = absurd (h (close-closed c))

  pub do_send_headers-total :
      (io : Io) (c : Connection)
      → (c.state ≡ sending_headers) ⊎ (c.state ≡ parsing)
      → FileOk content io c.send_offset c.send_remaining
      → (do_send_headers io c).0.state ≢ closed
      → total content (do_send_headers io c).0 ≡ total content c
  unfolding do_send_headers
  do_send_headers-total io c s ok h = after_push-total _ io c s ok h
