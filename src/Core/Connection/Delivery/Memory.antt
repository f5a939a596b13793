-- ===== src/Core/Connection/Delivery/Memory.antt =====
-- Delivery of a body held in memory.
use file_web_server.Base.{
  ◌+◌, true, [], ◌∷◌, ◌++◌, ◌≡◌, ◌≢◌, refl, sym, ap, ◌∙◌, inl, inr, arith, leb, length, take, drop,
  Bytes, Bool-cases, drop_all,
}
use file_web_server.Core.Io.{Io, sent}
use file_web_server.Core.Connection.{Connection, closed, sending_body}
use file_web_server.Core.Connection.Sending.{
  Pushed, advanced, wait, broken, after_memory, send_memory,
}
use file_web_server.Core.Connection.Delivery.{
  wire, in_memory, rest, total, close-closed, wire-take, wire-take_last, total-eq,
}

module _ (content : Bytes) where
  pub rest-memory :
      (c : Connection)
      → c.state ≡ sending_body
      → in_memory c ≡ true
      → rest content c.state c ≡ drop c.body_sent c.response.body
  rest-memory c s m = ap (λ z. rest content z c) s ∙ rw m

  pub after_memory-total :
      (p : Pushed) (c : Connection)
      → c.state ≡ sending_body
      → in_memory c ≡ true
      → (after_memory p c).0.state ≢ closed
      → total content (after_memory p c).0 ≡ total content c
  unfolding after_memory
  after_memory-total (advanced n) c s m h =
      let body = c.response.body in
      let bytes = take n (drop c.body_sent body) in
      let moved : Connection = record c {
        body_sent = c.body_sent + n;
        effects = c.effects ++ sent bytes ∷ [];
      } in
      let before = sym (total-eq content c (rest-memory c s m)) in
      elim (Bool-cases (leb (length body) (c.body_sent + n))) [
        | inl done ↦ rw done (wire-take_last content c n c.body_sent body (ground arith) ∙ before)
        | inr more ↦ rw more (
            total-eq content moved (rest-memory moved s m)
            ∙ wire-take content c n c.body_sent body
            ∙ before)
      ]
  after_memory-total (wait w) c s m h = refl
  after_memory-total broken c s m h = absurd (h (close-closed c))

  pub send_memory-total :
      (io : Io) (c : Connection)
      → c.state ≡ sending_body
      → in_memory c ≡ true
      → (send_memory io c).0.state ≢ closed
      → total content (send_memory io c).0 ≡ total content c
  unfolding send_memory
  send_memory-total io c s m h = elim (Bool-cases (leb (length c.response.body) c.body_sent)) [
    | inl done ↦ rw done (
        ap (λ z. wire content c.effects ++ z)
          (sym (rest-memory c s m ∙ drop_all c.body_sent c.response.body (ground arith))))
    | inr more ↦ rw more (after_memory-total _ c s m (rw more at h))
  ]
