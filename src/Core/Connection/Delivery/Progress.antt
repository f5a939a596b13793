-- ===== src/Core/Connection/Delivery/Progress.antt =====
-- Progress of a page that is held in memory, over plain TCP or TLS.
use file_web_server.Base.{
  ℕ, suc, true, false, ◌+◌, ◌-◌, ◌≤◌, ◌<◌, List, [], ◌∷◌, none, ◌≡◌, ◌⊎◌, ◌∙◌, refl, ap, inl, inr,
  arith, leb, length, take, drop, All, is_some, Bool-cases,
}
use file_web_server.Core.Io.{Io, wrote, ssl_wrote_suc, sent, WriteResult, SslWriteResult}
use file_web_server.Core.Connection.{
  Connection, State, emit, keep_alive, sending_headers, sending_body,
}
use file_web_server.Core.Connection.Sending.{
  advanced, after_headers, after_memory, after_push, do_send_body, do_send_headers, push,
  push_plain, push_ssl, send_memory,
}
use file_web_server.Core.Connection.Delivery.Whole.{resume}
use file_web_server.Core.Connection.Delivery.{in_memory, is_bodyless}
use file_web_server.Http.Response.{has_body}

-- Every write takes a byte or more.
pub record Takes (io : Io) : Type 0 where
  pub headers : (n : ℕ) × (io.write_headers ≡ wrote (suc n))
  pub ssl_headers : (n : ℕ) × (io.ssl_write_headers ≡ ssl_wrote_suc n)
  pub body : (n : ℕ) × (io.write_body ≡ wrote (suc n))
  pub ssl_body : (n : ℕ) × (io.ssl_write_body ≡ ssl_wrote_suc n)

-- A response without a file; in SENDING_BODY it has a body.
abbrev pub PageAt : State → Connection → Type 0
PageAt s c =
    (c.file_fd ≡ none)
    × ((s ≡ sending_headers) ⊎ ((s ≡ sending_body) × (has_body c.response ≡ true)))

abbrev pub IsPage : Connection → Type 0
IsPage c = PageAt c.state c

-- A bound on the writable events that are still needed.
abbrev pub left : State → Connection → ℕ
left sending_headers c =
    length c.header_buf - c.header_sent + (length c.response.body - c.body_sent) + 2
left sending_body c = length c.response.body - c.body_sent + 1
left _ c = 0

-- The state machine over any number of writable events.
abbrev pub resumed : List Io → Connection → Connection
resumed [] c = c
resumed (io ∷ ios) c = resumed ios (resume c.state io c)

pub push-takes :
    (c : Connection) (plain : WriteResult) (ssl : SslWriteResult)
    → (n : ℕ) × (plain ≡ wrote (suc n))
    → (n : ℕ) × (ssl ≡ ssl_wrote_suc n)
    → (n : ℕ) × (push c plain ssl ≡ advanced (suc n))
unfolding push push_plain push_ssl
push-takes c plain ssl (n, e) (m, f) = elim (Bool-cases (is_some c.ssl)) [
  | inl t ↦ (m, rw (t, f) refl)
  | inr t ↦ (n, rw (t, e) refl)
]

-- What one event does: it ends the response, or leaves less of it.
abbrev Moves : ℕ → Connection → Type 0
Moves n d = (d.state ≡ keep_alive) ⊎ (IsPage d × (left d.state d < n))

after_memory-Moves :
    (n : ℕ) (c : Connection)
    → c.state ≡ sending_body
    → c.file_fd ≡ none
    → has_body c.response ≡ true
    → leb (length c.response.body) c.body_sent ≡ false
    → Moves (left sending_body c) (after_memory (advanced (suc n)) c).0
unfolding after_memory
after_memory-Moves n c s f b more =
    elim (Bool-cases (leb (length c.response.body) (c.body_sent + suc n))) [
      | inl e ↦ rw e (inl refl)
      | inr e ↦ rw e (inr ((f, inr (s, b)), rw s (ground arith)))
    ]

do_send_body-Moves :
    (io : Io) (c : Connection)
    → Takes io
    → c.state ≡ sending_body
    → c.file_fd ≡ none
    → has_body c.response ≡ true
    → Moves (left sending_body c) (do_send_body io c).0
unfolding do_send_body send_memory
do_send_body-Moves io c t s f b =
    let (n, e) = push-takes c io.write_body io.ssl_write_body t.body t.ssl_body in
    let m : in_memory c ≡ true = rw (f, b) refl in
    elim (Bool-cases (leb (length c.response.body) c.body_sent)) [
      | inl over ↦ rw (m, over) (inl refl)
      | inr more ↦ rw (m, more, e) (after_memory-Moves n c s f b more)
    ]

after_headers-Moves :
    (io : Io) (c : Connection) (n : ℕ)
    → Takes io
    → c.file_fd ≡ none
    → length c.response.body - c.body_sent + 1 < n
    → Moves n (after_headers io c).0
unfolding after_headers
after_headers-Moves io c n t f h = elim (Bool-cases (is_bodyless c)) [
  | inl e ↦ rw e (inl refl)
  | inr e ↦
      let b : has_body c.response ≡ true = bodied c f e in
      elim (do_send_body-Moves io (record c { state = sending_body }) t refl f b) [
        | inl k ↦ rw e (inl k)
        | inr (p, k) ↦ rw e (inr (p, omega arith))
      ]
]
  where
    bodied :
        (c : Connection) → c.file_fd ≡ none → is_bodyless c ≡ false → has_body c.response ≡ true
    bodied c f e = ground arith

do_send_headers-Moves :
    (io : Io) (c : Connection)
    → Takes io
    → c.state ≡ sending_headers
    → c.file_fd ≡ none
    → Moves (left sending_headers c) (do_send_headers io c).0
unfolding do_send_headers after_push
do_send_headers-Moves io c t s f =
    let (n, e) = push-takes c io.write_headers io.ssl_write_headers t.headers t.ssl_headers in
    let bytes = take (suc n) (drop c.header_sent c.header_buf) in
    let moved : Connection = record (emit (sent bytes ∷ []) c) {
      header_sent = c.header_sent + suc n;
    } in
    elim (Bool-cases (leb (length c.header_buf) (c.header_sent + suc n))) [
      | inl done ↦
          rw (e, done) (after_headers-Moves io moved (left sending_headers c) t f (omega arith))
      | inr more ↦ rw (e, more) (inr ((f, inl s), rw s (ground arith)))
    ]

pub resume-Moves :
    (s : State) (io : Io) (c : Connection)
    → Takes io
    → c.state ≡ s
    → PageAt s c
    → Moves (left s c) (resume s io c)
unfolding resume
resume-Moves sending_headers io c t s p = do_send_headers-Moves io c t s p.0
resume-Moves sending_body io c t s (f, inl e) = absurd (ground arith)
resume-Moves sending_body io c t s (f, inr (_, b)) = do_send_body-Moves io c t s f b
resume-Moves _ io c t s p = absurd (ground arith)

left-positive : (s : State) (c : Connection) → PageAt s c → 0 < left s c
left-positive s c (f, inl e) = rw e (omega arith)
left-positive s c (f, inr (e, b)) = rw e (omega arith)

-- After the last byte, further events do nothing.
resumed-done :
    (ios : List Io) (c : Connection) → c.state ≡ keep_alive → (resumed ios c).state ≡ keep_alive
unfolding resume
resumed-done [] c h = h
resumed-done (io ∷ ios) c h =
    let still : resume c.state io c ≡ c = ap (λ s. resume s io c) h in
    ap (λ d. (resumed ios d).state) still ∙ resumed-done ios c h

-- A response without a file, from its headers or within its body, over plain TCP or TLS: if each
-- write takes a byte or more, as many writable events as the bytes that are left, and two more,
-- bring the connection to KEEP_ALIVE.
pub resumed-ends :
    (ios : List Io) (c : Connection)
    → All Takes ios
    → IsPage c
    → left c.state c ≤ length ios
    → (resumed ios c).state ≡ keep_alive
resumed-ends [] c t p h = let more = left-positive c.state c p in absurd (omega arith)
resumed-ends (io ∷ ios) c (t, ts) p h = elim (resume-Moves c.state io c t refl p) [
  | inl k ↦ resumed-done ios (resume c.state io c) k
  | inr (q, k) ↦ resumed-ends ios (resume c.state io c) ts q (omega arith)
]
