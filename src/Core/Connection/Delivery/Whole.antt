-- ===== src/Core/Connection/Delivery/Whole.antt =====
-- A response from its first byte to the last, over any number of events: `resume` is what
-- src/core/event_loop.cpp's `switch` calls in the two sending states.
use file_web_server.Base.{
  true, Bool-cases, take, drop, length, leb, ◌+◌, [], ◌∷◌, ◌++◌, append-nil, ◌≡◌, ◌≢◌, ◌⊎◌, refl,
  sym, ap, ◌∙◌, inl, inr, arith, if◌then◌else◌, Bytes,
}
use file_web_server.Base.Int.{pos}
use file_web_server.Core.Connection.Delivery.Run.{
  HasPayload, do_send_body-total, do_send_headers-total,
}
use file_web_server.Core.Connection.Delivery.{
  wire, in_memory, slice, rest, total, is_bodyless, FileOk,
}
use file_web_server.Core.Connection.Sending.{
  Pushed, push, push_ssl, finish_body, file_effect, advanced, wait, broken, after_memory,
  after_sendfile, after_chunk, after_pread, after_push, after_headers, do_send_body,
  do_send_headers,
}
use file_web_server.Core.Connection.{
  Connection, State, closed, keep_alive, parsing, sending_headers, sending_body, emit, close,
  close_file,
}
use file_web_server.Core.Io.{
  Io, sent, SendfileResult, sent_all, sent_some, sendfile_failed, PreadResult, pread_got,
  pread_failed,
}

-- In SENDING_BODY there is a body.
abbrev pub PayloadOk : Connection → Type 0
PayloadOk c = c.state ≡ sending_body → HasPayload c

close-PayloadOk : (c : Connection) → PayloadOk (close c)
unfolding close
close-PayloadOk c h = absurd (ground arith)

finish_body-PayloadOk : (c : Connection) → PayloadOk (finish_body c).0
unfolding close_file
finish_body-PayloadOk c h = absurd (ground arith)

after_memory-PayloadOk :
    (p : Pushed) (c : Connection) → HasPayload c → PayloadOk (after_memory p c).0
unfolding after_memory
after_memory-PayloadOk (advanced n) c p h = ground arith
after_memory-PayloadOk (wait w) c p h = p
after_memory-PayloadOk broken c p h = close-PayloadOk c h

after_sendfile-PayloadOk :
    (r : SendfileResult) (c : Connection) → HasPayload c → PayloadOk (after_sendfile r c).0
unfolding after_sendfile
after_sendfile-PayloadOk (sent_all n) c p h =
    finish_body-PayloadOk (record (emit (file_effect c n) c) { send_remaining = pos 0 }) h
after_sendfile-PayloadOk (sent_some n) c p h = p
after_sendfile-PayloadOk sendfile_failed c p h = close-PayloadOk c h

after_chunk-PayloadOk : (p : Pushed) (c : Connection) → HasPayload c → PayloadOk (after_chunk p c).0
unfolding after_chunk
after_chunk-PayloadOk (advanced n) c p h = ground arith
after_chunk-PayloadOk (wait w) c p h = p
after_chunk-PayloadOk broken c p h = close-PayloadOk c h

after_pread-PayloadOk :
    (r : PreadResult) (io : Io) (c : Connection) → HasPayload c → PayloadOk (after_pread r io c).0
unfolding after_pread
after_pread-PayloadOk (pread_got (b ∷ bs)) io c p =
    after_chunk-PayloadOk (push_ssl io.ssl_write_body)
      (record c { chunk_buf = b ∷ bs; chunk_used = length (b ∷ bs); chunk_sent = 0 }) p
after_pread-PayloadOk (pread_got []) io c p = close-PayloadOk c
after_pread-PayloadOk pread_failed io c p = close-PayloadOk c

do_send_body-PayloadOk : (io : Io) (c : Connection) → HasPayload c → PayloadOk (do_send_body io c).0
unfolding do_send_body
do_send_body-PayloadOk io c p = ground (
  arith,
  after_memory-PayloadOk (push c io.write_body io.ssl_write_body) c p,
  after_sendfile-PayloadOk io.sendfile c p,
  after_chunk-PayloadOk (push_ssl io.ssl_write_body) c p,
  after_pread-PayloadOk io.pread io c p,
  finish_body-PayloadOk c,
)

after_headers-PayloadOk : (io : Io) (c : Connection) → PayloadOk (after_headers io c).0
unfolding after_headers
after_headers-PayloadOk io c = elim (Bool-cases (is_bodyless c)) [
  | inl e ↦ rw e (λ h. absurd (cc))
  | inr e ↦ rw e (do_send_body-PayloadOk io (record c { state = sending_body }) (ground arith))
]

after_push-PayloadOk :
    (p : Pushed) (io : Io) (c : Connection)
    → c.state ≡ sending_headers
    → PayloadOk (after_push p io c).0
unfolding after_push
after_push-PayloadOk (advanced n) io c s =
    let bytes = take n (drop c.header_sent c.header_buf) in
    let moved : Connection = record (emit (sent bytes ∷ []) c) {
      header_sent = c.header_sent + n;
    } in
    elim (Bool-cases (leb (length c.header_buf) (c.header_sent + n))) [
      | inl e ↦ rw e (after_headers-PayloadOk io moved)
      | inr e ↦ rw e (λ h. absurd (ground arith))
    ]
after_push-PayloadOk (wait w) io c s = λ h. absurd (ground arith)
after_push-PayloadOk broken io c s = close-PayloadOk c

do_send_headers-PayloadOk :
    (io : Io) (c : Connection) → c.state ≡ sending_headers → PayloadOk (do_send_headers io c).0
unfolding do_send_headers
do_send_headers-PayloadOk io c s = after_push-PayloadOk _ io c s

-- One event of a connection that is sending.
unfoldable pub resume : State → Io → Connection → Connection
resume sending_headers io c = (do_send_headers io c).0
resume sending_body io c = (do_send_body io c).0
resume _ io c = c

abbrev pub IsSending : State → Type 0
IsSending s = (s ≡ sending_headers) ⊎ (s ≡ sending_body)

-- Any number of such events, with the answers that the system gives at each.
pub data Resumes (content : Bytes) (c : Connection) : Connection → Type 0 where
  start : Resumes content c c
  event :
      {d : Connection} (io : Io)
      → Resumes content c d
      → IsSending d.state
      → FileOk content io d.send_offset d.send_remaining
      → Resumes content c (resume d.state io d)

module _ (content : Bytes) where
  pub resume-total :
      (s : State) (io : Io) (d : Connection)
      → IsSending s
      → d.state ≡ s
      → PayloadOk d
      → FileOk content io d.send_offset d.send_remaining
      → (resume s io d).state ≢ closed
      → (total content (resume s io d) ≡ total content d) × PayloadOk (resume s io d)
  unfolding resume
  resume-total sending_headers io d k s p ok h =
      (do_send_headers-total content io d (inl s) ok h, do_send_headers-PayloadOk io d s)
  resume-total sending_body io d k s p ok h =
      (do_send_body-total content io d s (p s) ok h, do_send_body-PayloadOk io d (p s))
  resume-total _ io d k s p ok h = absurd (ground arith)

  Resumes-total :
      {c d : Connection}
      → PayloadOk c
      → Resumes content c d
      → d.state ≢ closed
      → (total content d ≡ total content c) × PayloadOk d
  Resumes-total p start h = (refl, p)
  Resumes-total p (event {d} io r k ok) h =
      let (same, payload) = Resumes-total p r (λ e. ground arith) in
      let (same', payload') = resume-total d.state io d k refl payload ok h in
      (same' ∙ same, payload')

-- The whole response of a connection that has sent none of it.
abbrev pub response_bytes : Bytes → Connection → Bytes
response_bytes content c =
    c.header_buf
    ++ (if is_bodyless c
        then []
        else if in_memory c
        then c.response.body
        else slice content c.send_offset c.send_remaining)

-- A response is set up, and none of it is sent.
pub record Prepared (c : Connection) : Type 0 where
  pub no_header : c.header_sent ≡ 0
  pub no_body : c.body_sent ≡ 0
  pub no_chunk : c.chunk_used ≡ 0

pub Prepared-rest :
    (content : Bytes) (c : Connection)
    → (c.state ≡ sending_headers) ⊎ (c.state ≡ parsing)
    → Prepared c
    → rest content c.state c ≡ response_bytes content c
Prepared-rest content c (inl s) p = ap (λ z. rest content z c) s ∙ ground arith
Prepared-rest content c (inr s) p = ap (λ z. rest content z c) s ∙ ground arith

-- Where one write takes all of the headers, the state in front of it makes no difference.
pub do_send_headers-at_once :
    (io : Io) (c : Connection)
    → c.header_sent ≡ 0
    → push c io.write_headers io.ssl_write_headers ≡ advanced (length c.header_buf)
    → do_send_headers io c ≡ do_send_headers io (record c { state = sending_headers })
unfolding do_send_headers after_push after_headers
do_send_headers-at_once io c h e =
    let whole : leb (length c.header_buf) (c.header_sent + length c.header_buf) ≡ true =
      ground arith in
    rw (e, whole) refl

-- How a prepared response begins. The error pages of the parser and of the handshake are in
-- SENDING_HEADERS. What prepare_response sets up is in PARSING: its headers have to go out in one
-- write, and the next calls of the same event have answers of which `ok` holds.
pub data Begins (ok : Io → Type 0) (c : Connection) : Connection → Type 0 where
  in_headers : c.state ≡ sending_headers → Begins ok c c
  at_once :
      (io : Io)
      → c.state ≡ parsing
      → push c io.write_headers io.ssl_write_headers ≡ advanced (length c.header_buf)
      → ok io
      → Begins ok c (do_send_headers io c).0

-- The answers are about the file that is sent.
abbrev pub IsAbout : Bytes → Connection → Io → Type 0
IsAbout content c io = FileOk content io c.send_offset c.send_remaining

begun-total :
    (content : Bytes) {c b : Connection}
    → Prepared c
    → Begins (IsAbout content c) c b
    → b.state ≢ closed
    → (total content b ≡ wire content c.effects ++ response_bytes content c) × PayloadOk b
begun-total content {c} p (in_headers s) h = (
  ap (λ z. wire content c.effects ++ z) (Prepared-rest content c (inl s) p),
  λ e. absurd (ground arith),
)
begun-total content {c} p (at_once io s e ok) h =
    let same = do_send_headers-total content io c (inr s) ok h in
    let alike = do_send_headers-at_once io c p.no_header e in
    (
      same ∙ ap (λ z. wire content c.effects ++ z) (Prepared-rest content c (inr s) p),
      rw alike (do_send_headers-PayloadOk io (record c { state = sending_headers }) refl),
    )

closed-stays :
    (content : Bytes) {b d : Connection} → Resumes content b d → b.state ≡ closed → d.state ≡ closed
closed-stays content start e = e
closed-stays content (event {d} io r k ok) e =
    let shut = closed-stays content r e in absurd (ground arith)

-- From the same responses and under the same conditions as Resumes-complete, after any number of
-- sending events: unless the connection is closed, the bytes on the wire and those still to be
-- sent make up those before and the whole response.
pub Resumes-delivers :
    (content : Bytes) {c b d : Connection}
    → Prepared c
    → Begins (IsAbout content c) c b
    → Resumes content b d
    → d.state ≢ closed
    → wire content d.effects ++ rest content d.state d
      ≡ wire content c.effects ++ response_bytes content c
Resumes-delivers content {c} {b} {d} p begun r h =
    let (same, payload) = begun-total content p begun (λ e. h (closed-stays content r e)) in
    let (later, _) = Resumes-total content payload r h in later ∙ same

-- From a response of which nothing has been sent, which is either in SENDING_HEADERS, as the error
-- pages of the parser and the handshake are, or as prepare_response leaves it in PARSING, and then
-- goes on with a do_send_headers whose write takes all headers: over any sequence of sending
-- events with partial writes, where sendfile and pread answer with bytes of the file from within
-- what they are asked for and a sendfile that returns 0 has sent all that is left, at KEEP_ALIVE
-- the bytes on the wire are those before it and the whole response, once and in order.
pub Resumes-complete :
    (content : Bytes) {c b d : Connection}
    → Prepared c
    → Begins (IsAbout content c) c b
    → Resumes content b d
    → d.state ≡ keep_alive
    → wire content d.effects ≡ wire content c.effects ++ response_bytes content c
Resumes-complete content {c} {b} {d} p begun r e =
    let whole = Resumes-delivers content p begun r (λ k. ground arith) in
    sym (append-nil (wire content d.effects))
    ∙ ap (λ z. wire content d.effects ++ z) (sym (ap (λ z. rest content z d) e))
    ∙ whole
