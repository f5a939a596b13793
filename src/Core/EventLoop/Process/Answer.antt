-- ===== src/Core/EventLoop/Process/Answer.antt =====
-- The event that completes a request, and the events after it, up to the end of the response.
use file_web_server.Base.{
  ℕ, Bool, true, false, ◌++◌, ◌≤◌, List, Bytes, ◌≡◌, ◌⊎◌, refl, sym, ap, ◌∙◌, inl, inr, arith,
  length, if◌then◌else◌,
}
use file_web_server.Core.Connection.Delivery.Ends.{Answered, all_left, event-delivers}
use file_web_server.Core.Connection.Delivery.Flow.{Answers}
use file_web_server.Core.Connection.Delivery.Progress.{resumed}
use file_web_server.Core.Connection.Delivery.Whole.{
  do_send_headers-at_once, resume, Prepared, response_bytes,
}
use file_web_server.Core.Connection.Delivery.{wire}
use file_web_server.Core.Connection.Reading.{after_read, do_read}
use file_web_server.Core.Connection.Sending.{advanced, do_send_headers, push}
use file_web_server.Core.Connection.{
  Connection, Want, keep_alive, parsing, reading, sending_headers, close, close_file, close_socket,
  free_ssl, reset,
}
use file_web_server.Core.EventLoop.Process.Stuck.{do_parse-accepted, parsed}
use file_web_server.Core.EventLoop.Process.{
  inline_parse, is_keep_alive, is_parsing, is_tls_accept, is_unknown, respond, run_state, start_tls,
}
use file_web_server.Core.EventLoop.Process.Turn.{turn}
use file_web_server.Core.EventLoop.Respond.Links.{kept-prepare_response}
use file_web_server.Core.EventLoop.Respond.{prepare_response}
use file_web_server.Core.EventLoop.{Env}
use file_web_server.Core.Io.{Io}
use file_web_server.Http.Request.{HttpRequest, parse}
use mathlib.Core.Path.{subst}

-- Nothing of a response is under way, and no request is parsed.
abbrev pub IsClean : Connection → Type 0
IsClean c = (c.body_sent ≡ 0) × (c.chunk_used ≡ 0) × (is_unknown c.request.method ≡ true)

-- A connection that waits for a request: the first, or the next one.
abbrev pub Listens : Connection → Type 0
Listens c = ((c.state ≡ reading) × IsClean c) ⊎ (c.state ≡ keep_alive)

abbrev pub listened : Connection → Connection
listened c = if is_keep_alive c.state then reset c else c

-- The connection once the event has brought bytes, and with the response that is prepared for it.
abbrev pub read_in : Env → Connection → Connection
read_in env c = (do_read env.io (listened c)).0

abbrev pub answer : Env → Bytes → Connection → Connection
answer env root c = prepare_response env root (parsed (read_in env c))

-- The fields that IsClean reads.
abbrev marks : Connection → ℕ × ℕ × HttpRequest
marks c = (c.body_sent, c.chunk_used, c.request)

marks-close : (c : Connection) → marks (close c) ≡ marks c
unfolding close close_file close_socket free_ssl
marks-close c = ground arith

marks-after_read : (bs : Bytes) (c : Connection) → marks (after_read bs c).0 ≡ marks c
unfolding after_read
marks-after_read bs c = grind (arith, marks-close)

marks-do_read : (io : Io) (c : Connection) → marks (do_read io c).0 ≡ marks c
unfolding do_read
marks-do_read io c = grind (arith, marks-after_read, marks-close)

do_read-IsClean : (io : Io) (c : Connection) → IsClean c → IsClean (do_read io c).0
do_read-IsClean io c (b, k, m) =
    let same = marks-do_read io c in
    (ap (λ x. x.0) same ∙ b, ap (λ x. x.1) same ∙ k, ap (λ x. is_unknown x.2.method) same ∙ m)

listened-reading : (c : Connection) → c.state ≡ reading → listened c ≡ c
listened-reading c h = ap (λ s. if is_keep_alive s then reset c else c) h

listened-keep_alive : (c : Connection) → c.state ≡ keep_alive → listened c ≡ reset c
listened-keep_alive c h = ap (λ s. if is_keep_alive s then reset c else c) h

reset-IsClean : (c : Connection) → IsClean (reset c)
unfolding reset
reset-IsClean c = (refl, refl, refl)

listened-IsClean : (c : Connection) → Listens c → IsClean (listened c)
listened-IsClean c (inl (s, h)) = subst IsClean (sym (listened-reading c s)) h
listened-IsClean c (inr s) = subst IsClean (sym (listened-keep_alive c s)) (reset-IsClean c)

run_state-listened :
    (env : Env) (tls : Bool) (c : Connection)
    → Listens c
    → run_state c.state env tls c ≡ do_read env.io (listened c)
unfolding run_state
run_state-listened env tls c (inl (s, _)) =
    ap (λ z. run_state z env tls c) s ∙ ap (do_read env.io) (sym (listened-reading c s))
run_state-listened env tls c (inr s) =
    ap (λ z. run_state z env tls c) s ∙ ap (do_read env.io) (sym (listened-keep_alive c s))

-- A request that has just been read is parsed and answered in the same event.
respond-answer :
    (env : Env) (tls : Bool) (root : Bytes) (d : Connection) (w : Want)
    → d.state ≡ parsing
    → is_unknown d.request.method ≡ true
    → (parse d.read_buf).0 ≡ true
    → is_unknown (parse d.read_buf).1.method ≡ false
    → respond env root (inline_parse env (start_tls env tls (d, w)))
      ≡ do_send_headers env.io (prepare_response env root (parsed d))
unfolding start_tls inline_parse respond
respond-answer env tls root d w s u p m =
    let no_handshake = ap is_tls_accept s in
    let parses = ap is_parsing s in
    rw (no_handshake, parses, u) (rw (do_parse-accepted env.io d p) (rw (parses, m) refl))

turn-answer :
    (env : Env) (tls : Bool) (root : Bytes) (c : Connection)
    → Listens c
    → (read_in env c).state ≡ parsing
    → (parse (read_in env c).read_buf).0 ≡ true
    → is_unknown (parse (read_in env c).read_buf).1.method ≡ false
    → turn env tls root c ≡ (do_send_headers env.io (answer env root c)).0
turn-answer env tls root c h s p m =
    let clean = do_read-IsClean env.io (listened c) (listened-IsClean c h) in
    let got = do_read env.io (listened c) in
    ap (λ r. (respond env root (inline_parse env (start_tls env tls r))).0)
      (run_state-listened env tls c h)
    ∙ ap (λ r. r.0) (respond-answer env tls root got.0 got.1 s clean.2 p m)

answer-Prepared :
    (env : Env) (root : Bytes) (c : Connection) → Listens c → Prepared (answer env root c)
answer-Prepared env root c h =
    let same = kept-prepare_response env root (parsed (read_in env c)) in
    let clean = do_read-IsClean env.io (listened c) (listened-IsClean c h) in
    record {
      no_header = ap (λ x. x.5) same;
      no_body = ap (λ x. x.3) same ∙ clean.0;
      no_chunk = ap (λ x. x.4) same ∙ clean.1;
    }

-- The bytes that an event brings complete a request with a known method.
pub record Completes (env : Env) (c : Connection) : Type 0 where
  pub listens : Listens c
  pub read_whole : (read_in env c).state ≡ parsing
  pub parses : (parse (read_in env c).read_buf).0 ≡ true
  pub known : is_unknown (parse (read_in env c).read_buf).1.method ≡ false

-- A connection in READING without a response under way, or in KEEP_ALIVE, gets the last bytes of a
-- request that parses with a known method, and the socket takes the headers of the response, which
-- prepare_response sets up for that request, in one write: the steps of process_connection for
-- this event, and as many writable events as the first one leaves bytes to send, and at most two
-- more, end in KEEP_ALIVE with that response whole on the wire, once and in order, if at each
-- event every write takes a byte or more, and sendfile and pread, as long as something of the file
-- is left, give a byte or more of it and nothing beyond it, where a sendfile that returns 0 has
-- sent all that is left.
pub turn-delivers :
    (content : Bytes) (env : Env) (tls : Bool) (root : Bytes) (c : Connection) (ios : List Io)
    → Completes env c
    → push (answer env root c) env.io.write_headers env.io.ssl_write_headers
      ≡ advanced (length (answer env root c).header_buf)
    → Answers content env.io (answer env root c).send_offset (answer env root c).send_remaining
    → Answered content ios (turn env tls root c)
    → all_left (turn env tls root c).state (turn env tls root c) ≤ length ios
    → ((resumed ios (turn env tls root c)).state ≡ keep_alive)
      × (wire content (resumed ios (turn env tls root c)).effects
          ≡ wire content (answer env root c).effects ++ response_bytes content (answer env root c))
unfolding resume
turn-delivers content env tls root c ios k e a later h =
    let p = answer env root c in
    let prepared = answer-Prepared env root c k.listens in
    let reached =
      ap (λ r. r.0) (sym (do_send_headers-at_once env.io p prepared.no_header e))
      ∙ sym (turn-answer env tls root c k.listens k.read_whole k.parses k.known) in
    event-delivers content env.io ios (record p { state = sending_headers }) (turn env tls root c)
      refl
      (record {
        no_header = prepared.no_header;
        no_body = prepared.no_body;
        no_chunk = prepared.no_chunk;
      })
      reached a later h
