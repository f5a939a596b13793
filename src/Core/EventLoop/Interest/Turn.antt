-- ===== src/Core/EventLoop/Interest/Turn.antt =====
-- The socket of a connection across one event.
use file_web_server.Base.{
  Bool, true, false, not, ◌&&◌, ◌||◌, ◌≡◌, refl, ap, ◌∙◌, inl, inr, arith, Bool-cases, Bytes,
  is_some,
}
use file_web_server.Core.Connection.Sockets.{
  IsOpen, Keeps, socket-do_parse, socket-do_proto_detect, socket-do_read, socket-do_send_body,
  socket-do_send_headers, socket-do_tls_accept, fd-reset, state-reset,
}
use file_web_server.Core.Connection.Reading.{do_parse, do_tls_accept}
use file_web_server.Core.Connection.Sending.{do_send_headers}
use file_web_server.Core.Connection.{
  Connection, State, Want, closed, proto_detect, tls_accept, reading, parsing, sending_headers,
  sending_body, keep_alive, is_closed, reset,
}
use file_web_server.Core.EventLoop.Process.{
  inject, inline_parse, is_parsing, is_reading, is_tls_accept, is_unknown, respond, run_state,
  start_tls,
}
use file_web_server.Core.EventLoop.Respond.{prepare_response}
use file_web_server.Core.EventLoop.Respond.Links.{kept-prepare_response}
use file_web_server.Core.EventLoop.{Env}

-- Two steps, the second of a connection that is open.
pub Keeps-then : (c d e : Connection) → IsOpen d → Keeps c d → Keeps d e → Keeps c e
Keeps-then c d e o a b = ground arith

-- A step of a connection that differs in other fields.
pub Keeps-from : (c d e : Connection) → d.fd ≡ c.fd → Keeps d e → Keeps c e
Keeps-from c d e a b = ground arith

socket-run_state :
    (s : State) (env : Env) (has_tls : Bool) (c : Connection)
    → IsOpen c
    → Keeps c (run_state s env has_tls c).0
unfolding run_state
socket-run_state closed env has_tls c o = rw o refl
socket-run_state proto_detect env has_tls c o = socket-do_proto_detect env.io has_tls c o
socket-run_state tls_accept env has_tls c o = socket-do_tls_accept env.io c o
socket-run_state reading env has_tls c o = socket-do_read env.io c o
socket-run_state parsing env has_tls c o = socket-do_parse env.io c o
socket-run_state sending_headers env has_tls c o = socket-do_send_headers env.io c o
socket-run_state sending_body env has_tls c o = socket-do_send_body env.io c o
socket-run_state keep_alive env has_tls c o =
    Keeps-from c (reset c) (run_state keep_alive env has_tls c).0 (fd-reset c)
      (socket-do_read env.io (reset c) (ap is_closed (state-reset c) ∙ o))

tls_accept-open : (s : State) (b : Bool) → is_tls_accept s && b ≡ true → is_closed s ≡ false
tls_accept-open s b e = ground arith

parsing-open : (s : State) (b : Bool) → is_parsing s && b ≡ true → is_closed s ≡ false
parsing-open s b e = ground arith

before_answer-open :
    (s : State) (b : Bool) → (is_parsing s || is_reading s) && b ≡ true → is_closed s ≡ false
before_answer-open s b e = ground arith

inject-socket :
    (env : Env) (has_tls : Bool) (c : Connection)
    → ((inject env has_tls c).fd ≡ c.fd) × ((inject env has_tls c).state ≡ c.state)
inject-socket env has_tls c = ground arith

socket-start_tls :
    (env : Env) (has_tls : Bool) (c : Connection) (d : Connection) (w : Want)
    → Keeps c d
    → Keeps c (start_tls env has_tls (d, w)).0
unfolding start_tls
socket-start_tls env has_tls c d w k =
    elim (Bool-cases (is_tls_accept d.state && not (is_some d.ssl))) [
      | inr e ↦ rw e k
      | inl e ↦
          let o = tls_accept-open d.state _ e in
          let (same, still) = inject-socket env has_tls d in
          let j = inject env has_tls d in
          let shaken = socket-do_tls_accept env.io j (ap is_closed still ∙ o) in
          let r = (do_tls_accept env.io j).0 in
          rw e (Keeps-then c d r o k (Keeps-from d j r same shaken))
    ]

socket-inline_parse :
    (env : Env) (c : Connection) (d : Connection) (w : Want)
    → Keeps c d
    → Keeps c (inline_parse env (d, w)).0
unfolding inline_parse
socket-inline_parse env c d w k =
    elim (Bool-cases (is_parsing d.state && is_unknown d.request.method)) [
      | inr e ↦ rw e k
      | inl e ↦
          let o = parsing-open d.state _ e in
          rw e (Keeps-then c d (do_parse env.io d).0 o k (socket-do_parse env.io d o))
    ]

socket-respond :
    (env : Env) (root : Bytes) (c : Connection) (d : Connection) (w : Want)
    → Keeps c d
    → Keeps c (respond env root (d, w)).0
unfolding respond
socket-respond env root c d w k =
    elim (Bool-cases
      ((is_parsing d.state || is_reading d.state) && not (is_unknown d.request.method))) [
        | inr e ↦ rw e k
        | inl e ↦
            let o = before_answer-open d.state _ e in
            let p = prepare_response env root d in
            let same = kept-prepare_response env root d in
            let sent = socket-do_send_headers env.io p (ap (λ x. is_closed x.1) same ∙ o) in
            let r = (do_send_headers env.io p).0 in
            rw e (Keeps-then c d r o k (Keeps-from d p r (ap (λ x. x.6) same) sent))
      ]

-- What the first calls of an event, which can close the connection, leave of its socket.
pub socket-run :
    (env : Env) (has_tls : Bool) (c : Connection)
    → IsOpen c
    → Keeps c (start_tls env has_tls (run_state c.state env has_tls c)).0
socket-run env has_tls c o =
    let r = run_state c.state env has_tls c in
    socket-start_tls env has_tls c r.0 r.1 (socket-run_state c.state env has_tls c o)

-- What the calls behind them leave of it.
pub socket-answer :
    (env : Env) (root : Bytes) (c d : Connection) (w : Want)
    → Keeps c d
    → Keeps c (respond env root (inline_parse env (d, w))).0
socket-answer env root c d w k =
    let r = inline_parse env (d, w) in
    socket-respond env root c r.0 r.1 (socket-inline_parse env c d w k)
