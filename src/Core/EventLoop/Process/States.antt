-- ===== src/Core/EventLoop/Process/States.antt =====
-- The states of a connection across one event.
use file_web_server.Base.{
  Bool, true, false, ◌≡◌, refl, sym, ap, ◌∙◌, inl, inr, arith, Bool-cases, Bytes,
}
use file_web_server.Core.Connection.Delivery.{close-closed}
use file_web_server.Core.Connection.Reading.{
  after_read, do_parse, do_proto_detect, do_read, do_tls_accept,
}
use file_web_server.Core.Connection.Sending.{
  do_send_body, do_send_headers, error_response, prepare_headers,
}
use file_web_server.Core.Connection.Sockets.{state-reset}
use file_web_server.Core.Connection.States.{
  sends, sends-do_send_body, sends-do_send_headers, same_state,
}
use file_web_server.Core.Connection.{
  Connection, State, closed, proto_detect, tls_accept, reading, parsing, sending_headers,
  sending_body, keep_alive, reset, close, close_file, close_socket, free_ssl,
}
use file_web_server.Core.EventLoop.Process.{is_unknown, run_state}
use file_web_server.Core.EventLoop.{Env}
use file_web_server.Core.Io.{Io}
use file_web_server.Http.Request.{parse}

-- The states that can be next to a state, when one event has been handled.
abbrev pub follows : State → State → Bool
follows proto_detect parsing = false
follows proto_detect sending_body = false
follows proto_detect keep_alive = false
follows proto_detect _ = true
follows tls_accept tls_accept = true
follows tls_accept reading = true
follows tls_accept sending_headers = true
follows tls_accept _ = false
follows reading proto_detect = false
follows reading tls_accept = false
follows reading _ = true
follows parsing proto_detect = false
follows parsing tls_accept = false
follows parsing reading = false
follows parsing _ = true
follows sending_headers t = sends sending_headers t
follows sending_body t = sends sending_body t
follows keep_alive proto_detect = false
follows keep_alive tls_accept = false
follows keep_alive reading = false
follows keep_alive _ = true
follows closed t = same_state closed t

-- The states in front of the first request.
abbrev pub is_early : State → Bool
is_early proto_detect = true
is_early tls_accept = true
is_early reading = true
is_early _ = false

-- There, no request has been parsed.
abbrev pub Unread : Connection → Type 0
Unread c = is_early c.state ≡ true → is_unknown c.request.method ≡ true

-- A step from one connection to another.
pub record Turns (s : State) (d : Connection) : Type 0 where
  pub comes : follows s d.state ≡ true
  pub unread : Unread d

do_proto_detect-Turns :
    (io : Io) (tls : Bool) (c : Connection)
    → c.state ≡ proto_detect
    → Unread c
    → Turns proto_detect (do_proto_detect io tls c).0
unfolding do_proto_detect error_response prepare_headers
do_proto_detect-Turns io tls c e u = record {
  comes = ground (arith, close-closed c);
  unread = λ early. ground (arith, close-closed c);
}

pub do_tls_accept-Turns :
    (io : Io) (c : Connection)
    → c.state ≡ tls_accept
    → Unread c
    → Turns tls_accept (do_tls_accept io c).0
unfolding do_tls_accept error_response prepare_headers
do_tls_accept-Turns io c e u = record { comes = ground arith; unread = λ early. ground arith }

-- Reading stays in its state, or comes to the end of the headers, or fails.
abbrev reads : State → State → Bool
reads s closed = true
reads s parsing = true
reads s t = same_state s t

reads-stays : (s : State) → reads s s ≡ true
reads-stays s = ground arith

request-close : (c : Connection) → (close c).request ≡ c.request
unfolding close close_file close_socket free_ssl
request-close c = ground arith

reads-close : (c : Connection) → reads c.state (close c).state ≡ true
reads-close c = rw (close-closed c) refl

reads-after_read : (bs : Bytes) (c : Connection) → reads c.state (after_read bs c).0.state ≡ true
unfolding after_read
reads-after_read bs c = let stays = reads-stays c.state in grind (arith, reads-close)

reads-do_read : (io : Io) (c : Connection) → reads c.state (do_read io c).0.state ≡ true
unfolding do_read
reads-do_read io c = let stays = reads-stays c.state in grind (arith, reads-close, reads-after_read)

request-after_read : (bs : Bytes) (c : Connection) → (after_read bs c).0.request ≡ c.request
unfolding after_read
request-after_read bs c = grind (arith, request-close)

request-do_read : (io : Io) (c : Connection) → (do_read io c).0.request ≡ c.request
unfolding do_read
request-do_read io c = grind (arith, request-close, request-after_read)

do_read-Turns :
    (io : Io) (c : Connection) → c.state ≡ reading → Unread c → Turns reading (do_read io c).0
do_read-Turns io c e u =
    let next = reads-do_read io c in
    record { comes = ground arith; unread = λ early. rw (request-do_read io c) (u (rw e refl)) }

from_keep_alive :
    (t : State) → reads keep_alive t ≡ true → (follows keep_alive t ≡ true) × (is_early t ≡ false)
from_keep_alive t h = ground arith

-- A step that leads behind the first request.
pub late_turn :
    (s : State) (d : Connection) → follows s d.state ≡ true → is_early d.state ≡ false → Turns s d
late_turn s d e l = record { comes = e; unread = λ early. absurd (ground (arith, l, early)) }

reset-Turns :
    (io : Io) (c : Connection) → c.state ≡ keep_alive → Turns keep_alive (do_read io (reset c)).0
reset-Turns io c e =
    let d = (do_read io (reset c)).0 in
    let next = ap (λ z. reads z d.state) (sym (state-reset c ∙ e)) ∙ reads-do_read io (reset c) in
    let (comes, late) = from_keep_alive d.state next in late_turn keep_alive d comes late

-- Parsing, and what is done in its place once the request is there.
pub parsing_turn :
    (s t : State)
    → follows s parsing ≡ true
    → follows parsing t ≡ true
    → (follows s t ≡ true) × (is_early t ≡ false)
parsing_turn s t h k = ground arith

abbrev is_sending : State → Bool
is_sending sending_headers = true
is_sending sending_body = true
is_sending _ = false

pub parsing-do_parse :
    (io : Io) (c : Connection) → c.state ≡ parsing → follows parsing (do_parse io c).0.state ≡ true
unfolding do_parse error_response prepare_headers
parsing-do_parse io c e = elim (Bool-cases (parse c.read_buf).0) [
  | inl p ↦ rw p (rw e refl)
  | inr p ↦ rw p refl
]

sending_turn :
    (s : State) (c d : Connection)
    → c.state ≡ s
    → sends c.state d.state ≡ true
    → is_sending s ≡ true
    → Turns s d
sending_turn s c d e h k = late_turn s d (ground arith) (ground arith)

pub run_state-Turns :
    (s : State) (env : Env) (tls : Bool) (c : Connection)
    → c.state ≡ s
    → Unread c
    → Turns s (run_state s env tls c).0
unfolding run_state
run_state-Turns closed env tls c e u = late_turn closed c (rw e refl) (rw e refl)
run_state-Turns proto_detect env tls c e u = do_proto_detect-Turns env.io tls c e u
run_state-Turns tls_accept env tls c e u = do_tls_accept-Turns env.io c e u
run_state-Turns reading env tls c e u = do_read-Turns env.io c e u
run_state-Turns parsing env tls c e u =
    let d = (do_parse env.io c).0 in
    let (comes, late) = parsing_turn parsing d.state refl (parsing-do_parse env.io c e) in
    late_turn parsing d comes late
run_state-Turns sending_headers env tls c e u =
    sending_turn sending_headers c (do_send_headers env.io c).0 e (sends-do_send_headers env.io c)
      refl
run_state-Turns sending_body env tls c e u =
    sending_turn sending_body c (do_send_body env.io c).0 e (sends-do_send_body env.io c) refl
run_state-Turns keep_alive env tls c e u = reset-Turns env.io c e
