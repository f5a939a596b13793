-- ===== src/Core/EventLoop/Process.antt =====
-- `EventLoop::process_connection`: one event of one connection, run through the state machine.
pub mod Stuck
pub mod Turn
pub mod States
pub mod Course
pub mod Answer
mod Tests
use file_web_server.Base.{
  ℕ, Bool, true, false, not, ◌&&◌, ◌||◌, none, some, is_some, if◌then◌else◌, Bytes,
}
use file_web_server.Core.Connection.Reading.{do_proto_detect, do_tls_accept, do_read, do_parse}
use file_web_server.Core.Connection.Sending.{do_send_headers, do_send_body}
use file_web_server.Core.Connection.{
  Connection, State, closed, proto_detect, tls_accept, reading, parsing, sending_headers,
  sending_body, keep_alive, Want, nothing, is_closed, reset,
}
use file_web_server.Core.EventLoop.Respond.{prepare_response}
use file_web_server.Core.EventLoop.{
  Env, EventLoop, put, add_to_keepalive_list, remove_from_keepalive_list, update_events,
  destroy_connection,
}
use file_web_server.Http.Request.{Method, unknown}

abbrev pub is_tls_accept : State → Bool
is_tls_accept tls_accept = true
is_tls_accept _ = false

abbrev pub is_parsing : State → Bool
is_parsing parsing = true
is_parsing _ = false

abbrev pub is_reading : State → Bool
is_reading reading = true
is_reading _ = false

abbrev pub is_keep_alive : State → Bool
is_keep_alive keep_alive = true
is_keep_alive _ = false

abbrev pub is_unknown : Method → Bool
is_unknown unknown = true
is_unknown _ = false

-- The `switch` over the state.
unfoldable pub run_state : State → Env → Bool → Connection → Connection × Want
run_state proto_detect env has_tls c = do_proto_detect env.io has_tls c
run_state tls_accept env has_tls c = do_tls_accept env.io c
run_state reading env has_tls c = do_read env.io c
run_state parsing env has_tls c = do_parse env.io c
run_state sending_headers env has_tls c = do_send_headers env.io c
run_state sending_body env has_tls c = do_send_body env.io c
run_state keep_alive env has_tls c = do_read env.io (reset c)
run_state closed env has_tls c = (c, nothing)

-- A connection that has just turned out to be TLS gets its SSL object, and starts the handshake.
abbrev pub inject : Env → Bool → Connection → Connection
inject env has_tls c = elim (if has_tls then env.new_ssl else none) [
  | none ↦ c
  | some ssl ↦ record c { ssl = some ssl }
]

unfoldable pub start_tls : Env → Bool → Connection × Want → Connection × Want
start_tls env has_tls (c, want) =
    if is_tls_accept c.state && not (is_some c.ssl)
    then do_tls_accept env.io (inject env has_tls c)
    else (c, want)

unfoldable pub inline_parse : Env → Connection × Want → Connection × Want
inline_parse env (c, want) =
    if is_parsing c.state && is_unknown c.request.method then do_parse env.io c else (c, want)

unfoldable pub respond : Env → Bytes → Connection × Want → Connection × Want
respond env root (c, want) =
    if (is_parsing c.state || is_reading c.state) && not (is_unknown c.request.method)
    then do_send_headers env.io (prepare_response env root c)
    else (c, want)

-- The list of connections in KEEP_ALIVE follows the state.
unfoldable pub sync_keepalive : State → ℕ → EventLoop → EventLoop
sync_keepalive prev i l =
    if not (is_keep_alive prev) && is_keep_alive (l.conns i).state
    then add_to_keepalive_list i l
    else if is_keep_alive prev && not (is_keep_alive (l.conns i).state)
    then remove_from_keepalive_list i l
    else l

-- What follows the two calls that can close the connection.
unfoldable pub finish_event : Env → State → ℕ → Connection × Want → EventLoop → EventLoop
unfolding inline_parse respond sync_keepalive
finish_event env prev i (c, want) l =
    if is_closed c.state
    then destroy_connection i (put i c l)
    else let (d, want') = respond env l.root_dir (inline_parse env (c, want)) in
      update_events i want' (sync_keepalive prev i (put i d l))

unfoldable pub process_connection : Env → ℕ → EventLoop → EventLoop
unfolding finish_event run_state start_tls
process_connection env i l =
    let c = l.conns i in
    if is_closed c.state
    then l
    else finish_event env c.state i (start_tls env l.has_tls (run_state c.state env l.has_tls c)) l
