-- ===== src/Core/EventLoop/Dispatch.antt =====
-- `EventLoop::dispatch`, `handle_accept`, `handle_timer` and `run`.
pub mod Shutdown
mod Tests
use file_web_server.Base.{
  ℕ, zero, suc, Bool, true, false, ◌*◌, ◌-◌, List, [], ◌∷◌, ◌++◌, Option, none, some, if◌then◌else◌,
}
use file_web_server.Base.Int.{ℤ, pos, negsuc}
use file_web_server.Core.Connection.{is_expired}
use file_web_server.Core.EventLoop.Process.{process_connection}
use file_web_server.Core.EventLoop.Signals.{Signal, on_signals}
use file_web_server.Core.EventLoop.{
  Env, Event, EventLoop, Udata, listener_tag, timer_tag, null, connection, create_connection,
  destroy_connection,
}
use file_web_server.Core.Pool.{max_connections}

-- accept until it fails or the pool is full; a socket that finds no slot is closed.
unfoldable pub accept_all : ℕ → List ℕ → EventLoop → EventLoop
accept_all now [] l = l
accept_all now (fd ∷ fds) l = elim (create_connection now fd l).0 [
  | none ↦ record l { refused_fds = l.refused_fds ++ fd ∷ [] }
  | some i ↦ accept_all now fds (create_connection now fd l).1
]

unfoldable pub handle_accept : Env → EventLoop → EventLoop
unfolding accept_all
handle_accept env l = accept_all env.io.clock env.accepts l

-- Ticks of steady_clock in a second: nanoseconds.
abbrev pub ticks_per_second : ℕ
ticks_per_second = 1_000_000_000

abbrev pub seconds : ℤ → ℤ
seconds (pos n) = pos (n * ticks_per_second)
seconds (negsuc n) = negsuc (suc n * ticks_per_second - 1)

-- The walk along the list: the next link is read before the connection is destroyed. The list has at
-- most as many nodes as the pool has slots.
unfoldable pub expire_from : ℕ → ℤ → ℕ → Option ℕ → EventLoop → EventLoop
expire_from fuel timeout now none l = l
expire_from zero timeout now (some i) l = l
expire_from (suc fuel) timeout now (some i) l =
    expire_from fuel timeout now (l.conns i).keepalive_next
      (if is_expired timeout now (l.conns i) then destroy_connection i l else l)

unfoldable pub handle_timer : Env → EventLoop → EventLoop
unfolding expire_from
handle_timer env l =
    expire_from max_connections (seconds l.keep_alive_timeout) env.io.clock l.keepalive_head l

-- EV_ERROR and EV_EOF destroy a connection, and are ignored on the listener, the timer and null.
unfoldable pub drop_connection : Udata → EventLoop → EventLoop
drop_connection (connection i) l = destroy_connection i l
drop_connection _ l = l

unfoldable pub handle_connection_event : Env → ℕ → EventLoop → EventLoop
handle_connection_event env i l = process_connection env i l

-- No event that is neither an error nor an end comes with a null pointer: only deletions carry one.
unfoldable pub deliver : Udata → Env → EventLoop → EventLoop
unfolding handle_accept handle_timer handle_connection_event
deliver listener_tag env l = handle_accept env l
deliver timer_tag env l = handle_timer env l
deliver (connection i) env l = handle_connection_event env i l
deliver null env l = l

unfoldable pub dispatch : Event → Env → EventLoop → EventLoop
unfolding drop_connection deliver
dispatch ev env l =
    if ev.ev_error
    then drop_connection ev.udata l
    else if ev.ev_eof
    then drop_connection ev.udata l
    else deliver ev.udata env l

unfoldable pub dispatch_all : List (Event × Env) → EventLoop → EventLoop
dispatch_all [] l = l
dispatch_all ((ev, env) ∷ evs) l = dispatch_all evs (dispatch ev env l)

-- What one call of kevent in the main loop returns.
pub data Poll : Type 0 where
  interrupted failed : Poll
  events : List (Event × Env) → Poll

-- kevent takes the change list, which is then cleared.
abbrev pub submit : EventLoop → EventLoop
submit l = record l { submitted = l.submitted ++ l.changelist; changelist = [] }

-- One round of the main loop: what kevent returns, and the signals that arrive until the test of
-- g_running that follows it.
abbrev pub Round : Type 0
Round = Poll × List Signal

-- `while (g_running)`, over the rounds that the system grants. EINTR leads to the test, any other
-- failure of kevent out of the loop.
unfoldable pub loop : Bool → List Round → EventLoop → EventLoop
unfolding on_signals
loop false rs l = l
loop true [] l = l
loop true ((interrupted, ss) ∷ rs) l = loop (on_signals ss true) rs (submit l)
loop true ((failed, ss) ∷ rs) l = submit l
loop true ((events evs, ss) ∷ rs) l = loop (on_signals ss true) rs (dispatch_all evs (submit l))

-- g_running is 1 from the start of the program.
unfoldable pub run : List Round → EventLoop → EventLoop
unfolding loop
run rs l = loop true rs l
