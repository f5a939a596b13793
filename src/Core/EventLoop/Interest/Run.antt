-- ===== src/Core/EventLoop/Interest/Run.antt =====
-- The registrations across every sequence of events.
use file_web_server.Base.{
  ℕ, Bool, true, false, refl, inl, inr, List, [], ◌∷◌, ◌++◌, Option, none, some, Bool-cases,
  Option-cases, zero, suc, append-nil,
}
use file_web_server.Base.Int.{ℤ}
use file_web_server.Core.Connection.Sockets.{IsOpen, Keeps}
use file_web_server.Core.Connection.{Connection, State, Want, is_closed, is_expired}
use file_web_server.Core.EventLoop.Dispatch.{
  Round, accept_all, deliver, dispatch, dispatch_all, drop_connection, events, expire_from, failed,
  handle_accept, handle_connection_event, handle_timer, interrupted, loop, run, seconds, submit,
}
use file_web_server.Core.EventLoop.Interest.Steps.{put-Interest, sync-Interest, update-Interest}
use file_web_server.Core.EventLoop.Interest.Lifetime.{FreeSocket, create-Interest, destroy-Interest}
use file_web_server.Core.EventLoop.Interest.Turn.{socket-answer, socket-run}
use file_web_server.Core.EventLoop.Interest.{Interest, frame-Interest}
use file_web_server.Core.EventLoop.Process.{
  finish_event, inline_parse, process_connection, respond, run_state, start_tls, sync_keepalive,
}
use file_web_server.Core.EventLoop.Signals.{on_signals}
use file_web_server.Core.EventLoop.{
  Env, Event, EventLoop, Udata, connection, create_connection, destroy_connection, listener_tag,
  null, put, timer_tag,
}
use file_web_server.Core.Pool.{max_connections}

finish_event-Interest :
    (env : Env) (prev : State) (i : ℕ) (c : Connection) (want : Want) (l : EventLoop)
    → IsOpen (l.conns i)
    → Keeps (l.conns i) c
    → Interest l
    → Interest (finish_event env prev i (c, want) l)
unfolding finish_event
finish_event-Interest env prev i c want l o k h = elim (Bool-cases (is_closed c.state)) [
  | inl e ↦ rw e (destroy-Interest i (put i c l) (put-Interest i c l o k h))
  | inr e ↦
      let r = respond env l.root_dir (inline_parse env (c, want)) in
      let m = put i r.0 l in
      let stored = put-Interest i r.0 l o (socket-answer env l.root_dir (l.conns i) c want k) h in
      rw e (update-Interest i r.1 (sync_keepalive prev i m) (sync-Interest prev i m stored))
]

process_connection-Interest :
    (env : Env) (i : ℕ) (l : EventLoop) → Interest l → Interest (process_connection env i l)
unfolding process_connection
process_connection-Interest env i l h = elim (Bool-cases (is_closed (l.conns i).state)) [
  | inl e ↦ rw e h
  | inr e ↦
      let c = l.conns i in
      let r = start_tls env l.has_tls (run_state c.state env l.has_tls c) in
      rw e (finish_event-Interest env c.state i r.0 r.1 l e (socket-run env l.has_tls c e) h)
]

-- No call of kevent in these rounds fails otherwise than by an interruption.
abbrev pub NeverFails : List Round → Type 0
NeverFails [] = Unit {0}
NeverFails ((failed, ss) ∷ rs) = ⊥
NeverFails ((interrupted, ss) ∷ rs) = NeverFails rs
NeverFails ((events es, ss) ∷ rs) = NeverFails rs

-- Each socket that accept returns is free.
abbrev pub AcceptsFree : ℕ → List ℕ → EventLoop → Type 0
AcceptsFree now [] l = Unit {0}
AcceptsFree now (fd ∷ fds) l = FreeSocket fd l × AcceptsFree now fds (create_connection now fd l).1

accept_all-Interest :
    (now : ℕ) (fds : List ℕ) (l : EventLoop)
    → AcceptsFree now fds l
    → Interest l
    → Interest (accept_all now fds l)
unfolding accept_all
accept_all-Interest now [] l free h = h
accept_all-Interest now (fd ∷ fds) l (free, rest) h =
    let made = create_connection now fd l in
    elim (Option-cases made.0) [
      | inl e ↦
          rw (accept_all, e)
            (frame-Interest l (record l { refused_fds = l.refused_fds ++ fd ∷ [] }) (λ j. refl) refl
              refl h)
      | inr (i, e) ↦
          rw (accept_all, e)
            (accept_all-Interest now fds made.1 rest (create-Interest now fd l free h))
    ]

expire_from-Interest :
    (fuel : ℕ) (timeout : ℤ) (now : ℕ) (from : Option ℕ) (l : EventLoop)
    → Interest l
    → Interest (expire_from fuel timeout now from l)
unfolding expire_from
expire_from-Interest fuel timeout now none l h = h
expire_from-Interest zero timeout now (some i) l h = h
expire_from-Interest (suc fuel) timeout now (some i) l h =
    let next = (l.conns i).keepalive_next in
    elim (Bool-cases (is_expired timeout now (l.conns i))) [
      | inl e ↦ rw e (
          expire_from-Interest fuel timeout now next (destroy_connection i l)
            (destroy-Interest i l h))
      | inr e ↦ rw e (expire_from-Interest fuel timeout now next l h)
    ]

drop-Interest : (u : Udata) (l : EventLoop) → Interest l → Interest (drop_connection u l)
unfolding drop_connection
drop-Interest listener_tag l h = h
drop-Interest timer_tag l h = h
drop-Interest null l h = h
drop-Interest (connection i) l h = destroy-Interest i l h

-- The sockets that an event of the listener accepts are free.
abbrev pub EventFree : Udata → Env → EventLoop → Type 0
EventFree listener_tag env l = AcceptsFree env.io.clock env.accepts l
EventFree _ env l = Unit {0}

deliver-Interest :
    (u : Udata) (env : Env) (l : EventLoop)
    → EventFree u env l
    → Interest l
    → Interest (deliver u env l)
unfolding deliver handle_accept handle_timer handle_connection_event
deliver-Interest listener_tag env l free h = accept_all-Interest env.io.clock env.accepts l free h
deliver-Interest timer_tag env l free h =
    expire_from-Interest max_connections (seconds l.keep_alive_timeout) env.io.clock
      l.keepalive_head l h
deliver-Interest null env l free h = h
deliver-Interest (connection i) env l free h = process_connection-Interest env i l h

dispatch-Interest :
    (ev : Event) (env : Env) (l : EventLoop)
    → EventFree ev.udata env l
    → Interest l
    → Interest (dispatch ev env l)
unfolding dispatch
dispatch-Interest ev env l free h = elim (Bool-cases ev.ev_error) [
  | inl e ↦ rw e (drop-Interest ev.udata l h)
  | inr e ↦ elim (Bool-cases ev.ev_eof) [
    | inl f ↦ rw (e, f) (drop-Interest ev.udata l h)
    | inr f ↦ rw (e, f) (deliver-Interest ev.udata env l free h)
  ]
]

abbrev pub AllFree : List (Event × Env) → EventLoop → Type 0
AllFree [] l = Unit {0}
AllFree ((ev, env) ∷ evs) l = EventFree ev.udata env l × AllFree evs (dispatch ev env l)

dispatch_all-Interest :
    (evs : List (Event × Env)) (l : EventLoop)
    → AllFree evs l
    → Interest l
    → Interest (dispatch_all evs l)
unfolding dispatch_all
dispatch_all-Interest [] l free h = h
dispatch_all-Interest ((ev, env) ∷ evs) l (free, rest) h =
    dispatch_all-Interest evs (dispatch ev env l) rest (dispatch-Interest ev env l free h)

submit-Interest : (l : EventLoop) → Interest l → Interest (submit l)
submit-Interest l h =
    frame-Interest l (submit l) (λ j. refl) refl (append-nil (l.submitted ++ l.changelist)) h

-- The same of all that kevent returns in a run.
abbrev pub LoopFree : Bool → List Round → EventLoop → Type 0
LoopFree false rs l = Unit {0}
LoopFree true [] l = Unit {0}
LoopFree true ((interrupted, ss) ∷ rs) l = LoopFree (on_signals ss true) rs (submit l)
LoopFree true ((failed, ss) ∷ rs) l = Unit {0}
LoopFree true ((events evs, ss) ∷ rs) l =
    AllFree evs (submit l) × LoopFree (on_signals ss true) rs (dispatch_all evs (submit l))

loop-Interest :
    (running : Bool) (rs : List Round) (l : EventLoop)
    → LoopFree running rs l
    → Interest l
    → Interest (loop running rs l)
unfolding loop
loop-Interest false rs l free h = h
loop-Interest true [] l free h = h
loop-Interest true ((interrupted, ss) ∷ rs) l free h =
    loop-Interest (on_signals ss true) rs (submit l) free (submit-Interest l h)
loop-Interest true ((failed, ss) ∷ rs) l free h = submit-Interest l h
loop-Interest true ((events evs, ss) ∷ rs) l (free, rest) h =
    loop-Interest (on_signals ss true) rs (dispatch_all evs (submit l)) rest
      (dispatch_all-Interest evs (submit l) free (submit-Interest l h))

-- From a loop in which a connection has a socket exactly if it is open, these sockets differ from
-- each other and from that of the listener, and once the change list is handed over the queue
-- holds each socket for reading or for writing with the connection it belongs to, the listener and
-- the timer with theirs: if accept only returns sockets that neither a connection nor the listener
-- has, the main loop, over any events and signals, ends in such a loop.
pub run-Interest :
    (rs : List Round) (l : EventLoop) → LoopFree true rs l → Interest l → Interest (run rs l)
unfolding run
run-Interest rs l free h = loop-Interest true rs l free h
