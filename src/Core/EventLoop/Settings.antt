-- ===== src/Core/EventLoop/Settings.antt =====
-- The fields of the event loop that are set up before it runs: its operations leave them alone.
use file_web_server.Base.{
  ℕ, Bool, true, false, List, [], ◌∷◌, Option, none, some, ◌≡◌, refl, ◌∙◌, inl, inr, arith, Bytes,
  Bool-cases, Option-cases, zero, suc,
}
use file_web_server.Base.Int.{ℤ}
use file_web_server.Core.Connection.{Connection, State, Want, is_closed, is_expired}
use file_web_server.Core.EventLoop.Dispatch.{
  Round, accept_all, deliver, dispatch, dispatch_all, drop_connection, events, expire_from, failed,
  handle_accept, handle_connection_event, handle_timer, interrupted, loop, run, seconds, submit,
}
use file_web_server.Core.Pool.{max_connections}
use file_web_server.Core.EventLoop.Process.{
  finish_event, inline_parse, process_connection, respond, sync_keepalive,
}
use file_web_server.Core.EventLoop.Signals.{on_signals}
use file_web_server.Core.EventLoop.{
  Env, Event, EventLoop, Udata, add_event, add_to_keepalive_list, connection, create_connection,
  delete_events, destroy_connection, listener_tag, null, put, remove_from_keepalive_list, set_next,
  set_prev, timer_tag, update_events,
}

abbrev pub Settings : Type 0
Settings = Option ℕ × Option ℕ × Bool × Bytes × ℤ

abbrev pub settings : EventLoop → Settings
settings l = (l.kq, l.listen_fd, l.has_tls, l.root_dir, l.keep_alive_timeout)

pub settings-remove :
    (i : ℕ) (l : EventLoop) → settings (remove_from_keepalive_list i l) ≡ settings l
unfolding remove_from_keepalive_list set_next set_prev
settings-remove i l = ground arith

pub settings-add : (i : ℕ) (l : EventLoop) → settings (add_to_keepalive_list i l) ≡ settings l
unfolding add_to_keepalive_list set_prev
settings-add i l = ground arith

pub settings-update :
    (i : ℕ) (w : Want) (l : EventLoop) → settings (update_events i w l) ≡ settings l
unfolding update_events add_event
settings-update i w l = ground arith

pub settings-delete : (fd : Option ℕ) (l : EventLoop) → settings (delete_events fd l) ≡ settings l
unfolding delete_events add_event
settings-delete none l = refl
settings-delete (some fd) l = refl

pub settings-destroy : (i : ℕ) (l : EventLoop) → settings (destroy_connection i l) ≡ settings l
unfolding destroy_connection
settings-destroy i l =
    let unlinked = remove_from_keepalive_list i l in
    settings-delete (unlinked.conns i).fd unlinked ∙ settings-remove i l

pub settings-create :
    (now fd : ℕ) (l : EventLoop) → settings (create_connection now fd l).1 ≡ settings l
unfolding create_connection add_event
settings-create now fd l = ground arith

pub settings-sync :
    (prev : State) (i : ℕ) (l : EventLoop) → settings (sync_keepalive prev i l) ≡ settings l
unfolding sync_keepalive
settings-sync prev i l = grind (arith, settings-add, settings-remove)

settings-finish_event :
    (env : Env) (prev : State) (i : ℕ) (r : Connection × Want) (l : EventLoop)
    → settings (finish_event env prev i r l) ≡ settings l
unfolding finish_event
settings-finish_event env prev i (c, want) l = elim (Bool-cases (is_closed c.state)) [
  | inl e ↦ rw e (settings-destroy i (put i c l))
  | inr e ↦
      let r = respond env l.root_dir (inline_parse env (c, want)) in
      rw e (
        settings-update i r.1 (sync_keepalive prev i (put i r.0 l))
        ∙ settings-sync prev i (put i r.0 l))
]

settings-process_connection :
    (env : Env) (i : ℕ) (l : EventLoop) → settings (process_connection env i l) ≡ settings l
unfolding process_connection
settings-process_connection env i l = elim (Bool-cases (is_closed (l.conns i).state)) [
  | inl e ↦ rw e refl
  | inr e ↦ rw e (settings-finish_event env (l.conns i).state i _ l)
]

settings-accept_all :
    (now : ℕ) (fds : List ℕ) (l : EventLoop) → settings (accept_all now fds l) ≡ settings l
unfolding accept_all
settings-accept_all now [] l = refl
settings-accept_all now (fd ∷ fds) l =
    let made = create_connection now fd l in
    elim (Option-cases made.0) [
      | inl e ↦ rw (accept_all, e) refl
      | inr (i, e) ↦
          rw (accept_all, e) (settings-accept_all now fds made.1 ∙ settings-create now fd l)
    ]

settings-expire_from :
    (fuel : ℕ) (timeout : ℤ) (now : ℕ) (from : Option ℕ) (l : EventLoop)
    → settings (expire_from fuel timeout now from l) ≡ settings l
unfolding expire_from
settings-expire_from fuel timeout now none l = refl
settings-expire_from zero timeout now (some i) l = refl
settings-expire_from (suc fuel) timeout now (some i) l =
    elim (Bool-cases (is_expired timeout now (l.conns i))) [
      | inl e ↦ rw e (
          settings-expire_from fuel timeout now (l.conns i).keepalive_next (destroy_connection i l)
          ∙ settings-destroy i l)
      | inr e ↦ rw e (settings-expire_from fuel timeout now (l.conns i).keepalive_next l)
    ]

settings-drop : (u : Udata) (l : EventLoop) → settings (drop_connection u l) ≡ settings l
unfolding drop_connection
settings-drop listener_tag l = refl
settings-drop timer_tag l = refl
settings-drop null l = refl
settings-drop (connection i) l = settings-destroy i l

settings-deliver : (u : Udata) (env : Env) (l : EventLoop) → settings (deliver u env l) ≡ settings l
unfolding deliver handle_accept handle_timer handle_connection_event
settings-deliver listener_tag env l = settings-accept_all env.io.clock env.accepts l
settings-deliver timer_tag env l =
    settings-expire_from max_connections (seconds l.keep_alive_timeout) env.io.clock
      l.keepalive_head l
settings-deliver null env l = refl
settings-deliver (connection i) env l = settings-process_connection env i l

settings-dispatch :
    (ev : Event) (env : Env) (l : EventLoop) → settings (dispatch ev env l) ≡ settings l
unfolding dispatch
settings-dispatch ev env l = elim (Bool-cases ev.ev_error) [
  | inl e ↦ rw e (settings-drop ev.udata l)
  | inr e ↦ elim (Bool-cases ev.ev_eof) [
    | inl f ↦ rw (e, f) (settings-drop ev.udata l)
    | inr f ↦ rw (e, f) (settings-deliver ev.udata env l)
  ]
]

settings-dispatch_all :
    (evs : List (Event × Env)) (l : EventLoop) → settings (dispatch_all evs l) ≡ settings l
unfolding dispatch_all
settings-dispatch_all [] l = refl
settings-dispatch_all ((ev, env) ∷ evs) l =
    settings-dispatch_all evs (dispatch ev env l) ∙ settings-dispatch ev env l

settings-loop :
    (running : Bool) (rs : List Round) (l : EventLoop) → settings (loop running rs l) ≡ settings l
unfolding loop
settings-loop false rs l = refl
settings-loop true [] l = refl
settings-loop true ((interrupted, ss) ∷ rs) l = settings-loop (on_signals ss true) rs (submit l)
settings-loop true ((failed, ss) ∷ rs) l = refl
settings-loop true ((events evs, ss) ∷ rs) l =
    settings-loop (on_signals ss true) rs (dispatch_all evs (submit l))
    ∙ settings-dispatch_all evs (submit l)

pub settings-run : (rs : List Round) (l : EventLoop) → settings (run rs l) ≡ settings l
unfolding run
settings-run rs l = settings-loop true rs l
