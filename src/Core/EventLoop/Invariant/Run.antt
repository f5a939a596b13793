-- ===== src/Core/EventLoop/Invariant/Run.antt =====
-- `dispatch` and `run`: the invariant of the loop over every sequence of events.
use file_web_server.Core.EventLoop.Signals.{on_signals}
use file_web_server.Base.{
  Bool, ℕ, true, false, ◌||◌, ◌≡◌, refl, sym, ap, ◌∙◌, inl, inr, List, [], ◌∷◌, ◌++◌, Bool-cases,
}
use file_web_server.Core.Connection.{is_closed}
use file_web_server.Core.EventLoop.Dispatch.{
  interrupted, failed, events, accept_all, deliver, dispatch, dispatch_all, drop_connection,
  handle_accept, handle_connection_event, loop, run, submit, Round,
}
use file_web_server.Core.EventLoop.Invariant.Loop.{
  LoopOk, create_connection-LoopOk, destroy-LoopOk, open-lent, process_connection-LoopOk,
}
use file_web_server.Core.EventLoop.Invariant.Timer.{handle_timer-LoopOk}
use file_web_server.Core.EventLoop.Process.{is_keep_alive}
use file_web_server.Core.EventLoop.{
  Env, Event, EventLoop, Udata, listener_tag, timer_tag, null, connection, create_connection,
}

-- The invariant, whatever the slots.
abbrev pub IsOk : EventLoop → Type 0
IsOk l = (lent : List ℕ) × (ks : List ℕ) × LoopOk l lent ks

-- It speaks of the pool, the connections and the head of the list only.
pub frame-IsOk :
    (l m : EventLoop)
    → m.pool ≡ l.pool
    → m.conns ≡ l.conns
    → m.keepalive_head ≡ l.keepalive_head
    → IsOk l
    → IsOk m
frame-IsOk l m p c k (lent, ks, h) = (
  lent,
  ks,
  record {
    slots = record {
      owns = rw p h.slots.owns;
      unlent_closed = λ i out. ap (λ f. (f i).state) c ∙ h.slots.unlent_closed i out;
    };
    idle = record {
      list = record {
        chain = rw (c, k) h.idle.list.chain;
        distinct = h.idle.list.distinct;
        marked = λ i. ap (λ f. (f i).in_keepalive_list) c ∙ h.idle.list.marked i;
      };
      follows = λ i. h.idle.follows i ∙ ap (λ f. is_keep_alive (f i).state) (sym c);
    };
  },
)

pub accept_all-IsOk :
    (now : ℕ) (fds : List ℕ) (l : EventLoop) → IsOk l → IsOk (accept_all now fds l)
unfolding accept_all
accept_all-IsOk now [] l h = h
accept_all-IsOk now (fd ∷ fds) l (lent, ks, h) =
    elim (create_connection-LoopOk now fd l lent ks h) [
      | inl e ↦
          rw (accept_all, ap (λ x. x.0) e)
            (frame-IsOk l (record l { refused_fds = l.refused_fds ++ fd ∷ [] }) refl refl refl
              (lent, ks, h))
      | inr (i, _, e, ok) ↦
          rw (accept_all, e)
            (accept_all-IsOk now fds (create_connection now fd l).1 (i ∷ lent, ks, ok))
    ]

deliver-IsOk : (u : Udata) (env : Env) (l : EventLoop) → IsOk l → IsOk (deliver u env l)
unfolding deliver handle_accept handle_connection_event
deliver-IsOk listener_tag env l h = accept_all-IsOk env.io.clock env.accepts l h
deliver-IsOk timer_tag env l (lent, ks, h) = (_, _, handle_timer-LoopOk env l lent ks h)
deliver-IsOk null env l h = h
deliver-IsOk (connection i) env l (lent, ks, h) =
    let (lent', ok) = process_connection-LoopOk env i l lent ks h in (lent', _, ok)

-- The connection that an event names is open.
abbrev pub NamesOpen : Udata → EventLoop → Type 0
NamesOpen (connection i) l = is_closed (l.conns i).state ≡ false
NamesOpen _ l = Unit {0}

-- An error or an end of file comes for a connection that is open.
abbrev pub Live : Event → EventLoop → Type 0
Live ev l = ev.ev_error || ev.ev_eof ≡ true → NamesOpen ev.udata l

drop-IsOk : (u : Udata) (l : EventLoop) → NamesOpen u l → IsOk l → IsOk (drop_connection u l)
unfolding drop_connection
drop-IsOk listener_tag l o h = h
drop-IsOk timer_tag l o h = h
drop-IsOk null l o h = h
drop-IsOk (connection i) l o (lent, ks, h) =
    (_, _, destroy-LoopOk i l lent ks (open-lent i l lent h.slots o) h)

pub dispatch-IsOk :
    (ev : Event) (env : Env) (l : EventLoop) → Live ev l → IsOk l → IsOk (dispatch ev env l)
unfolding dispatch
dispatch-IsOk ev env l live h = elim (Bool-cases ev.ev_error) [
  | inl e ↦ rw e (drop-IsOk ev.udata l (live (rw e refl)) h)
  | inr e ↦ elim (Bool-cases ev.ev_eof) [
    | inl f ↦ rw (e, f) (drop-IsOk ev.udata l (live (rw (e, f) refl)) h)
    | inr f ↦ rw (e, f) (deliver-IsOk ev.udata env l h)
  ]
]

abbrev pub AllLive : List (Event × Env) → EventLoop → Type 0
AllLive [] l = Unit {0}
AllLive ((ev, env) ∷ evs) l = Live ev l × AllLive evs (dispatch ev env l)

pub dispatch_all-IsOk :
    (evs : List (Event × Env)) (l : EventLoop) → AllLive evs l → IsOk l → IsOk (dispatch_all evs l)
unfolding dispatch_all
dispatch_all-IsOk [] l live h = h
dispatch_all-IsOk ((ev, env) ∷ evs) l (live, rest) h =
    dispatch_all-IsOk evs (dispatch ev env l) rest (dispatch-IsOk ev env l live h)

-- The same of all that kevent returns in a run.
abbrev pub LoopLive : Bool → List Round → EventLoop → Type 0
LoopLive false rs l = Unit {0}
LoopLive true [] l = Unit {0}
LoopLive true ((interrupted, ss) ∷ rs) l = LoopLive (on_signals ss true) rs (submit l)
LoopLive true ((failed, ss) ∷ rs) l = Unit {0}
LoopLive true ((events evs, ss) ∷ rs) l =
    AllLive evs (submit l) × LoopLive (on_signals ss true) rs (dispatch_all evs (submit l))

abbrev pub RunsLive : List Round → EventLoop → Type 0
RunsLive rs l = LoopLive true rs l

pub submit-IsOk : (l : EventLoop) → IsOk l → IsOk (submit l)
submit-IsOk l h = frame-IsOk l (submit l) refl refl refl h

loop-IsOk :
    (running : Bool) (rs : List Round) (l : EventLoop)
    → LoopLive running rs l
    → IsOk l
    → IsOk (loop running rs l)
unfolding loop
loop-IsOk false rs l live h = h
loop-IsOk true [] l live h = h
loop-IsOk true ((interrupted, ss) ∷ rs) l live h =
    loop-IsOk (on_signals ss true) rs (submit l) live (submit-IsOk l h)
loop-IsOk true ((failed, ss) ∷ rs) l live h = submit-IsOk l h
loop-IsOk true ((events evs, ss) ∷ rs) l (live, rest) h =
    loop-IsOk (on_signals ss true) rs (dispatch_all evs (submit l)) rest
      (dispatch_all-IsOk evs (submit l) live (submit-IsOk l h))

-- From a loop in which the pool has lent some slots, every other slot has a closed connection, and
-- the keep-alive list stands for the slots in KEEP_ALIVE, each once: the main loop, over any
-- signals and any answers of kevent in which an error or an end of file comes for a connection
-- that is then open, ends in such a loop.
pub run-IsOk : (rs : List Round) (l : EventLoop) → RunsLive rs l → IsOk l → IsOk (run rs l)
unfolding run
run-IsOk rs l live h = loop-IsOk true rs l live h
