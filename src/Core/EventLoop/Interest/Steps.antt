-- ===== src/Core/EventLoop/Interest/Steps.antt =====
-- The steps that write connections and changes.
use file_web_server.Base.{
  ℕ, false, ◌≡◌, ◌≢◌, refl, ap, inl, inr, List, ◌++◌, some, arith, ◌==◌, Bool-cases, Option-cases,
}
use file_web_server.Core.Connection.Sockets.{IsOpen, Keeps}
use file_web_server.Core.Connection.{Connection, State, Want, is_closed, nothing, read, write}
use file_web_server.Core.EventLoop.Fields.{remove-keeps}
use file_web_server.Core.EventLoop.Interest.Changes.{
  both, both-elsewhere, both-read, both-timer, both-write,
}
use file_web_server.Core.EventLoop.Interest.{
  HasSocket, Interest, fewer-Interest, Touched-Interest, Watched, frame-Interest, socket_of,
}
use file_web_server.Core.EventLoop.Process.Turn.{sync-keeps}
use file_web_server.Core.EventLoop.Process.{sync_keepalive}
use file_web_server.Core.EventLoop.Settings.{settings-remove, settings-sync}
use file_web_server.Core.EventLoop.{
  Action, Udata, Change, EventLoop, add, add_event, add_to_keepalive_list, connection, delete, null,
  put, remove_from_keepalive_list, set_next, set_prev, update_events,
}

abbrev changes : EventLoop → List Change × List Change
changes l = (l.submitted, l.changelist)

changes-remove : (i : ℕ) (l : EventLoop) → changes (remove_from_keepalive_list i l) ≡ changes l
unfolding remove_from_keepalive_list set_next set_prev
changes-remove i l = ground arith

changes-add : (i : ℕ) (l : EventLoop) → changes (add_to_keepalive_list i l) ≡ changes l
unfolding add_to_keepalive_list set_prev
changes-add i l = ground arith

changes-sync :
    (prev : State) (i : ℕ) (l : EventLoop) → changes (sync_keepalive prev i l) ≡ changes l
unfolding sync_keepalive
changes-sync prev i l = grind (arith, changes-add, changes-remove)

pub remove-Interest :
    (i : ℕ) (l : EventLoop) → Interest l → Interest (remove_from_keepalive_list i l)
remove-Interest i l =
    frame-Interest l (remove_from_keepalive_list i l)
      (λ j. remove-keeps socket_of i j l (λ c b p n. refl)) (ap (λ s. s.1) (settings-remove i l))
      (ap (λ c. c.0 ++ c.1) (changes-remove i l))

pub sync-Interest :
    (prev : State) (i : ℕ) (l : EventLoop) → Interest l → Interest (sync_keepalive prev i l)
sync-Interest prev i l =
    frame-Interest l (sync_keepalive prev i l)
      (λ j. sync-keeps socket_of prev i j l (λ c b p n. refl))
      (ap (λ s. s.1) (settings-sync prev i l)) (ap (λ c. c.0 ++ c.1) (changes-sync prev i l))

-- A socket of a connection is no other's.
pub no_other :
    (i fd : ℕ) (l : EventLoop)
    → Interest l
    → (l.conns i).fd ≡ some fd
    → (j : ℕ) → i == j ≡ false
    → (l.conns j).fd ≢ some fd
no_other i fd l h e j k f = let z : i ≡ j = h.distinct i j fd e f in absurd (ground arith)

-- Both filters are changed, and the connection is still watched.
both-Interest :
    (i fd : ℕ) (a : Action) (u : Udata) (b : Action) (v : Udata) (l : EventLoop)
    → (l.conns i).fd ≡ some fd
    → Watched (both fd a u b v l) fd i
    → Interest l
    → Interest (both fd a u b v l)
unfolding add_event
both-Interest i fd a u b v l e w h =
    Touched-Interest i fd l (both fd a u b v l)
      (record {
        others = λ j k. refl;
        free = no_other i fd l h e;
        no_listener = h.aside i fd e;
        listener = refl;
        elsewhere = both-elsewhere fd a u b v l;
        timer = both-timer fd a u b v l 1;
        own = λ f k. let z : f ≡ fd = ground arith in (z, rw z w);
        ended = h.alive i;
      })
      h

update-open :
    (i fd : ℕ) (want : Want) (l : EventLoop)
    → (l.conns i).fd ≡ some fd
    → is_closed (l.conns i).state ≡ false
    → Interest l
    → Interest (update_events i want l)
unfolding update_events
update-open i fd nothing l e k h = rw (update_events, e, k) h
update-open i fd read l e k h =
    let on = both-read fd add (connection i) delete null l in
    rw (update_events, e, k) (both-Interest i fd add (connection i) delete null l e (inl on) h)
update-open i fd write l e k h =
    let on = both-write fd delete null add (connection i) l in
    rw (update_events, e, k) (both-Interest i fd delete null add (connection i) l e (inr on) h)

pub update-Interest :
    (i : ℕ) (want : Want) (l : EventLoop) → Interest l → Interest (update_events i want l)
unfolding update_events
update-Interest i want l h = elim (Option-cases (l.conns i).fd) [
  | inl e ↦ rw (update_events, e) h
  | inr (fd, e) ↦ elim (Bool-cases (is_closed (l.conns i).state)) [
    | inl k ↦ rw (update_events, e, k) h
    | inr k ↦ update-open i fd want l e k h
  ]
]

-- A connection that keeps its socket, or has none.
pub narrowed-Interest :
    (i : ℕ) (d : Connection) (l : EventLoop)
    → ((fd : ℕ) → d.fd ≡ some fd → (l.conns i).fd ≡ some fd)
    → HasSocket d
    → Interest l
    → Interest (put i d l)
narrowed-Interest i d l had alive h =
    fewer-Interest l (put i d l)
      (λ j fd e. elim (Bool-cases (i == j)) [
        | inl k ↦ let z : j ≡ i = ground arith in rw z (had fd (rw k at e))
        | inr k ↦ rw k at e
      ])
      (λ j. elim (Bool-cases (i == j)) [ inl k ↦ rw k alive | inr k ↦ rw k (h.alive j) ]) refl refl
      h

-- A step of an open connection.
pub put-Interest :
    (i : ℕ) (d : Connection) (l : EventLoop)
    → IsOpen (l.conns i)
    → Keeps (l.conns i) d
    → Interest l
    → Interest (put i d l)
put-Interest i d l o k h =
    let was = h.alive i in narrowed-Interest i d l (λ fd e. ground arith) (ground arith) h
