-- ===== src/Core/EventLoop/Interest/Lifetime.antt =====
-- The beginning and the end of a connection.
use file_web_server.Base.{
  take, zero, suc, ◌≤◌, is_some, ℕ, true, ◌≡◌, ◌≢◌, refl, ◌∙◌, inl, inr, [], ap, none, some, arith,
  ◌==◌, Bool-cases, Option-cases,
}
use file_web_server.Core.Connection.Sockets.{fd-close}
use file_web_server.Core.Connection.{Connection, fresh, close, init, is_closed}
use file_web_server.Core.Connection.Delivery.{close-closed}
use file_web_server.Core.EventLoop.Interest.Changes.{
  add-elsewhere, add-timer, both, both-elsewhere, both-timer,
}
use file_web_server.Core.EventLoop.Interest.{
  HasSocket, Interest, held, Touched-Interest, frame-Interest, registered, registered-add_event,
}
use file_web_server.Core.EventLoop.{
  Change, EventLoop, add, add_event, add_listener, flush_changelist, connection, create_connection,
  delete, delete_events, destroy_connection, evfilt_read, null, put, remove_from_keepalive_list,
}
use file_web_server.Core.EventLoop.Interest.Steps.{narrowed-Interest, no_other, remove-Interest}
use file_web_server.Core.Pool.{acquire, release}

closed-socket : (c : Connection) → HasSocket c → (close c).fd ≡ none
unfolding close
closed-socket c h = elim (Bool-cases (is_closed c.state)) [
  | inl e ↦ rw (close, e) (ground arith)
  | inr e ↦ fd-close c e
]

closed-HasSocket : (c : Connection) → HasSocket c → HasSocket (close c)
closed-HasSocket c h = rw (closed-socket c h, close-closed c) refl

-- The end of a connection, once it is out of the keep-alive list.
abbrev ended : ℕ → EventLoop → EventLoop
ended i u =
    let dropped = delete_events (u.conns i).fd u in
    let d = put i (close (dropped.conns i)) dropped in record d { pool = release d.pool i }

ended-Interest : (i : ℕ) (u : EventLoop) → Interest u → Interest (ended i u)
unfolding delete_events add_event
ended-Interest i u h = elim (Option-cases (u.conns i).fd) [
  | inl e ↦
      let gone = closed-socket (u.conns i) (h.alive i) in
      let there =
        narrowed-Interest i (close (u.conns i)) u (λ fd k. absurd (ground (arith, gone)))
          (closed-HasSocket (u.conns i) (h.alive i)) h in
      rw e (
        frame-Interest (put i (close (u.conns i)) u)
          (record (put i (close (u.conns i)) u) { pool = release u.pool i }) (λ j. refl) refl refl
          there)
  | inr (fd, e) ↦
      let gone = closed-socket (u.conns i) (h.alive i) in
      let here : i == i ≡ true = ground arith in
      let m : EventLoop = record (put i (close (u.conns i)) (both fd delete null delete null u)) {
        pool = release u.pool i;
      } in
      rw e (
        Touched-Interest i fd u m
          (record {
            others = λ j k. rw k refl;
            free = no_other i fd u h e;
            no_listener = h.aside i fd e;
            listener = refl;
            elsewhere = both-elsewhere fd delete null delete null u;
            timer = both-timer fd delete null delete null u 1;
            own = λ f k.
                let clash : (close (u.conns i)).fd ≡ some f = rw here at k in absurd (ground arith);
            ended = rw here (closed-HasSocket (u.conns i) (h.alive i));
          })
          h)
]

pub destroy-Interest : (i : ℕ) (l : EventLoop) → Interest l → Interest (destroy_connection i l)
unfolding destroy_connection
destroy-Interest i l h = ended-Interest i (remove_from_keepalive_list i l) (remove-Interest i l h)

-- A socket of no connection, and not that of the listener.
abbrev pub FreeSocket : ℕ → EventLoop → Type 0
FreeSocket fd l = ((j : ℕ) → (l.conns j).fd ≢ some fd) × (l.listen_fd ≢ some fd)

pub create-Interest :
    (now fd : ℕ) (l : EventLoop)
    → FreeSocket fd l
    → Interest l
    → Interest (create_connection now fd l).1
unfolding create_connection init add_event
create-Interest now fd l (free, no_listener) h = elim (Option-cases (acquire l.pool).0) [
  | inl e ↦ rw (create_connection, e) h
  | inr (i, e) ↦
      let here : i == i ≡ true = ground arith in
      let at : fd == fd ≡ true = ground arith in
      let n =
        put i
          (record (init now fd l.root_dir l.keep_alive_timeout (l.conns i)) {
            tls_available = l.has_tls;
          })
          (record l { pool = (acquire l.pool).1 }) in
      let m = add_event fd evfilt_read add (connection i) n in
      let on : registered m fd evfilt_read ≡ some (connection i) =
        registered-add_event fd evfilt_read add (connection i) n fd evfilt_read ∙ rw at refl in
      rw (create_connection, e)
        (Touched-Interest i fd l m
          (record {
            others = λ j k. rw k refl;
            free = λ j _. free j;
            no_listener = no_listener;
            listener = refl;
            elsewhere = add-elsewhere fd evfilt_read add (connection i) n;
            timer = add-timer fd evfilt_read add (connection i) n 1 refl;
            own = λ f k.
                let z : some fd ≡ some f = rw here at k in
                let y : f ≡ fd = ground arith in (y, rw y (inl on));
            ended = rw here refl;
          })
          h)
]

take_nothing : (n : ℕ) → take {A = Change} n [] ≡ []
take_nothing zero = refl
take_nothing (suc n) = refl

-- A loop without connections that has got its listener.
pub listener-Interest :
    (applied fd : ℕ) (l : EventLoop)
    → ((j : ℕ) → l.conns j ≡ fresh)
    → l.submitted ≡ []
    → l.changelist ≡ []
    → is_some l.kq ≡ true
    → 2 ≤ applied
    → Interest (add_listener applied fd l)
unfolding add_listener add_event flush_changelist held
listener-Interest zero fd l none_yet nothing_sent nothing_waits opened enough = absurd (omega arith)
listener-Interest (suc zero) fd l none_yet nothing_sent nothing_waits opened enough =
    absurd (omega arith)
listener-Interest (suc (suc applied)) fd l none_yet nothing_sent nothing_waits opened enough =
    let no_socket : (j f : ℕ) → (l.conns j).fd ≢ some f =
      λ j f e. let z = ap (λ c. c.fd) (none_yet j) in absurd (ground arith) in
    record {
      alive = λ j. rw (none_yet j) refl;
      distinct = λ i j f e _. absurd (no_socket i f e);
      aside = λ i f e. absurd (no_socket i f e);
      watched = λ i f e. absurd (no_socket i f e);
      listening = λ f e.
          let here : fd == f ≡ true = ground arith in
          rw (nothing_sent, nothing_waits, opened, here) (rw (take_nothing applied) refl);
      ticking = rw (nothing_sent, nothing_waits, opened) (rw (take_nothing applied) refl);
    }
