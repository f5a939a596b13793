-- ===== src/Core/EventLoop/Interest.antt =====
-- The changes handed to kqueue, and the sockets they are about.
pub mod Turn
pub mod Changes
pub mod Steps
pub mod Lifetime
pub mod Run
mod Tests
use file_web_server.Base.{
  ℕ, Bool, true, false, not, is_some, ◌&&◌, ◌≡◌, ◌≢◌, ◌⊎◌, refl, sym, ap, ◌∙◌, inl, inr, List, [],
  ◌∷◌, ◌++◌, Option, none, some, arith, ◌==◌, if◌then◌else◌, Bool-cases, append_assoc,
}
use file_web_server.Core.Connection.{Connection, State, is_closed}
use file_web_server.Core.EventLoop.{
  Action, Change, EventLoop, Filter, Udata, add, add_clear, add_event, connection, delete,
  evfilt_read, evfilt_timer, evfilt_write, listener_tag, put, timer_tag,
}

abbrev pub same_filter : Filter → Filter → Bool
same_filter evfilt_read evfilt_read = true
same_filter evfilt_write evfilt_write = true
same_filter evfilt_timer evfilt_timer = true
same_filter _ _ = false

-- What EV_ADD and EV_DELETE leave at their identifier and filter.
abbrev pub outcome : Action → Udata → Option Udata
outcome delete u = none
outcome _ u = some u

-- What a queue holds at an identifier and a filter after a list of changes, from what it held
-- before.
unfoldable pub held : List Change → ℕ → Filter → Option Udata → Option Udata
held [] ident filter u = u
held (c ∷ cs) ident filter u =
    held cs ident filter
      (if same_filter c.filter filter && c.ident == ident then outcome c.action c.udata else u)

pub held-append :
    (cs ds : List Change) (ident : ℕ) (filter : Filter) (u : Option Udata)
    → held (cs ++ ds) ident filter u ≡ held ds ident filter (held cs ident filter u)
unfolding held
held-append [] ds ident filter u = refl
held-append (c ∷ cs) ds ident filter u = held-append cs ds ident filter _

-- What the queue of a loop holds, once it has taken the changes that wait in the change list.
abbrev pub registered : EventLoop → ℕ → Filter → Option Udata
registered l ident filter = held (l.submitted ++ l.changelist) ident filter none

pub registered-add_event :
    (ident : ℕ) (filter : Filter) (action : Action) (u : Udata) (l : EventLoop) (id : ℕ)
    (fl : Filter)
    → registered (add_event ident filter action u l) id fl
      ≡ (if same_filter filter fl && ident == id then outcome action u else registered l id fl)
unfolding add_event held
registered-add_event ident filter action u l id fl =
    ap (λ cs. held cs id fl none) (sym (append_assoc l.submitted l.changelist _))
    ∙ held-append (l.submitted ++ l.changelist) _ id fl none

-- The socket is registered for reading or for writing, for the connection of a slot.
abbrev pub Watched : EventLoop → ℕ → ℕ → Type 0
Watched l fd i =
    (registered l fd evfilt_read ≡ some (connection i))
    ⊎ (registered l fd evfilt_write ≡ some (connection i))

-- A connection has a socket exactly if it is open.
abbrev pub HasSocket : Connection → Type 0
HasSocket c = is_some c.fd ≡ not (is_closed c.state)

-- The open connections have sockets, which differ from each other and from that of the listener, and
-- each socket, the listener and the timer are registered for whom they belong to.
pub record Interest (l : EventLoop) : Type 0 where
  pub alive : (i : ℕ) → HasSocket (l.conns i)
  pub distinct : (i j fd : ℕ) → (l.conns i).fd ≡ some fd → (l.conns j).fd ≡ some fd → i ≡ j
  pub aside : (i fd : ℕ) → (l.conns i).fd ≡ some fd → l.listen_fd ≢ some fd
  pub watched : (i fd : ℕ) → (l.conns i).fd ≡ some fd → Watched l fd i
  pub listening : (fd : ℕ) → l.listen_fd ≡ some fd → registered l fd evfilt_read ≡ some listener_tag
  pub ticking : registered l 1 evfilt_timer ≡ some timer_tag

abbrev pub socket_of : Connection → Option ℕ × State
socket_of c = (c.fd, c.state)

-- Connections may lose their sockets.
pub fewer-Interest :
    (l m : EventLoop)
    → ((j fd : ℕ) → (m.conns j).fd ≡ some fd → (l.conns j).fd ≡ some fd)
    → ((j : ℕ) → HasSocket (m.conns j))
    → m.listen_fd ≡ l.listen_fd
    → m.submitted ++ m.changelist ≡ l.submitted ++ l.changelist
    → Interest l
    → Interest m
fewer-Interest l m had alive listener changes h = record {
  alive = alive;
  distinct = λ i j fd a b. h.distinct i j fd (had i fd a) (had j fd b);
  aside = λ i fd a e. h.aside i fd (had i fd a) (sym listener ∙ e);
  watched = λ i fd a. rw changes (h.watched i fd (had i fd a));
  listening = λ fd e. rw changes (h.listening fd (sym listener ∙ e));
  ticking = rw changes h.ticking;
}

-- It depends on the sockets, the states, the listener and the changes only.
pub frame-Interest :
    (l m : EventLoop)
    → ((j : ℕ) → socket_of (m.conns j) ≡ socket_of (l.conns j))
    → m.listen_fd ≡ l.listen_fd
    → m.submitted ++ m.changelist ≡ l.submitted ++ l.changelist
    → Interest l
    → Interest m
frame-Interest l m same listener changes h =
    fewer-Interest l m (λ j fd e. sym (ap (λ x. x.0) (same j)) ∙ e)
      (λ j.
        ap (λ x. is_some x.0) (same j) ∙ h.alive j ∙ ap (λ x. not (is_closed x.1)) (sym (same j)))
      listener changes h

-- A step that is about one slot and one socket, which is no other's.
pub record Touched (i fd : ℕ) (l m : EventLoop) : Type 0 where
  pub others : (j : ℕ) → i == j ≡ false → socket_of (m.conns j) ≡ socket_of (l.conns j)
  pub free : (j : ℕ) → i == j ≡ false → (l.conns j).fd ≢ some fd
  pub no_listener : l.listen_fd ≢ some fd
  pub listener : m.listen_fd ≡ l.listen_fd
  pub elsewhere :
      (id : ℕ) (fl : Filter) → fd == id ≡ false → registered m id fl ≡ registered l id fl
  pub timer : registered m 1 evfilt_timer ≡ registered l 1 evfilt_timer
  pub own : (f : ℕ) → (m.conns i).fd ≡ some f → (f ≡ fd) × Watched m f i
  pub ended : HasSocket (m.conns i)

same-Watched :
    (i fd : ℕ) (l m : EventLoop)
    → ((fl : Filter) → registered m fd fl ≡ registered l fd fl)
    → Watched l fd i
    → Watched m fd i
same-Watched i fd l m same (inl e) = inl (same evfilt_read ∙ e)
same-Watched i fd l m same (inr e) = inr (same evfilt_write ∙ e)

-- Another socket than that of the step.
elsewhere-of : (fd f : ℕ) (x : Option ℕ) → x ≢ some fd → x ≡ some f → fd == f ≡ false
elsewhere-of fd f x h e = elim (Bool-cases (fd == f)) [
  | inl k ↦ let z : f ≡ fd = ground arith in absurd (h (e ∙ ap some z))
  | inr k ↦ k
]

-- The slot of the step, or another one as it was.
slot-cases :
    (i fd j : ℕ) (l m : EventLoop)
    → Touched i fd l m
    → (i ≡ j) ⊎ ((i == j ≡ false) × ((m.conns j).fd ≡ (l.conns j).fd))
slot-cases i fd j l m t = elim (Bool-cases (i == j)) [
  | inl e ↦ inl (ground arith)
  | inr e ↦ inr (e, ap (λ x. x.0) (t.others j e))
]

Touched-distinct :
    (i fd : ℕ) (l m : EventLoop)
    → Touched i fd l m
    → Interest l
    → (a b f : ℕ) → (m.conns a).fd ≡ some f
    → (m.conns b).fd ≡ some f
    → a ≡ b
Touched-distinct i fd l m t h a b f p q = elim (slot-cases i fd a l m t) [
  | inl z ↦ elim (slot-cases i fd b l m t) [
    | inl y ↦ sym z ∙ y
    | inr (e, same) ↦
        let (here, _) = t.own f (ap (λ x. (m.conns x).fd) z ∙ p) in
        absurd (t.free b e (sym same ∙ q ∙ ap some here))
  ]
  | inr (e, same) ↦ elim (slot-cases i fd b l m t) [
    | inl y ↦
        let (here, _) = t.own f (ap (λ x. (m.conns x).fd) y ∙ q) in
        absurd (t.free a e (sym same ∙ p ∙ ap some here))
    | inr (_, same') ↦ h.distinct a b f (sym same ∙ p) (sym same' ∙ q)
  ]
]

pub Touched-Interest : (i fd : ℕ) (l m : EventLoop) → Touched i fd l m → Interest l → Interest m
Touched-Interest i fd l m t h = record {
  alive = λ j. elim (Bool-cases (i == j)) [
    | inl k ↦ let z : i ≡ j = ground arith in rw z at t.ended
    | inr k ↦
        ap (λ x. is_some x.0) (t.others j k)
        ∙ h.alive j
        ∙ ap (λ x. not (is_closed x.1)) (sym (t.others j k))
  ];
  distinct = Touched-distinct i fd l m t h;
  aside = λ j f e. elim (slot-cases i fd j l m t) [
    | inl z ↦
        let (here, _) = t.own f (ap (λ x. (m.conns x).fd) z ∙ e) in
        λ k. t.no_listener (sym t.listener ∙ k ∙ ap some here)
    | inr (_, same) ↦ λ k. h.aside j f (sym same ∙ e) (sym t.listener ∙ k)
  ];
  watched = λ j f e. elim (slot-cases i fd j l m t) [
    | inl z ↦ let (_, w) = t.own f (ap (λ x. (m.conns x).fd) z ∙ e) in rw z at w
    | inr (k, same) ↦
        let was = sym same ∙ e in
        let apart = elsewhere-of fd f (l.conns j).fd (t.free j k) was in
        same-Watched j f l m (λ fl. t.elsewhere f fl apart) (h.watched j f was)
  ];
  listening = λ f e.
      let was = sym t.listener ∙ e in
      t.elsewhere f evfilt_read (elsewhere-of fd f l.listen_fd t.no_listener was)
      ∙ h.listening f was;
  ticking = t.timer ∙ h.ticking;
}
