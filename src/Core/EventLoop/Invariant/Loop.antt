-- ===== src/Core/EventLoop/Invariant/Loop.antt =====
-- The pool and the list of idle connections together, across the creation and the end of a
-- connection.
use file_web_server.Base.{
  Option, ℕ, true, false, ◌≡◌, ◌⊎◌, refl, sym, ap, ◌∙◌, inl, inr, List, [], ◌∷◌, ◌++◌, none, some,
  arith, ◌==◌, Bool-cases, Option-cases, Bytes,
}
use file_web_server.Core.Connection.{Connection, State, init, is_closed}
use file_web_server.Base.Int.{ℤ}
use file_web_server.Core.EventLoop.Invariant.{Idle, destroy-Idle}
use file_web_server.Core.EventLoop.Invariant.Event.{listed, process_connection-Idle}
use file_web_server.Core.EventLoop.KeepAlive.{Chain-frame, apart, without}
use file_web_server.Core.EventLoop.Process.{is_keep_alive, process_connection}
use file_web_server.Core.EventLoop.Slots.{Slots, contains}
use file_web_server.Core.EventLoop.Slots.Steps.{
  create_connection-Slots, process_connection-Slots, destroy-Slots,
}
use file_web_server.Core.EventLoop
use file_web_server.Core.Pool.Ownership.{new-Owns}
use file_web_server.Core.Pool.{acquire}
use file_web_server.Server.FileServer.Files.{FileSystem}
use file_web_server.Core.EventLoop.{
  Env, EventLoop, add_event, create_connection, destroy_connection, put,
}

-- The pool has lent `lent`, every other slot has a closed connection, and the list of idle
-- connections stands for `ks`, which are the slots in KEEP_ALIVE.
pub record LoopOk (l : EventLoop) (lent ks : List ℕ) : Type 0 where
  pub slots : Slots l lent
  pub idle : Idle l ks

-- A new loop has lent nothing.
pub new-LoopOk :
    (kqueue : Option ℕ) (fs : FileSystem) (root : Bytes) (timeout : ℤ)
    → LoopOk (EventLoop.new kqueue fs root timeout) [] []
unfolding EventLoop.new contains
new-LoopOk kqueue fs root timeout = record {
  slots = record { owns = new-Owns; unlent_closed = λ _ _. refl };
  idle = record {
    list = record { chain = refl; distinct = record {}; marked = λ _. refl };
    follows = λ _. refl;
  };
}

-- A slot whose connection is not closed has been lent.
pub open-lent :
    (i : ℕ) (l : EventLoop) (lent : List ℕ)
    → Slots l lent
    → is_closed (l.conns i).state ≡ false
    → contains i lent ≡ true
open-lent i l lent s h = elim (Bool-cases (contains i lent)) [
  | inl e ↦ e
  | inr e ↦ let k = s.unlent_closed i e in absurd (ground (arith, rw k at h))
]

idle-open : (s : State) → is_keep_alive s ≡ true → is_closed s ≡ false
idle-open s h = ground arith

-- The slots of the list have been lent.
pub idle-lent :
    (i : ℕ) (l : EventLoop) (lent ks : List ℕ)
    → LoopOk l lent ks
    → contains i ks ≡ true
    → contains i lent ≡ true
idle-lent i l lent ks h m =
    open-lent i l lent h.slots (idle-open (l.conns i).state (sym (h.idle.follows i) ∙ m))

pub without-split :
    (i : ℕ) (js : List ℕ)
    → contains i js ≡ true
    → (before : List ℕ) × (after : List ℕ) × (js ≡ before ++ i ∷ after)
      × (without i js ≡ before ++ after)
unfolding contains
without-split i [] h = absurd (ground arith)
without-split i (j ∷ js) h = elim (Bool-cases (i == j)) [
  | inl e ↦ let k : i ≡ j = ground arith in ([], js, rw k refl, rw e refl)
  | inr e ↦
      let (before, after, s, w) = without-split i js (rw e at h) in
      (j ∷ before, after, ap (λ z. j ∷ z) s, rw e (ap (λ z. j ∷ z) w))
]

-- Destroying a connection gives its slot back and takes it out of the list.
pub destroy-LoopOk :
    (i : ℕ) (l : EventLoop) (lent ks : List ℕ)
    → contains i lent ≡ true
    → LoopOk l lent ks
    → LoopOk (destroy_connection i l) (without i lent) (without i ks)
destroy-LoopOk i l lent ks m h =
    let (before, after, e, w) = without-split i lent m in
    record {
      slots = rw w (destroy-Slots i before after l (rw e at h.slots));
      idle = destroy-Idle i l ks h.idle.list (λ j _. h.idle.follows j);
    }

-- An event of a connection keeps the invariant, or gives its slot back.
pub process_connection-LoopOk :
    (env : Env) (i : ℕ) (l : EventLoop) (lent ks : List ℕ)
    → LoopOk l lent ks
    → (lent' : List ℕ) × LoopOk
        (process_connection env i l)
        lent'
        (listed i (process_connection env i l) ks)
process_connection-LoopOk env i l lent ks h =
    let idle = process_connection-Idle env i l ks h.idle in
    elim (process_connection-Slots env i l lent h.slots) [
      | inl s ↦ (lent, record { slots = s; idle = idle })
      | inr (before, after, _, s) ↦ (before ++ after, record { slots = s; idle = idle })
    ]

-- A new connection is in no list.
abbrev started : ℕ → ℕ → ℕ → EventLoop → Connection
started now fd i l = record (init now fd l.root_dir l.keep_alive_timeout (l.conns i)) {
  tls_available = l.has_tls;
}

started-Idle :
    (now fd i : ℕ) (l m : EventLoop) (ks : List ℕ)
    → ((j : ℕ) → m.conns j ≡ (put i (started now fd i l) l).conns j)
    → m.keepalive_head ≡ l.keepalive_head
    → contains i ks ≡ false
    → Idle l ks
    → Idle m ks
unfolding init
started-Idle now fd i l m ks same head out h = record {
  list = record {
    chain = rw head (
        Chain-frame l.conns m.conns none l.keepalive_head ks
          (λ j w. let e = apart i j ks out w in rw (same j, e) (refl, refl)) h.list.chain);
    distinct = h.list.distinct;
    marked = λ j. elim (Bool-cases (i == j)) [
      | inl e ↦ let z : j ≡ i = ground arith in rw (same j, e, z, out) refl
      | inr e ↦ rw (same j, e) (h.list.marked j)
    ];
  };
  follows = λ j. elim (Bool-cases (i == j)) [
    | inl e ↦ let z : j ≡ i = ground arith in rw (same j, e, z, out) refl
    | inr e ↦ rw (same j, e) (h.follows j)
  ];
}

create_connection-Idle :
    (now fd i : ℕ) (l : EventLoop) (ks : List ℕ)
    → (create_connection now fd l).0 ≡ some i
    → contains i ks ≡ false
    → Idle l ks
    → Idle (create_connection now fd l).1 ks
unfolding create_connection add_event
create_connection-Idle now fd i l ks taken out h = elim (Option-cases (acquire l.pool).0) [
  | inl e ↦ absurd (ground (arith, rw (create_connection, e) at taken))
  | inr (j, e) ↦
      let z : some j ≡ some i = rw (create_connection, e) at taken in
      let z' : j ≡ i = ground arith in
      rw (create_connection, e) (started-Idle now fd j l _ ks (λ k. refl) refl (rw z' out) h)
]

-- A new connection keeps the invariant: it is in no list.
pub create_connection-LoopOk :
    (now fd : ℕ) (l : EventLoop) (lent ks : List ℕ)
    → LoopOk l lent ks
    → (create_connection now fd l ≡ (none, l))
      ⊎ ((i : ℕ) × (contains i lent ≡ false)
          × ((create_connection now fd l).0 ≡ some i)
          × LoopOk (create_connection now fd l).1 (i ∷ lent) ks)
create_connection-LoopOk now fd l lent ks h = elim (create_connection-Slots now fd l lent h.slots) [
  | inl e ↦ inl e
  | inr (i, m, e, s) ↦
      let out = h.idle.follows i ∙ ap is_keep_alive (h.slots.unlent_closed i m) in
      inr (i, m, e, record { slots = s; idle = create_connection-Idle now fd i l ks e out h.idle })
]
