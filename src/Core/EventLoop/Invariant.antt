-- ===== src/Core/EventLoop/Invariant.antt =====
-- What holds of the loop between two events: the pool, the states and the list of idle connections
-- agree.
pub mod Event
pub mod Loop
pub mod Expiry
pub mod Timer
pub mod Run
mod Tests
use file_web_server.Base.{
  ℕ, Bool, true, false, not, ◌||◌, ◌≡◌, ◌≢◌, ◌⊎◌, refl, sym, ap, ◌∙◌, inl, inr, List, [], ◌∷◌, ◌++◌,
  Option, none, some, arith, ◌==◌, if◌then◌else◌, Bool-cases, Option-cases,
}
use file_web_server.Core.Connection.{Connection, State, Want, closed, is_closed, close}
use file_web_server.Core.Connection.Delivery.{close-closed}
use file_web_server.Core.Connection.Links.{Links, links, links-close}
use file_web_server.Core.EventLoop.KeepAlive.Operations.{KeepList}
use file_web_server.Core.EventLoop.Fields.{put-keeps}
use file_web_server.Core.EventLoop.KeepAlive.Refinement.{
  add-KeepList, remove-KeepList, with_first, contains-cons, contains-without, without-absent,
}
use file_web_server.Core.EventLoop.KeepAlive.{Chain-frame, Distinct, without}
use file_web_server.Core.EventLoop.Process.{is_keep_alive, sync_keepalive}
use file_web_server.Core.EventLoop.Slots.{Slots, contains, add-state, remove-state}
use file_web_server.Core.EventLoop.Slots.Steps.{
  delete_events-conns, destroy-Slots, destroy_others, destroyed, sync-state,
}
use file_web_server.Core.EventLoop.{
  EventLoop, add_to_keepalive_list, delete_events, destroy_connection, put,
  remove_from_keepalive_list,
}

-- A connection is in the list exactly when its state is KEEP_ALIVE.
pub record Idle (l : EventLoop) (ks : List ℕ) : Type 0 where
  pub list : KeepList l ks
  pub follows : (j : ℕ) → contains j ks ≡ is_keep_alive (l.conns j).state

-- The same of all connections but one, whose event is being handled.
abbrev pub FollowsBut : ℕ → EventLoop → List ℕ → Type 0
FollowsBut i l ks = (j : ℕ) → i == j ≡ false → contains j ks ≡ is_keep_alive (l.conns j).state

-- The list depends on its head and the links of the connections only.
pub KeepList-frame :
    (l m : EventLoop) (ks : List ℕ)
    → ((j : ℕ) → links (m.conns j) ≡ links (l.conns j))
    → m.keepalive_head ≡ l.keepalive_head
    → KeepList l ks
    → KeepList m ks
KeepList-frame l m ks same head h = record {
  chain = rw head (
      Chain-frame l.conns m.conns none l.keepalive_head ks
        (λ j _. (ap (λ x. x.1) (same j), ap (λ x. x.2) (same j))) h.chain);
  distinct = h.distinct;
  marked = λ j. ap (λ x. x.0) (same j) ∙ h.marked j;
}

pub put-KeepList :
    (i : ℕ) (c : Connection) (l : EventLoop) (ks : List ℕ)
    → links c ≡ links (l.conns i)
    → KeepList l ks
    → KeepList (put i c l) ks
put-KeepList i c l ks e = KeepList-frame l (put i c l) ks (λ j. put-keeps links i c l j e) refl

delete_events-head :
    (fd : Option ℕ) (l : EventLoop) → (delete_events fd l).keepalive_head ≡ l.keepalive_head
unfolding delete_events
delete_events-head none l = refl
delete_events-head (some fd) l = refl

-- Destroying a connection takes its slot out of the list.
destroy-KeepList :
    (i : ℕ) (l : EventLoop) (ks : List ℕ)
    → KeepList l ks
    → KeepList (destroy_connection i l) (without i ks)
unfolding destroy_connection
destroy-KeepList i l ks h =
    let u = remove_from_keepalive_list i l in
    let d = delete_events (u.conns i).fd u in
    KeepList-frame u (destroy_connection i l) (without i ks)
      (λ j.
        put-keeps links i (close (d.conns i)) d j (links-close (d.conns i))
        ∙ ap (λ f. links (f j)) (delete_events-conns (u.conns i).fd u))
      (delete_events-head (u.conns i).fd u) (remove-KeepList i l ks h)

pub destroy-Idle :
    (i : ℕ) (l : EventLoop) (ks : List ℕ)
    → KeepList l ks
    → FollowsBut i l ks
    → Idle (destroy_connection i l) (without i ks)
destroy-Idle i l ks h others = record {
  list = destroy-KeepList i l ks h;
  follows = λ j. contains-without i j ks h.distinct ∙ elim (Bool-cases (i == j)) [
    | inl e ↦ let z : j ≡ i = ground arith in rw (e, z, destroyed i l) refl
    | inr e ↦ rw (e, destroy_others i j l e) (others j e)
  ];
}

-- Where a slot goes in the list when its connection comes out of an event.
abbrev pub place : Bool → ℕ → List ℕ → List ℕ
place true = with_first
place false = without

-- Given that the connection was in the list if its state before was KEEP_ALIVE, the list follows
-- its state now.
pub sync-KeepList :
    (prev : State) (i : ℕ) (l : EventLoop) (ks : List ℕ)
    → contains i ks ≡ is_keep_alive prev
    → KeepList l ks
    → KeepList (sync_keepalive prev i l) (place (is_keep_alive (l.conns i).state) i ks)
unfolding sync_keepalive
sync-KeepList prev i l ks was h = elim (Bool-cases (is_keep_alive prev)) [
  | inl e ↦ elim (Bool-cases (is_keep_alive (l.conns i).state)) [
    | inl f ↦ let within : contains i ks ≡ true = was ∙ e in rw (e, f, within) h
    | inr f ↦ rw (e, f) (remove-KeepList i l ks h)
  ]
  | inr e ↦ elim (Bool-cases (is_keep_alive (l.conns i).state)) [
    | inl f ↦ rw (e, f) (add-KeepList i l ks h)
    | inr f ↦ rw (e, f, without-absent i ks (was ∙ e)) h
  ]
]

contains-with_first :
    (i j : ℕ) (ks : List ℕ)
    → contains j (with_first i ks) ≡ (if i == j then true else contains j ks)
unfolding contains
contains-with_first i j ks = elim (Bool-cases (contains i ks)) [
  | inr e ↦ rw e (sym (contains-cons i j ks))
  | inl e ↦ rw e (elim (Bool-cases (i == j)) [
    | inl f ↦ let z : i ≡ j = ground arith in rw f (rw z at e)
    | inr f ↦ rw f refl
  ])
]

contains-place :
    (b : Bool) (i j : ℕ) (ks : List ℕ)
    → Distinct ks
    → contains j (place b i ks) ≡ (if i == j then b else contains j ks)
contains-place true i j ks u = contains-with_first i j ks
contains-place false i j ks u = contains-without i j ks u

-- The loop after an event of slot `i`, where the list has been brought up to date.
pub sync-Idle :
    (prev : State) (i : ℕ) (l : EventLoop) (ks : List ℕ)
    → contains i ks ≡ is_keep_alive prev
    → KeepList l ks
    → FollowsBut i l ks
    → Idle (sync_keepalive prev i l) (place (is_keep_alive (l.conns i).state) i ks)
sync-Idle prev i l ks was h others = record {
  list = sync-KeepList prev i l ks was h;
  follows = λ j.
      contains-place (is_keep_alive (l.conns i).state) i j ks h.distinct
      ∙ elim (Bool-cases (i == j)) [
        | inl e ↦ let z : j ≡ i = ground arith in rw (e, sync-state prev i j l, z) refl
        | inr e ↦ rw (e, sync-state prev i j l) (others j e)
      ];
}
