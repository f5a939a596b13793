-- ===== src/Core/EventLoop/Slots/Steps.antt =====
-- The slots across `destroy_connection`, `create_connection` and `process_connection`.
use mathlib.Core.List.{Mem, mem-cons_self, mem-append_right}
use file_web_server.Base.{
  ℕ, true, false, ◌≡◌, ◌⊎◌, refl, sym, ap, ◌∙◌, inl, inr, List, ◌∷◌, ◌++◌, Option, none, some,
  arith, ◌==◌, Bool-cases,
}
use file_web_server.Core.Connection.{Connection, State, Want, closed, is_closed}
use file_web_server.Core.Connection.Delivery.{close-closed}
use file_web_server.Core.EventLoop.Process.{
  finish_event, process_connection, sync_keepalive, respond, inline_parse, start_tls, run_state,
}
use file_web_server.Core.EventLoop.Slots.{
  Slots, contains, contains-split, contains-without, remove-state, remove-pool, add-state, add-pool,
}
use file_web_server.Core.EventLoop.{
  Env, EventLoop, put, remove_from_keepalive_list, update_events, delete_events, destroy_connection,
  create_connection,
}
use file_web_server.Core.Pool.Ownership.{release-Owns, acquire-Owns}
use file_web_server.Core.Pool.{release}

pub delete_events-conns : (fd : Option ℕ) (l : EventLoop) → (delete_events fd l).conns ≡ l.conns
unfolding delete_events
delete_events-conns none l = refl
delete_events-conns (some fd) l = refl

delete_events-pool : (fd : Option ℕ) (l : EventLoop) → (delete_events fd l).pool ≡ l.pool
unfolding delete_events
delete_events-pool none l = refl
delete_events-pool (some fd) l = refl

pub destroy-pool : (i : ℕ) (l : EventLoop) → (destroy_connection i l).pool ≡ release l.pool i
unfolding destroy_connection
destroy-pool i l =
    let u = remove_from_keepalive_list i l in
    ap (λ p. release p i) (delete_events-pool (u.conns i).fd u ∙ remove-pool i l)

pub destroyed : (i : ℕ) (l : EventLoop) → ((destroy_connection i l).conns i).state ≡ closed
unfolding destroy_connection
destroyed i l =
    let u = remove_from_keepalive_list i l in
    let here : i == i ≡ true = ground arith in
    rw here (close-closed ((delete_events (u.conns i).fd u).conns i))

pub destroy_others :
    (i j : ℕ) (l : EventLoop)
    → i == j ≡ false
    → ((destroy_connection i l).conns j).state ≡ (l.conns j).state
unfolding destroy_connection
destroy_others i j l e =
    let u = remove_from_keepalive_list i l in
    rw e (ap (λ f. (f j).state) (delete_events-conns (u.conns i).fd u) ∙ remove-state i j l)

-- If the pool has lent a list of slots and every other slot has a closed connection, destroying a
-- connection whose slot is lent keeps this, with that slot no longer lent.
pub destroy-Slots :
    (i : ℕ) (before after : List ℕ) (l : EventLoop)
    → Slots l (before ++ i ∷ after)
    → Slots (destroy_connection i l) (before ++ after)
destroy-Slots i before after l s = record {
  owns = rw (destroy-pool i l) (release-Owns l.pool before after i s.owns);
  unlent_closed = λ j h. elim (Bool-cases (i == j)) [
    | inl e ↦
        let k : i ≡ j = ground arith in
        ap (λ z. ((destroy_connection i l).conns z).state) (sym k) ∙ destroyed i l
    | inr e ↦ destroy_others i j l e ∙ s.unlent_closed j (contains-without i j before after h e)
  ];
}

pub update_events-conns : (i : ℕ) (w : Want) (l : EventLoop) → (update_events i w l).conns ≡ l.conns
unfolding update_events
update_events-conns i w l = ground arith

pub update_events-pool : (i : ℕ) (w : Want) (l : EventLoop) → (update_events i w l).pool ≡ l.pool
unfolding update_events
update_events-pool i w l = ground arith

pub sync-state :
    (s : State) (i j : ℕ) (l : EventLoop)
    → ((sync_keepalive s i l).conns j).state ≡ (l.conns j).state
unfolding sync_keepalive
sync-state s i j l = ground (arith, add-state i j l, remove-state i j l)

pub sync-pool : (s : State) (i : ℕ) (l : EventLoop) → (sync_keepalive s i l).pool ≡ l.pool
unfolding sync_keepalive
sync-pool s i l = ground (arith, add-pool i l, remove-pool i l)

pub put-Slots :
    (i : ℕ) (c : Connection) (lent : List ℕ) (l : EventLoop)
    → contains i lent ≡ true
    → Slots l lent
    → Slots (put i c l) lent
put-Slots i c lent l m s = record {
  owns = s.owns;
  unlent_closed = λ j h. elim (Bool-cases (i == j)) [
    | inl e ↦
        let k : i ≡ j = ground arith in
        let clash : contains j lent ≡ true = rw (sym k) m in absurd (ground arith)
    | inr e ↦ rw e (s.unlent_closed j h)
  ];
}

-- What an event can do to the slots: they stay, or that of its connection is given back.
abbrev pub SlotsAfter : ℕ → List ℕ → EventLoop → Type 0
SlotsAfter i lent l =
    Slots l lent
    ⊎ ((before : List ℕ) × (after : List ℕ) × (lent ≡ before ++ i ∷ after)
        × Slots l (before ++ after))

finish_event-Slots :
    (env : Env) (prev : State) (i : ℕ) (cw : Connection × Want) (l : EventLoop) (lent : List ℕ)
    → contains i lent ≡ true
    → Slots l lent
    → SlotsAfter i lent (finish_event env prev i cw l)
unfolding finish_event
finish_event-Slots env prev i (c, want) l lent m s = elim (Bool-cases (is_closed c.state)) [
  | inl e ↦
      let (before, after, k) = contains-split i lent m in
      rw e (
        inr (
          before,
          after,
          k,
          destroy-Slots i before after (put i c l) (rw k at (put-Slots i c lent l m s)),
        ))
  | inr e ↦
      let dw = respond env l.root_dir (inline_parse env (c, want)) in
      let p = put-Slots i dw.0 lent l m s in
      let q = sync_keepalive prev i (put i dw.0 l) in
      rw e (
        inl (record {
          owns = rw (update_events-pool i dw.1 q, sync-pool prev i (put i dw.0 l)) s.owns;
          unlent_closed = λ j h.
              ap (λ f. (f j).state) (update_events-conns i dw.1 q)
              ∙ sync-state prev i j (put i dw.0 l)
              ∙ p.unlent_closed j h;
        }))
]

-- If the pool has lent a list of slots and every other slot has a closed connection, one event of
-- any connection keeps this, with the same slots or without that of its own connection.
pub process_connection-Slots :
    (env : Env) (i : ℕ) (l : EventLoop) (lent : List ℕ)
    → Slots l lent
    → SlotsAfter i lent (process_connection env i l)
unfolding process_connection
process_connection-Slots env i l lent s = elim (Bool-cases (is_closed (l.conns i).state)) [
  | inl e ↦ rw e (inl s)
  | inr e ↦ elim (Bool-cases (contains i lent)) [
    | inl m ↦
        let c = l.conns i in
        rw e (
          finish_event-Slots env c.state i
            (start_tls env l.has_tls (run_state c.state env l.has_tls c)) l lent m s)
    | inr m ↦ let k = s.unlent_closed i m in absurd (ground arith)
  ]
]

pub absent-contains : (i : ℕ) (lent : List ℕ) → ¬ Mem i lent → contains i lent ≡ false
absent-contains i lent h = elim (Bool-cases (contains i lent)) [
  | inr e ↦ e
  | inl e ↦
      let (before, after, k) = contains-split i lent e in
      absurd (h (rw k (mem-append_right before mem-cons_self)))
]

-- If the pool has lent a list of slots and every other slot has a closed connection,
-- create_connection either fails and changes nothing, or it takes a slot that was not lent and
-- keeps this.
pub create_connection-Slots :
    (now fd : ℕ) (l : EventLoop) (lent : List ℕ)
    → Slots l lent
    → (create_connection now fd l ≡ (none, l))
      ⊎ ((i : ℕ) × (contains i lent ≡ false)
          × ((create_connection now fd l).0 ≡ some i)
          × Slots (create_connection now fd l).1 (i ∷ lent))
unfolding create_connection contains
create_connection-Slots now fd l lent s = elim (acquire-Owns l.pool lent s.owns) [
  | inl (_, e) ↦ inl (rw (create_connection, e) refl)
  | inr (i, unlent, e, o) ↦ inr (
    i,
    absent-contains i lent unlent,
    rw (create_connection, e) refl,
    rw (create_connection, e)
        (record {
          owns = o;
          unlent_closed = λ j h.
              let other : i == j ≡ false = ground arith in
              let was : contains j lent ≡ false = ground arith in rw other (s.unlent_closed j was);
        }),
  )
]
