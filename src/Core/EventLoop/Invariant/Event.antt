-- ===== src/Core/EventLoop/Invariant/Event.antt =====
-- The list of idle connections across one event of a connection.
use file_web_server.Base.{
  ℕ, Bool, true, false, ◌≡◌, refl, sym, ap, ◌∙◌, inl, inr, List, arith, Bool-cases, Bytes,
}
use file_web_server.Core.Connection.{
  Connection, State, Want, closed, proto_detect, tls_accept, reading, parsing, sending_headers,
  sending_body, keep_alive, is_closed, reset,
}
use file_web_server.Core.Connection.Links.{
  links, links-do_read, links-do_parse, links-do_proto_detect, links-do_tls_accept,
  links-do_send_headers, links-do_send_body, links-reset,
}
use file_web_server.Core.EventLoop.Invariant.{
  Idle, FollowsBut, place, sync-Idle, destroy-Idle, put-KeepList, KeepList-frame,
}
use file_web_server.Core.EventLoop.KeepAlive.Operations.{KeepList}
use file_web_server.Core.EventLoop.KeepAlive.Refinement.{without-absent}
use file_web_server.Core.EventLoop.Process.{
  finish_event, inject, inline_parse, is_keep_alive, process_connection, respond, run_state,
  start_tls, sync_keepalive,
}
use file_web_server.Core.EventLoop.Respond.{prepare_response}
use file_web_server.Core.EventLoop.Respond.Links.{kept-prepare_response}
use file_web_server.Core.EventLoop.Slots.{contains}
use file_web_server.Core.EventLoop.Slots.Steps.{destroyed, update_events-conns, sync-state}
use file_web_server.Core.EventLoop.{Env, EventLoop, put, update_events}

links-run_state :
    (s : State) (env : Env) (has_tls : Bool) (c : Connection)
    → links (run_state s env has_tls c).0 ≡ links c
unfolding run_state
links-run_state closed env has_tls c = refl
links-run_state proto_detect env has_tls c = links-do_proto_detect env.io has_tls c
links-run_state tls_accept env has_tls c = links-do_tls_accept env.io c
links-run_state reading env has_tls c = links-do_read env.io c
links-run_state parsing env has_tls c = links-do_parse env.io c
links-run_state sending_headers env has_tls c = links-do_send_headers env.io c
links-run_state sending_body env has_tls c = links-do_send_body env.io c
links-run_state keep_alive env has_tls c = links-do_read env.io (reset c) ∙ links-reset c

links-inject :
    (env : Env) (has_tls : Bool) (c : Connection) → links (inject env has_tls c) ≡ links c
links-inject env has_tls c = ground arith

links-start_tls :
    (env : Env) (has_tls : Bool) (cw : Connection × Want)
    → links (start_tls env has_tls cw).0 ≡ links cw.0
unfolding start_tls
links-start_tls env has_tls (c, w) =
    let shaken = links-do_tls_accept env.io (inject env has_tls c) ∙ links-inject env has_tls c in
    ground (arith, shaken)

links-inline_parse :
    (env : Env) (cw : Connection × Want) → links (inline_parse env cw).0 ≡ links cw.0
unfolding inline_parse
links-inline_parse env (c, w) = let parsed = links-do_parse env.io c in ground (arith, parsed)

links-respond :
    (env : Env) (root : Bytes) (cw : Connection × Want) → links (respond env root cw).0 ≡ links cw.0
unfolding respond
links-respond env root (c, w) =
    let d = prepare_response env root c in
    let answered =
      links-do_send_headers env.io d ∙ ap (λ x. x.0) (kept-prepare_response env root c) in
    ground (arith, answered)

update_events-head :
    (i : ℕ) (w : Want) (l : EventLoop) → (update_events i w l).keepalive_head ≡ l.keepalive_head
unfolding update_events
update_events-head i w l = ground arith

update_events-Idle :
    (i : ℕ) (w : Want) (l : EventLoop) (ks : List ℕ) → Idle l ks → Idle (update_events i w l) ks
update_events-Idle i w l ks h = record {
  list =
      KeepList-frame l (update_events i w l) ks
        (λ j. ap (λ f. links (f j)) (update_events-conns i w l)) (update_events-head i w l) h.list;
  follows =
      λ j. h.follows j ∙ ap (λ f. is_keep_alive (f j).state) (sym (update_events-conns i w l));
}

-- The list after an event: newest first, without those that are not in KEEP_ALIVE.
abbrev pub listed : ℕ → EventLoop → List ℕ → List ℕ
listed i l ks = place (is_keep_alive (l.conns i).state) i ks

finish_event-Idle :
    (env : Env) (prev : State) (i : ℕ) (cw : Connection × Want) (l : EventLoop) (ks : List ℕ)
    → links cw.0 ≡ links (l.conns i)
    → contains i ks ≡ is_keep_alive prev
    → KeepList l ks
    → FollowsBut i l ks
    → Idle (finish_event env prev i cw l) (listed i (finish_event env prev i cw l) ks)
unfolding finish_event update_events
finish_event-Idle env prev i (c, want) l ks same was h others =
    elim (Bool-cases (is_closed c.state)) [
      | inl e ↦
          rw (e, destroyed i (put i c l))
            (destroy-Idle i (put i c l) ks (put-KeepList i c l ks same h)
              (λ j f. rw f (others j f)))
      | inr e ↦
          let dw = respond env l.root_dir (inline_parse env (c, want)) in
          let m = put i dw.0 l in
          let same' =
            links-respond env l.root_dir (inline_parse env (c, want))
            ∙ links-inline_parse env (c, want)
            ∙ same in
          let q = sync_keepalive prev i m in
          let done =
            sync-Idle prev i m ks was (put-KeepList i dw.0 l ks same' h)
              (λ j f. rw f (others j f)) in
          rw (e, update_events-conns i dw.1 q, sync-state prev i i m)
            (update_events-Idle i dw.1 q (place (is_keep_alive (m.conns i).state) i ks) done)
    ]

closed-idle : (s : State) → is_closed s ≡ true → is_keep_alive s ≡ false
closed-idle s h = ground arith

-- If the keep-alive list stands for a list of slots, which are those in KEEP_ALIVE: after an event
-- of a connection this holds of the list with that slot put in front where it has come to
-- KEEP_ALIVE, left in its place where it stays there, and taken out where it is in another state.
pub process_connection-Idle :
    (env : Env) (i : ℕ) (l : EventLoop) (ks : List ℕ)
    → Idle l ks
    → Idle (process_connection env i l) (listed i (process_connection env i l) ks)
unfolding process_connection
process_connection-Idle env i l ks h = elim (Bool-cases (is_closed (l.conns i).state)) [
  | inl e ↦
      let off = closed-idle (l.conns i).state e in
      rw (e, off, without-absent i ks (h.follows i ∙ off)) h
  | inr e ↦
      let c = l.conns i in
      let ran = run_state c.state env l.has_tls c in
      rw e (
        finish_event-Idle env c.state i (start_tls env l.has_tls ran) l ks
          (links-start_tls env l.has_tls ran ∙ links-run_state c.state env l.has_tls c)
          (h.follows i) h.list (λ j _. h.follows j))
]
