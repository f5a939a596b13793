-- ===== src/Core/EventLoop/Process/Course.antt =====
-- The state of a connection behind one event of it.
use file_web_server.Base.{
  ℕ, Bool, true, not, ◌&&◌, ◌||◌, ◌≡◌, ◌⊎◌, refl, sym, ap, ◌∙◌, inl, inr, arith, Bool-cases, Bytes,
  is_some,
}
use file_web_server.Core.Connection.Reading.{do_parse}
use file_web_server.Core.Connection.Sending.{do_send_headers}
use file_web_server.Core.Connection.States.{sends, sends-do_send_headers}
use file_web_server.Core.Connection.{
  Connection, State, Want, closed, proto_detect, tls_accept, reading, parsing, sending_headers,
  sending_body, keep_alive, is_closed,
}
use file_web_server.Core.EventLoop.Process.Turn.{process_connection-turn, turn}
use file_web_server.Core.EventLoop.Process.{
  finish_event, inject, inline_parse, is_parsing, is_reading, is_tls_accept, is_unknown,
  process_connection, respond, run_state, start_tls,
}
use file_web_server.Core.EventLoop.Respond.{prepare_response}
use file_web_server.Core.EventLoop.Respond.Links.{kept-prepare_response}
use file_web_server.Core.EventLoop.Slots.Steps.{destroyed}
use file_web_server.Core.EventLoop.{Env, EventLoop, destroy_connection, put}
use file_web_server.Http.Request.{HttpRequest}
use file_web_server.Core.EventLoop.Process.States.{
  Turns, Unread, follows, is_early, late_turn, parsing_turn, parsing-do_parse, run_state-Turns,
  do_tls_accept-Turns,
}

tls_accept_turn :
    (s t : State) → follows s tls_accept ≡ true → follows tls_accept t ≡ true → follows s t ≡ true
tls_accept_turn s t h k = ground arith

tls_accept-is : (s : State) (b : Bool) → is_tls_accept s && b ≡ true → s ≡ tls_accept
tls_accept-is s b e = ground arith

parsing-is : (s : State) (b : Bool) → is_parsing s && b ≡ true → s ≡ parsing
parsing-is s b e = ground arith

inject-kept :
    (env : Env) (tls : Bool) (c : Connection)
    → ((inject env tls c).state ≡ c.state) × ((inject env tls c).request ≡ c.request)
inject-kept env tls c = ground arith

start_tls-Turns :
    (s : State) (env : Env) (tls : Bool) (d : Connection) (w : Want)
    → Turns s d
    → Turns s (start_tls env tls (d, w)).0
unfolding start_tls
start_tls-Turns s env tls d w t = elim (Bool-cases (is_tls_accept d.state && not (is_some d.ssl))) [
  | inr e ↦ rw e t
  | inl e ↦
      let at = tls_accept-is d.state _ e in
      let j = inject env tls d in
      let (still, same) = inject-kept env tls d in
      let next =
        do_tls_accept-Turns env.io j (still ∙ at)
          (λ early. rw same (t.unread (rw (sym still) early))) in
      rw e
        (record { comes = tls_accept_turn s _ (rw at at t.comes) next.comes; unread = next.unread })
]

inline_parse-Turns :
    (s : State) (env : Env) (d : Connection) (w : Want)
    → Turns s d
    → Turns s (inline_parse env (d, w)).0
unfolding inline_parse
inline_parse-Turns s env d w t =
    elim (Bool-cases (is_parsing d.state && is_unknown d.request.method)) [
      | inr e ↦ rw e t
      | inl e ↦
          let at = parsing-is d.state _ e in
          let r = (do_parse env.io d).0 in
          let (comes, late) =
            parsing_turn s r.state (ap (follows s) (sym at) ∙ t.comes)
              (parsing-do_parse env.io d at) in
          rw e (late_turn s r comes late)
    ]

sent_from_parsing : (t : State) → sends parsing t ≡ true → follows parsing t ≡ true
sent_from_parsing t h = ground arith

reading_or_parsing :
    (s : State) (b : Bool)
    → (is_parsing s || is_reading s) && b ≡ true
    → ((s ≡ reading) × (b ≡ true)) ⊎ (s ≡ parsing)
reading_or_parsing reading b e = inl (refl, e)
reading_or_parsing parsing b e = inr refl
reading_or_parsing closed b e = absurd (ground (arith, e))
reading_or_parsing proto_detect b e = absurd (ground (arith, e))
reading_or_parsing tls_accept b e = absurd (ground (arith, e))
reading_or_parsing sending_headers b e = absurd (ground (arith, e))
reading_or_parsing sending_body b e = absurd (ground (arith, e))
reading_or_parsing keep_alive b e = absurd (ground (arith, e))

-- No answer is given before there is a request.
known-late :
    (c : Connection)
    → Unread c
    → (is_parsing c.state || is_reading c.state) && not (is_unknown c.request.method) ≡ true
    → c.state ≡ parsing
known-late c u e = elim (reading_or_parsing c.state _ e) [
  | inr at ↦ at
  | inl (at, known) ↦ let unknown = u (rw at refl) in absurd (ground (arith, known, unknown))
]

respond-Turns :
    (s : State) (env : Env) (root : Bytes) (d : Connection) (w : Want)
    → Turns s d
    → Turns s (respond env root (d, w)).0
unfolding respond
respond-Turns s env root d w t =
    elim (Bool-cases
      ((is_parsing d.state || is_reading d.state) && not (is_unknown d.request.method))) [
        | inr e ↦ rw e t
        | inl e ↦
            let at = known-late d t.unread e in
            let p = prepare_response env root d in
            let r = (do_send_headers env.io p).0 in
            let still = ap (λ x. x.1) (kept-prepare_response env root d) ∙ at in
            let sent = ap (λ z. sends z r.state) (sym still) ∙ sends-do_send_headers env.io p in
            let next = sent_from_parsing r.state sent in
            let (comes, late) = parsing_turn s r.state (ap (follows s) (sym at) ∙ t.comes) next in
            rw e (late_turn s r comes late)
      ]

-- What an event makes of the connection, where the calls that can close it leave it open.
turn-Turns :
    (env : Env) (tls : Bool) (root : Bytes) (c : Connection)
    → Unread c
    → Turns c.state (turn env tls root c)
turn-Turns env tls root c u =
    let a = run_state c.state env tls c in
    let b = start_tls env tls a in
    let d = inline_parse env b in
    respond-Turns c.state env root d.0 d.1 (
      inline_parse-Turns c.state env b.0 b.1
        (start_tls-Turns c.state env tls a.0 a.1 (run_state-Turns c.state env tls c refl u)))

-- The state and the request.
abbrev pub seen : Connection → State × HttpRequest
seen c = (c.state, c.request)

same-Turns : (s : State) (d e : Connection) → seen e ≡ seen d → Turns s d → Turns s e
same-Turns s d e same t = record {
  comes = ap (λ x. follows s x.0) same ∙ t.comes;
  unread = λ early.
      ap (λ x. is_unknown x.1.method) same ∙ t.unread (ap (λ x. is_early x.0) (sym same) ∙ early);
}

closed-is : (s : State) → is_closed s ≡ true → s ≡ closed
closed-is s h = ground arith

-- For a connection that has no parsed request while it is in PROTO_DETECT, TLS_ACCEPT or READING:
-- one event of it leads from its state to one of those that the table of transitions has next to
-- that state, and it has again no parsed request while it is in one of these three.
pub process_connection-Turns :
    (env : Env) (i : ℕ) (l : EventLoop)
    → Unread (l.conns i)
    → Turns (l.conns i).state ((process_connection env i l).conns i)
unfolding process_connection finish_event
process_connection-Turns env i l u = elim (Bool-cases (is_closed (l.conns i).state)) [
  | inl e ↦
      let at = closed-is (l.conns i).state e in
      rw (e, at) (late_turn closed (l.conns i) (rw at refl) (rw at refl))
  | inr e ↦
      let c = l.conns i in
      let a = run_state c.state env l.has_tls c in
      let r = start_tls env l.has_tls a in
      let t =
        start_tls-Turns c.state env l.has_tls a.0 a.1
          (run_state-Turns c.state env l.has_tls c refl u) in
      elim (Bool-cases (is_closed r.0.state)) [
        | inl k ↦
            let at = closed-is r.0.state k in
            let gone = destroyed i (put i r.0 l) in
            rw (e, k)
              (late_turn c.state ((destroy_connection i (put i r.0 l)).conns i)
                (rw gone (rw at at t.comes)) (rw gone refl))
        | inr k ↦
            same-Turns c.state (turn env l.has_tls l.root_dir c)
              ((process_connection env i l).conns i)
              (process_connection-turn seen env i l (λ d b p n. refl) e k)
              (turn-Turns env l.has_tls l.root_dir c u)
      ]
]
