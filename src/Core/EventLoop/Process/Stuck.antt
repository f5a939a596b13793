-- ===== src/Core/EventLoop/Process/Stuck.antt =====
-- Events after which a connection stays where it is.
use file_web_server.Base.{
  ℕ, Bool, true, ◌||◌, ◌≡◌, refl, ap, ◌∙◌, inl, inr, arith, Bytes, Bool-cases, ◌==◌,
}
use file_web_server.Core.Connection.Reading.{do_parse}
use file_web_server.Core.Connection.{Connection, nothing, parsing, is_closed}
use file_web_server.Core.EventLoop.Process.{
  finish_event, inline_parse, is_parsing, is_unknown, is_reading, process_connection, respond,
  run_state, start_tls, sync_keepalive, is_keep_alive, is_tls_accept,
}
use file_web_server.Core.EventLoop.{Env, EventLoop, put, update_events}
use file_web_server.Core.Io.{Io}
use file_web_server.Http.Request.{parse}

abbrev pub parsed : Connection → Connection
parsed c = record c { request = (parse c.read_buf).1 }

pub do_parse-accepted :
    (io : Io) (c : Connection) → (parse c.read_buf).0 ≡ true → do_parse io c ≡ (parsed c, nothing)
unfolding do_parse
do_parse-accepted io c h = rw h refl

update_nothing : (i : ℕ) (l : EventLoop) → update_events i nothing l ≡ l
unfolding update_events
update_nothing i l = ground arith

inline_parse-unknown :
    (env : Env) (c : Connection)
    → c.state ≡ parsing
    → is_unknown c.request.method ≡ true
    → (parse c.read_buf).0 ≡ true
    → inline_parse env (c, nothing) ≡ (parsed c, nothing)
unfolding inline_parse
inline_parse-unknown env c s u h =
    let k = ap is_parsing s in rw (k, u) (do_parse-accepted env.io c h)

respond-unknown :
    (env : Env) (root : Bytes) (c : Connection)
    → is_unknown c.request.method ≡ true
    → respond env root (c, nothing) ≡ (c, nothing)
unfolding respond
respond-unknown env root c u = elim (Bool-cases (is_parsing c.state || is_reading c.state)) [
  | inl e ↦ rw (e, u) refl
  | inr e ↦ rw e refl
]

put-same : (i : ℕ) (c : Connection) (l : EventLoop) → (put i c l).conns i ≡ c
put-same i c l = let here : i == i ≡ true = ground arith in rw here refl

sync-parsing :
    (i : ℕ) (l : EventLoop) → (l.conns i).state ≡ parsing → sync_keepalive parsing i l ≡ l
unfolding sync_keepalive
sync-parsing i l s = let k = ap is_keep_alive s in rw k refl

-- A parsed connection whose method is unknown is stored, and nothing else happens.
finish_event-unknown :
    (env : Env) (i : ℕ) (c : Connection) (l : EventLoop)
    → c.state ≡ parsing
    → is_unknown c.request.method ≡ true
    → is_unknown (parse c.read_buf).1.method ≡ true
    → (parse c.read_buf).0 ≡ true
    → finish_event env parsing i (c, nothing) l ≡ put i (parsed c) l
unfolding finish_event
finish_event-unknown env i c l s u v h =
    let live = ap is_closed s in
    let a = inline_parse-unknown env c s u h in
    let b = respond-unknown env l.root_dir (parsed c) v in
    let same = put-same i (parsed c) l in
    let p = put i (parsed c) l in
    rw (live, a, b)
      (ap (update_events i nothing) (sync-parsing i p (ap (λ d. d.state) same ∙ s))
        ∙ update_nothing i p)

run_parsing :
    (env : Env) (tls : Bool) (c : Connection)
    → c.state ≡ parsing
    → (parse c.read_buf).0 ≡ true
    → start_tls env tls (run_state c.state env tls c) ≡ (parsed c, nothing)
unfolding run_state start_tls
run_parsing env tls c s h =
    let k = ap is_tls_accept s in
    ap (λ z. start_tls env tls (run_state z env tls c)) s
    ∙ ap (start_tls env tls) (do_parse-accepted env.io c h)
    ∙ rw k refl

-- An event of a connection in PARSING whose buffer parses as a request with a method that is
-- neither GET nor HEAD only stores the parsed request: nothing else of the connection or the loop
-- changes, so no answer is sent, no event is registered, and the state stays PARSING.
pub process_connection-unknown :
    (env : Env) (i : ℕ) (l : EventLoop)
    → (l.conns i).state ≡ parsing
    → (parse (l.conns i).read_buf).0 ≡ true
    → is_unknown (parse (l.conns i).read_buf).1.method ≡ true
    → process_connection env i l
      ≡ put i (record (l.conns i) { request = (parse (l.conns i).read_buf).1 }) l
unfolding process_connection
process_connection-unknown env i l s h u =
    let c = l.conns i in
    let live = ap is_closed s in
    let r = run_parsing env l.has_tls c s h in
    rw live (
      ap (λ z. finish_event env c.state i z l) r
      ∙ ap (λ z. finish_event env z i (parsed c, nothing) l) s
      ∙ finish_event-unknown env i (parsed c) l s u u h)
