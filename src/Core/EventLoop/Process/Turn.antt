-- ===== src/Core/EventLoop/Process/Turn.antt =====
-- What one event does to the connection itself, the links of the keep-alive list aside.
use file_web_server.Base.{
  ◌==◌, ◌&&◌, not, Bool-cases, ℕ, Bool, true, false, Bytes, ◌≡◌, refl, ap, ◌∙◌, inl, inr, arith,
}
use file_web_server.Core.Connection.{State, is_closed, Connection, Want}
use file_web_server.Core.EventLoop.Process.{
  finish_event, process_connection, sync_keepalive, inline_parse, is_keep_alive, respond, run_state,
  start_tls,
}
use file_web_server.Core.EventLoop.Fields.{IgnoresLinks, add-keeps, remove-keeps}
use file_web_server.Core.EventLoop.{Env, EventLoop, put, add_event, update_events}

-- What process_connection makes of the connection itself, where it stays open.
abbrev pub turn : Env → Bool → Bytes → Connection → Connection
turn env tls root c =
    (respond env root (inline_parse env (start_tls env tls (run_state c.state env tls c)))).0

pub sync-keeps {ℓ} :
    {A : Type ℓ} (f : Connection → A) (prev : State) (i j : ℕ) (l : EventLoop)
    → IgnoresLinks f
    → f ((sync_keepalive prev i l).conns j) ≡ f (l.conns j)
unfolding sync_keepalive
sync-keeps f prev i j l h =
    elim (Bool-cases (not (is_keep_alive prev) && is_keep_alive (l.conns i).state)) [
      | inl e ↦ rw e (add-keeps f i j l h)
      | inr e ↦ elim (Bool-cases (is_keep_alive prev && not (is_keep_alive (l.conns i).state))) [
        | inl k ↦ rw (e, k) (remove-keeps f i j l h)
        | inr k ↦ rw (e, k) refl
      ]
    ]

pub update-conns : (i : ℕ) (w : Want) (l : EventLoop) → (update_events i w l).conns ≡ l.conns
unfolding update_events add_event
update-conns i w l = ground arith

-- `turn` is what process_connection leaves in the slot, the links of the keep-alive list aside.
pub process_connection-turn {ℓ} :
    {A : Type ℓ} (f : Connection → A) (env : Env) (i : ℕ) (l : EventLoop)
    → IgnoresLinks f
    → is_closed (l.conns i).state ≡ false
    → is_closed
        (start_tls env l.has_tls (run_state (l.conns i).state env l.has_tls (l.conns i))).0.state
      ≡ false
    → f ((process_connection env i l).conns i) ≡ f (turn env l.has_tls l.root_dir (l.conns i))
unfolding process_connection finish_event
process_connection-turn f env i l h live after =
    let c = l.conns i in
    let r =
      respond env l.root_dir
        (inline_parse env (start_tls env l.has_tls (run_state c.state env l.has_tls c))) in
    let m = put i r.0 l in
    let synced = sync_keepalive c.state i m in
    let here : i == i ≡ true = ground arith in
    let stored : f (m.conns i) ≡ f r.0 = rw here refl in
    rw (live, after)
      (ap (λ g. f (g i)) (update-conns i r.1 synced) ∙ sync-keeps f c.state i i m h ∙ stored)
