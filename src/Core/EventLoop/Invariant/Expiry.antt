-- ===== src/Core/EventLoop/Invariant/Expiry.antt =====
-- What destroying a connection does to the times of the others.
use file_web_server.Base.{ℕ, ◌≡◌, refl, ap, ◌∙◌, arith}
use file_web_server.Base.Int.{ℤ}
use file_web_server.Core.Connection.{
  Connection, close, close_file, close_socket, free_ssl, is_expired,
}
use file_web_server.Core.EventLoop.Fields.{put-keeps, remove-keeps}
use file_web_server.Core.EventLoop.Slots.Steps.{delete_events-conns}
use file_web_server.Core.EventLoop.{
  EventLoop, delete_events, destroy_connection, remove_from_keepalive_list,
}

remove-last_active :
    (i j : ℕ) (l : EventLoop)
    → ((remove_from_keepalive_list i l).conns j).last_active ≡ (l.conns j).last_active
remove-last_active i j l = remove-keeps (λ c. c.last_active) i j l (λ c b p n. refl)

close-last_active : (c : Connection) → (close c).last_active ≡ c.last_active
unfolding close close_file close_socket free_ssl
close-last_active c = ground arith

destroy-last_active :
    (i j : ℕ) (l : EventLoop)
    → ((destroy_connection i l).conns j).last_active ≡ (l.conns j).last_active
unfolding destroy_connection
destroy-last_active i j l =
    let u = remove_from_keepalive_list i l in
    let d = delete_events (u.conns i).fd u in
    put-keeps (λ c. c.last_active) i (close (d.conns i)) d j (close-last_active (d.conns i))
    ∙ ap (λ f. (f j).last_active) (delete_events-conns (u.conns i).fd u)
    ∙ remove-last_active i j l

pub destroy-is_expired :
    (timeout : ℤ) (now i j : ℕ) (l : EventLoop)
    → is_expired timeout now ((destroy_connection i l).conns j) ≡ is_expired timeout now (l.conns j)
unfolding is_expired
destroy-is_expired timeout now i j l = rw (destroy-last_active i j l) refl
