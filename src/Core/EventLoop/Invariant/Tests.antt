-- ===== src/Core/EventLoop/Invariant/Tests.antt =====
-- A loop with an idle connection.
use file_web_server.Base.{
  ◌≡◌, ◌∙◌, refl, sym, ap, inl, inr, List, [], ◌∷◌, arith, some, false, true,
}
use file_web_server.Core.Connection.{Connection, reading, keep_alive, init}
use file_web_server.Core.EventLoop.Dispatch.{
  Round, interrupted, events, accept_all, deliver, dispatch, dispatch_all, handle_accept,
  handle_timer, run,
}
use file_web_server.Core.EventLoop.Invariant.{Idle, sync-Idle, put-KeepList}
use file_web_server.Core.EventLoop.Invariant.Event.{listed, process_connection-Idle}
use file_web_server.Core.EventLoop.Invariant.Loop.{LoopOk, create_connection-LoopOk, new-LoopOk}
use file_web_server.Core.EventLoop.Process.Course.{process_connection-Turns}
use file_web_server.Core.EventLoop.Process.States.{Turns}
use file_web_server.Core.EventLoop.Invariant.Run.{IsOk, RunsLive, run-IsOk}
use file_web_server.Core.EventLoop.Invariant.Timer.{
  dismiss, expired, handle_timer-LoopOk, survivors,
}
use file_web_server.Core.EventLoop.KeepAlive.Operations.{KeepList}
use file_web_server.Core.EventLoop.KeepAlive.Refinement.{add-KeepList, remove-KeepList}
use file_web_server.Core.EventLoop.Process.{process_connection, sync_keepalive}
use file_web_server.Core.EventLoop.Slots.{contains}
use file_web_server.Core.EventLoop.Slots.Steps.{put-Slots, sync-pool, sync-state}
use file_web_server.Core.EventLoop.Signals.{on_signals, sigpipe}
use file_web_server.Core.EventLoop.{
  Env, Event, EventLoop, add_event, add_to_keepalive_list, connection, create_connection,
  listener_tag, put, remove_from_keepalive_list, timer_tag,
}
use file_web_server.Core.EventLoop
use file_web_server.Core.Pool.{acquire, iota}
use file_web_server.Core.Pool
use file_web_server.Base.Int.{pos}
use file_web_server.Core.Samples.{empty_disk, socket, world}

abbrev at_start : EventLoop
at_start = EventLoop.new (some 4) empty_disk [] (pos 75)

at_start-LoopOk : LoopOk at_start [] []
at_start-LoopOk = new-LoopOk (some 4) empty_disk [] (pos 75)

abbrev two_listed : EventLoop
two_listed = add_to_keepalive_list 1 (add_to_keepalive_list 0 at_start)

add-KeepList_example : KeepList two_listed (1 ∷ 0 ∷ [])
unfolding contains
add-KeepList_example =
    add-KeepList 1 (add_to_keepalive_list 0 at_start) (0 ∷ [])
      (add-KeepList 0 at_start [] at_start-LoopOk.idle.list)

remove-KeepList_example : KeepList (remove_from_keepalive_list 0 two_listed) (1 ∷ [])
remove-KeepList_example = remove-KeepList 0 two_listed (1 ∷ 0 ∷ []) add-KeepList_example

abbrev one_client : EventLoop
one_client = (create_connection 0 7 at_start).1

first_client : (create_connection 0 7 at_start).0 ≡ some 0
unfolding create_connection acquire EventLoop.new Pool.new iota
first_client = refl

one_client-LoopOk : LoopOk one_client (0 ∷ []) []
one_client-LoopOk = elim (create_connection-LoopOk 0 7 at_start [] [] at_start-LoopOk) [
  | inl e ↦ let clash = sym (ap (λ x. x.0) e) ∙ first_client in absurd (ground arith)
  | inr (i, _, e, s) ↦ let z : i ≡ 0 = cc (sym e ∙ first_client) in rw z at s
]

process_connection-Idle_example :
    Idle
      (process_connection (world (socket 0 0)) 0 one_client)
      (listed 0 (process_connection (world (socket 0 0)) 0 one_client) [])
process_connection-Idle_example =
    process_connection-Idle (world (socket 0 0)) 0 one_client [] one_client-LoopOk.idle

-- The client has had its answer.
abbrev answered : EventLoop
answered = put 0 (record (one_client.conns 0) { state = keep_alive }) one_client

abbrev idle_client : EventLoop
idle_client = sync_keepalive reading 0 answered

idle_client-LoopOk : LoopOk idle_client (0 ∷ []) (0 ∷ [])
unfolding contains
idle_client-LoopOk =
    let c : Connection = record (one_client.conns 0) { state = keep_alive } in
    let s = put-Slots 0 c (0 ∷ []) one_client refl one_client-LoopOk.slots in
    record {
      slots = record {
        owns = rw (sync-pool reading 0 answered) s.owns;
        unlent_closed = λ j h. sync-state reading 0 j answered ∙ s.unlent_closed j h;
      };
      idle =
          sync-Idle reading 0 answered [] refl
            (put-KeepList 0 c one_client [] refl one_client-LoopOk.idle.list)
            (λ j e. rw e (one_client-LoopOk.idle.follows j));
    }

handle_timer-LoopOk_example :
    LoopOk
      (handle_timer (world (socket 0 0)) idle_client)
      (dismiss (expired idle_client 5) (0 ∷ []) (0 ∷ []))
      (survivors (expired idle_client 5) (0 ∷ []))
handle_timer-LoopOk_example =
    handle_timer-LoopOk (world (socket 0 0)) idle_client (0 ∷ []) (0 ∷ []) idle_client-LoopOk

-- A client comes, the timer fires, and the client goes.
abbrev visit : List Round
visit =
    (
      events (
          (
            record { ev_error = false; ev_eof = false; udata = listener_tag },
            record (world (socket 0 0)) { accepts = 7 ∷ [] },
          )
          ∷ []),
      sigpipe ∷ [],
    )
    ∷ (interrupted, [])
    ∷ (
      events (
          (record { ev_error = false; ev_eof = true; udata = connection 0 }, world (socket 0 0))
          ∷ []),
      [],
    )
    ∷ []

visit-RunsLive : RunsLive visit at_start
unfolding on_signals dispatch_all dispatch deliver handle_accept accept_all create_connection
    acquire EventLoop.new Pool.new iota add_event init
visit-RunsLive = (((λ _. record {}), record {}), (((λ _. refl), record {}), record {}))

run-IsOk_example : IsOk (run visit at_start)
run-IsOk_example = run-IsOk visit at_start visit-RunsLive ([], [], at_start-LoopOk)

process_connection-Turns_example :
    Turns
      (one_client.conns 0).state
      ((process_connection (world (socket 0 0)) 0 one_client).conns 0)
unfolding EventLoop.new create_connection acquire Pool.new iota add_event init
process_connection-Turns_example =
    process_connection-Turns (world (socket 0 0)) 0 one_client (λ _. refl)
