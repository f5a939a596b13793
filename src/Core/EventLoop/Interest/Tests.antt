-- ===== src/Core/EventLoop/Interest/Tests.antt =====
-- Two clients come, the first sends something, and goes.
use file_web_server.Base.{refl, List, [], ◌∷◌, some, false, true, arith}
use file_web_server.Base.Int.{pos}
use file_web_server.Core.Connection.{init}
use file_web_server.Core.EventLoop.Dispatch.{Round, events, run, submit}
use file_web_server.Core.EventLoop.Interest.Lifetime.{FreeSocket, listener-Interest}
use file_web_server.Core.EventLoop.Interest.Run.{LoopFree, run-Interest}
use file_web_server.Core.EventLoop.Interest.{Interest}
use file_web_server.Core.EventLoop.Signals.{on_signals}
use file_web_server.Core.EventLoop.{
  EventLoop, add_event, add_listener, connection, create_connection, evfilt_read, flush_changelist,
  listener_tag,
}
use file_web_server.Core.EventLoop
use file_web_server.Core.Pool.{acquire, iota}
use file_web_server.Core.Pool
use file_web_server.Core.Samples.{empty_disk, socket, world}

abbrev started : EventLoop
started = add_listener 2 5 (EventLoop.new (some 4) empty_disk [] (pos 75))

started-Interest : Interest started
unfolding EventLoop.new
started-Interest =
    listener-Interest 2 5 (EventLoop.new (some 4) empty_disk [] (pos 75)) (λ j. refl) refl refl refl
      (omega arith)

abbrev visits : List Round
visits =
    (
      events (
          (
            record { ev_error = false; ev_eof = false; udata = listener_tag },
            record (world (socket 0 0)) { accepts = 7 ∷ 8 ∷ [] },
          )
          ∷ []),
      [],
    )
    ∷ (
      events (
          (record { ev_error = false; ev_eof = false; udata = connection 0 }, world (socket 0 0))
          ∷ (record { ev_error = false; ev_eof = true; udata = connection 0 }, world (socket 0 0))
          ∷ []),
      [],
    )
    ∷ []

abbrev submitted : EventLoop
submitted = submit started

first_free : FreeSocket 7 submitted
unfolding EventLoop.new add_listener add_event flush_changelist
first_free = ((λ j e. absurd (ground arith)), λ e. absurd (ground arith))

second_free : FreeSocket 8 (create_connection 5 7 submitted).1
unfolding EventLoop.new add_listener add_event flush_changelist create_connection acquire Pool.new
    iota init
second_free = ((λ j e. absurd (ground arith)), λ e. absurd (ground arith))

visits-LoopFree : LoopFree true visits started
unfolding on_signals
visits-LoopFree = (
  ((first_free, (second_free, record {})), record {}),
  ((record {}, (record {}, record {})), record {}),
)

run-Interest_example : Interest (run visits started)
run-Interest_example = run-Interest visits started visits-LoopFree started-Interest
