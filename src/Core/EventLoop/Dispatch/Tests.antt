-- ===== src/Core/EventLoop/Dispatch/Tests.antt =====
-- Rounds in front of a signal, and behind it.
use file_web_server.Base.{List, [], ◌∷◌, ◌≡◌, refl, some}
use file_web_server.Base.Int.{pos}
use file_web_server.Core.EventLoop.Dispatch.Shutdown.{all_rounds, rounds_run, run-rounds_run}
use file_web_server.Core.EventLoop.Dispatch.{Round, events, failed, interrupted, run}
use file_web_server.Core.EventLoop.Signals.{sigint, sigpipe}
use file_web_server.Core.EventLoop.{EventLoop}
use file_web_server.Core.EventLoop
use file_web_server.Core.Samples.{empty_disk}

abbrev three_rounds : List Round
three_rounds = (interrupted, sigpipe ∷ []) ∷ (events [], sigint ∷ []) ∷ (failed, []) ∷ []

two_run : rounds_run three_rounds ≡ (interrupted, sigpipe ∷ []) ∷ (events [], sigint ∷ []) ∷ []
two_run = refl

abbrev at_start : EventLoop
at_start = EventLoop.new (some 4) empty_disk [] (pos 75)

run-rounds_run_example : run three_rounds at_start ≡ all_rounds (rounds_run three_rounds) at_start
run-rounds_run_example = run-rounds_run three_rounds at_start
