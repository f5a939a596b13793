-- ===== src/Core/EventLoop/Dispatch/Shutdown.antt =====
-- How the main loop ends.
use file_web_server.Base.{Bool, true, false, not, List, [], ◌∷◌, ◌≡◌, refl, ◌∙◌, ap, if◌then◌else◌}
use file_web_server.Core.EventLoop.Dispatch.{
  Poll, Round, dispatch_all, events, failed, interrupted, loop, run, submit,
}
use file_web_server.Core.EventLoop.Signals.{Signal, on_signals, sigint, sigpipe, sigterm}
use file_web_server.Core.EventLoop.{EventLoop}

-- A signal that ends the program is among them.
abbrev pub asks_to_stop : List Signal → Bool
asks_to_stop [] = false
asks_to_stop (sigpipe ∷ ss) = asks_to_stop ss
asks_to_stop (_ ∷ ss) = true

on_signals-false : (ss : List Signal) → on_signals ss false ≡ false
unfolding on_signals
on_signals-false [] = refl
on_signals-false (sigint ∷ ss) = on_signals-false ss
on_signals-false (sigterm ∷ ss) = on_signals-false ss
on_signals-false (sigpipe ∷ ss) = on_signals-false ss

on_signals-asks : (ss : List Signal) → on_signals ss true ≡ not (asks_to_stop ss)
unfolding on_signals
on_signals-asks [] = refl
on_signals-asks (sigint ∷ ss) = on_signals-false ss
on_signals-asks (sigterm ∷ ss) = on_signals-false ss
on_signals-asks (sigpipe ∷ ss) = on_signals-asks ss

-- What one round does with the loop, whatever follows it.
abbrev pub after_round : Poll → EventLoop → EventLoop
after_round (events evs) l = dispatch_all evs (submit l)
after_round _ l = submit l

-- The loop goes on behind a round.
abbrev pub goes_on : Round → Bool
goes_on (failed, ss) = false
goes_on (_, ss) = not (asks_to_stop ss)

-- The rounds up to the first that ends the loop, with it.
abbrev pub rounds_run : List Round → List Round
rounds_run [] = []
rounds_run (r ∷ rs) = r ∷ (if goes_on r then rounds_run rs else [])

abbrev pub all_rounds : List Round → EventLoop → EventLoop
all_rounds [] l = l
all_rounds ((p, ss) ∷ rs) l = all_rounds rs (after_round p l)

-- The test of g_running behind a round.
loop-test :
    (b : Bool) (rs : List Round) (l : EventLoop)
    → loop true rs l ≡ all_rounds (rounds_run rs) l
    → loop b rs l ≡ all_rounds (if b then rounds_run rs else []) l
unfolding loop
loop-test true rs l later = later
loop-test false rs l later = refl

loop-signals :
    (ss : List Signal) (rs : List Round) (l : EventLoop)
    → loop true rs l ≡ all_rounds (rounds_run rs) l
    → loop (on_signals ss true) rs l
      ≡ all_rounds (if not (asks_to_stop ss) then rounds_run rs else []) l
loop-signals ss rs l later =
    ap (λ b. loop b rs l) (on_signals-asks ss) ∙ loop-test (not (asks_to_stop ss)) rs l later

loop-rounds : (rs : List Round) (l : EventLoop) → loop true rs l ≡ all_rounds (rounds_run rs) l
unfolding loop
loop-rounds [] l = refl
loop-rounds ((failed, ss) ∷ rs) l = refl
loop-rounds ((interrupted, ss) ∷ rs) l = loop-signals ss rs (submit l) (loop-rounds rs (submit l))
loop-rounds ((events evs, ss) ∷ rs) l =
    loop-signals ss rs (dispatch_all evs (submit l)) (loop-rounds rs (dispatch_all evs (submit l)))

-- The main loop goes through exactly the rounds up to the first that ends it, with all events of
-- that round: a round ends the loop if kevent fails in it other than by an interruption, or a
-- SIGINT or SIGTERM arrives in it; SIGPIPE and interruptions do not.
pub run-rounds_run : (rs : List Round) (l : EventLoop) → run rs l ≡ all_rounds (rounds_run rs) l
unfolding run
run-rounds_run rs l = loop-rounds rs l
