-- ===== src/Core/EventLoop/Signals.antt =====
-- src/core/event_loop.h: g_running and its handler; and what `run` sets up for signals.
use file_web_server.Base.{Bool, false, List, [], ◌∷◌}

-- The signals that `run` sets up.
pub data Signal : Type 0 where
  sigint sigterm sigpipe : Signal

-- handle_signal: g_running = 0, whatever it was.
abbrev pub handle_signal : Bool → Bool
handle_signal _ = false

-- SIGPIPE is ignored; SIGINT and SIGTERM have the handler, without SA_RESTART.
unfoldable pub on_signal : Signal → Bool → Bool
on_signal sigint running = handle_signal running
on_signal sigterm running = handle_signal running
on_signal sigpipe running = running

-- Signals in the order of their arrival.
unfoldable pub on_signals : List Signal → Bool → Bool
unfolding on_signal
on_signals [] running = running
on_signals (s ∷ ss) running = on_signals ss (on_signal s running)
