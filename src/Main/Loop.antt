-- ===== src/Main/Loop.antt =====
-- The event loop that `main` starts and leaves behind.
use file_web_server.Base.{
  is_some, ◌≤◌, ℕ, true, ◌≡◌, refl, inl, inr, List, [], Option, none, some, Bytes, Bool-cases,
}
use file_web_server.Core.EventLoop.Dispatch.{run}
use file_web_server.Core.EventLoop.Invariant.Loop.{new-LoopOk}
use file_web_server.Core.EventLoop.Invariant.Run.{IsOk, RunsLive, frame-IsOk, run-IsOk}
use file_web_server.Core.EventLoop.Interest.Lifetime.{listener-Interest}
use file_web_server.Core.EventLoop.Interest.Run.{LoopFree, NeverFails, run-Interest}
use file_web_server.Core.EventLoop.Interest.{Interest}
use file_web_server.Core.EventLoop.{EventLoop, add_event, add_listener, flush_changelist}
use file_web_server.Core.EventLoop
use file_web_server.Core.TlsContext.{TlsContext}
use file_web_server.Core.TlsContext
use file_web_server.Main.{
  MainResult, StartEffect, System, TlsSetup, create_listener, failed, finished, main, plain,
  secured, serve, set_tls_context, set_up_tls, start, start_listening, start_loop, start_secured,
}
use file_web_server.Main.Startup.{ParseResult-cases}
use file_web_server.Server.Cli.{ServerConfig, parse_args}

start_loop-IsOk :
    (sys : System) (cfg : ServerConfig) (t : TlsContext) (fd : ℕ) → IsOk (start_loop sys cfg t fd)
unfolding start_loop add_listener add_event flush_changelist set_tls_context
start_loop-IsOk sys cfg t fd =
    let loop = EventLoop.new sys.kqueue sys.fs cfg.root_dir cfg.keep_alive_timeout in
    let ok : IsOk loop =
      ([], [], new-LoopOk sys.kqueue sys.fs cfg.root_dir cfg.keep_alive_timeout) in
    elim (Bool-cases t.loaded) [
      | inl e ↦ frame-IsOk loop (start_loop sys cfg t fd) (rw e refl) (rw e refl) (rw e refl) ok
      | inr e ↦ frame-IsOk loop (start_loop sys cfg t fd) (rw e refl) (rw e refl) (rw e refl) ok
    ]

start_loop-Interest :
    (sys : System) (cfg : ServerConfig) (t : TlsContext) (fd : ℕ)
    → is_some sys.kqueue ≡ true
    → 2 ≤ sys.applied
    → Interest (start_loop sys cfg t fd)
unfolding start_loop set_tls_context EventLoop.new
start_loop-Interest sys cfg t fd opened enough =
    let loop = EventLoop.new sys.kqueue sys.fs cfg.root_dir cfg.keep_alive_timeout in
    elim (Bool-cases t.loaded) [
      | inl e ↦ rw e (
          listener-Interest sys.applied fd (set_tls_context loop) (λ j. refl) refl refl opened
            enough)
      | inr e ↦ rw e (listener-Interest sys.applied fd loop (λ j. refl) refl refl opened enough)
    ]

-- The loop is sound as it starts, and ends where the answers of kevent lead it.
abbrev StartsOk : System → MainResult → Type 0
StartsOk sys (finished code es (some (started, ended))) =
    IsOk started
    × (is_some sys.kqueue ≡ true → 2 ≤ sys.applied → Interest started)
    × (ended ≡ run sys.rounds started)
StartsOk sys _ = Unit {0}

start_secured-StartsOk :
    (sys : System) (cfg : ServerConfig) (fd : ℕ) (es : List StartEffect) (t : TlsSetup)
    → StartsOk sys (start_secured sys cfg fd es t)
unfolding start_secured serve
start_secured-StartsOk sys cfg fd es (failed t) = record {}
start_secured-StartsOk sys cfg fd es (plain t) =
    (start_loop-IsOk sys cfg t fd, start_loop-Interest sys cfg t fd, refl)
start_secured-StartsOk sys cfg fd es (secured t cert key) =
    (start_loop-IsOk sys cfg t fd, start_loop-Interest sys cfg t fd, refl)

start_listening-StartsOk :
    (sys : System) (cfg : ServerConfig) (fd : Option ℕ) (es : List StartEffect)
    → StartsOk sys (start_listening sys cfg fd es)
unfolding start_listening
start_listening-StartsOk sys cfg none es = record {}
start_listening-StartsOk sys cfg (some fd) es =
    start_secured-StartsOk sys cfg fd _ (set_up_tls sys.openssl cfg (TlsContext.new sys.openssl).0)

main-StartsOk : (sys : System) (args : List Bytes) → StartsOk sys (main sys args)
unfolding main start
main-StartsOk sys args = elim (ParseResult-cases (parse_args args)) [
  | inr (inr e) ↦ rw (main, e) (record {})
  | inr (inl (c, e)) ↦ rw (main, e) (record {})
  | inl (cfg, e) ↦ elim (Bool-cases cfg.version) [
    | inl v ↦ rw (main, e, v) (record {})
    | inr v ↦ elim (Bool-cases cfg.help) [
      | inl w ↦ rw (main, e, v, w) (record {})
      | inr w ↦
          let made = create_listener sys cfg.port in
          rw (main, e, v, w) (start_listening-StartsOk sys cfg made.0 made.1)
    ]
  ]
]

-- If main starts the event loop, the loop satisfies the invariant of run-IsOk as it starts, and as
-- it ends where its answers of kevent meet the condition of run-IsOk.
pub main-IsOk :
    (sys : System) (args : List Bytes) {code : ℕ} {es : List StartEffect}
    {started ended : EventLoop}
    → main sys args ≡ finished code es (some (started, ended))
    → RunsLive sys.rounds started
    → IsOk started × IsOk ended
main-IsOk sys args {started = started} e live =
    let (ok, _, leads) = rw e at (main-StartsOk sys args) in
    (ok, rw leads (run-IsOk sys.rounds started live ok))

-- If main starts the event loop, kqueue succeeds, the kevent of add_listener takes both of its
-- changes, no kevent of the main loop fails other than by an interruption, and accept only returns
-- sockets that neither a connection nor the listener has: the loop satisfies the invariant of run-
-- Interest as it starts and as it ends.
pub main-Interest :
    (sys : System) (args : List Bytes) {code : ℕ} {es : List StartEffect}
    {started ended : EventLoop}
    → main sys args ≡ finished code es (some (started, ended))
    → is_some sys.kqueue ≡ true
    → 2 ≤ sys.applied
    → NeverFails sys.rounds
    → LoopFree true sys.rounds started
    → Interest started × Interest ended
main-Interest sys args {started = started} e opened enough _ free =
    let (_, sound, leads) = rw e at (main-StartsOk sys args) in
    let h = sound opened enough in (h, rw leads (run-Interest sys.rounds started free h))
