-- ===== src/Main.antt =====
-- src/main.cpp: the start and the end of the program.
pub mod Resources
pub mod Startup
pub mod Loop
mod Tests
use file_web_server.Base.{
  map, ℕ, Bool, true, false, not, List, [], ◌∷◌, ◌++◌, Option, none, some, if◌then◌else◌, Bytes,
  codes, to_decimal, get_or,
}
use file_web_server.Core.EventLoop.Dispatch.{Round, run}
use file_web_server.Core.EventLoop.{EventLoop, add_listener, destroy_loop}
use file_web_server.Core.EventLoop
use file_web_server.Core.TlsContext.{OpenSsl, TlsContext, TlsEffect, destroy, load_certificate}
use file_web_server.Core.TlsContext
use file_web_server.Server.Cli.{
  CliError, ParseResult, ServerConfig, exited, parse_args, parsed, requires_value, undefined,
  unknown_option, unpaired,
}
use file_web_server.Server.FileServer.Files.{FileSystem}

-- What the system answers: the listening socket or a failure, and whether bind and listen succeed;
-- the libraries; and the queue, its answers and the signals while the loop runs.
pub record System : Type 0 where
  pub socket : Option ℕ
  pub bind : Bool
  pub listen : Bool
  pub openssl : OpenSsl
  pub fs : FileSystem
  pub kqueue : Option ℕ
  pub applied : ℕ  -- the changes that kevent takes in add_listener
  pub rounds : List Round

-- What the program does, in order: text on the standard output or error output, perror with its
-- prefix, the calls on the listening socket, those of the TLS context, and the event queue.
pub data StartEffect : Type 0 where
  printed error_printed perror : Bytes → StartEffect
  socket_opened reuse_address socket_listens socket_closed : ℕ → StartEffect
  bound : ℕ → ℕ → StartEffect
  on_tls : TlsEffect → StartEffect
  queue_opened queue_closed : ℕ → StartEffect

-- What socket, bind and listen answer decides.
unfoldable pub listen_on : Option ℕ → Bool → Bool → ℕ → Option ℕ × List StartEffect
listen_on none bind listen port = (none, perror (codes "socket") ∷ [])
listen_on (some fd) false listen port =
    (none, socket_opened fd ∷ reuse_address fd ∷ perror (codes "bind") ∷ socket_closed fd ∷ [])
listen_on (some fd) true false port = (
  none,
  socket_opened fd
      ∷ reuse_address fd
      ∷ bound fd port
      ∷ perror (codes "listen")
      ∷ socket_closed fd
      ∷ [],
)
listen_on (some fd) true true port =
    (some fd, socket_opened fd ∷ reuse_address fd ∷ bound fd port ∷ socket_listens fd ∷ [])

unfoldable pub create_listener : System → ℕ → Option ℕ × List StartEffect
unfolding listen_on
create_listener sys port = listen_on sys.socket sys.bind sys.listen port

-- print_help
abbrev pub help_text : Bytes → Bytes
help_text prog =
    codes "Usage: "
    ++ (prog
        ++ (codes " [options]\n"
            ++ (codes "Options:\n"
                ++ (codes "  --root <dir>     Root directory to serve (default: .)\n"
                    ++ (codes "  --port <num>     Port to listen on (default: 8080)\n"
                        ++ (codes "  --cert <file>    TLS certificate file (PEM)\n"
                            ++ (codes "  --key <file>     TLS private key file (PEM)\n"
                                ++ (codes "  --timeout <sec>  Keep-Alive timeout (default: 75)\n"
                                    ++ (codes "  --version        Show version\n"
                                        ++ codes "  --help, -h       Show this help\n")))))))))

-- WEB_SERVER_VERSION_STR of src/core/version.h
abbrev pub version_text : Bytes
version_text = codes "file_web_server 1.0.0 (kqueue + HTTP/1.1 + optional TLS)"

-- What parse_args writes before it ends the program.
abbrev pub error_text : CliError → Bytes
error_text (requires_value arg) = codes "error: " ++ (arg ++ codes " requires a value\n")
error_text (unknown_option arg) = codes "error: unknown option: " ++ (arg ++ codes "\n")
error_text unpaired = codes "error: --cert and --key must be used together\n"

-- The exit code, the effects, and the event loop as it is started and as it ends, where it is.
pub data MainResult : Type 0 where
  finished : ℕ → List StartEffect → Option (EventLoop × EventLoop) → MainResult
  main_undefined : MainResult

-- Whether the certificate is loaded: none is asked for, it is loaded, or it cannot be. The context
-- is made in each case.
pub data TlsSetup : Type 0 where
  plain : TlsContext → TlsSetup
  secured : TlsContext → Bytes → Bytes → TlsSetup
  failed : TlsContext → TlsSetup

unfoldable pub set_up_tls : OpenSsl → ServerConfig → TlsContext → TlsSetup
set_up_tls lib cfg tls_ctx = elim cfg.cert_file [
  | none ↦ plain tls_ctx
  | some cert ↦ elim cfg.key_file [
    | none ↦ plain tls_ctx
    | some key ↦
        let loading = load_certificate lib cert key tls_ctx in
        if not loading.0 then failed loading.1 else secured loading.1 cert key
  ]
]

-- The descriptor that kqueue answers, where it does.
abbrev pub queue_of : Option ℕ → List ℕ
queue_of none = []
queue_of (some kq) = kq ∷ []

-- EventLoop::set_tls_context with a context
unfoldable pub set_tls_context : EventLoop → EventLoop
set_tls_context l = record l { has_tls = true }

-- The event loop, ready to run.
unfoldable pub start_loop : System → ServerConfig → TlsContext → ℕ → EventLoop
unfolding set_tls_context
start_loop sys cfg tls_ctx listen_fd =
    let loop = EventLoop.new sys.kqueue sys.fs cfg.root_dir cfg.keep_alive_timeout in
    add_listener sys.applied listen_fd (if tls_ctx.loaded then set_tls_context loop else loop)

-- The destructor of the context, at the end of main.
abbrev pub context_dropped : TlsContext → List StartEffect
context_dropped tls_ctx = map on_tls (destroy tls_ctx)

-- From the event loop to the end of the program; the loop is destroyed before the context.
unfoldable pub serve : System → ServerConfig → TlsContext → ℕ → List StartEffect → MainResult
unfolding start_loop destroy_loop
serve sys cfg tls_ctx listen_fd done =
    let started = start_loop sys cfg tls_ctx listen_fd in
    let ended = run sys.rounds started in
    finished 0
      (done
        ++ (map queue_opened (queue_of sys.kqueue)
            ++ (socket_closed listen_fd
                ∷ printed (codes "\nServer shut down.\n")
                ∷ (map queue_closed (destroy_loop ended) ++ context_dropped tls_ctx))))
      (some (started, ended))

-- From the TLS context on.
unfoldable pub start_secured : System → ServerConfig → ℕ → List StartEffect → TlsSetup → MainResult
unfolding serve
start_secured sys cfg listen_fd done (failed tls_ctx) =
    finished 1
      (done
        ++ (error_printed (codes "error: failed to load TLS certificate\n")
            ∷ socket_closed listen_fd
            ∷ context_dropped tls_ctx))
      none
start_secured sys cfg listen_fd done (secured tls_ctx cert key) = serve sys cfg tls_ctx listen_fd (
    done
    ++ (printed (codes "TLS enabled (cert: " ++ (cert ++ (codes ", key: " ++ (key ++ codes ")\n"))))
        ∷ []))
start_secured sys cfg listen_fd done (plain tls_ctx) = serve sys cfg tls_ctx listen_fd done

-- From the listening socket on.
unfoldable pub start_listening : System → ServerConfig → Option ℕ → List StartEffect → MainResult
unfolding start_secured set_up_tls TlsContext.new
start_listening sys cfg none done = finished 1 done none
start_listening sys cfg (some listen_fd) done =
    let announced = printed (
      codes "Listening on port "
      ++ (to_decimal cfg.port ++ (codes ", serving: " ++ (cfg.root_dir ++ codes "\n")))) in
    let made = TlsContext.new sys.openssl in
    start_secured sys cfg listen_fd (done ++ (announced ∷ map on_tls made.1))
      (set_up_tls sys.openssl cfg made.0)

unfoldable pub start : System → ServerConfig → MainResult
unfolding start_listening create_listener
start sys cfg = let made = create_listener sys cfg.port in start_listening sys cfg made.0 made.1

unfoldable pub main : System → List Bytes → MainResult
unfolding start
main sys args = elim (parse_args args) [
  | undefined ↦ main_undefined
  | exited e ↦ finished 1 (error_printed (error_text e) ∷ []) none
  | parsed cfg ↦
      if cfg.version
      then finished 0 (printed (version_text ++ codes "\n") ∷ []) none
      else if cfg.help
      then finished 0 (printed (help_text (get_or args 0 [])) ∷ []) none
      else start sys cfg
]
