-- ===== src/Main/Startup.antt =====
-- What `main` does with its listening socket, and when it runs with TLS.
use file_web_server.Base.{
  ℕ, Bool, true, false, not, ◌≡◌, ◌≢◌, sym, ap, ◌∙◌, ◌⊎◌, inl, inr, refl, List, [], ◌∷◌, ◌++◌, map,
  Option, none, some, is_some, arith, Bytes, codes, to_decimal, Bool-cases, Option-cases,
  if◌then◌else◌,
}
use file_web_server.Core.EventLoop.Dispatch.{run}
use file_web_server.Core.EventLoop.Settings.{settings-run}
use file_web_server.Core.EventLoop.{
  EventLoop, add_listener, flush_changelist, add_event, destroy_loop,
}
use file_web_server.Core.EventLoop
use file_web_server.Core.TlsContext.{OpenSsl, TlsContext, load_certificate}
use file_web_server.Core.TlsContext
use file_web_server.Main.Resources.{
  Balanced, Kind, Moves, Moves-Balanced, Moves-append, ended-Moves, error_printed-Balanced,
  printed-Balanced, holding, listen_on-Moves, new-Moves, printed-Moves, refused-Moves,
}
use file_web_server.Main.{
  MainResult, StartEffect, System, TlsSetup, create_listener, failed, finished, main,
  main_undefined, on_tls, plain, printed, queue_of, secured, serve, set_up_tls, start, start_loop,
  start_secured, start_listening,
}
use file_web_server.Server.Cli.{
  CliError, ServerConfig, ParseResult, parse_args, parsed, exited, undefined,
}
use file_web_server.Server.Cli.Checked.{IsUsable, parse_args-IsUsable}

-- What the setup of TLS makes of a context that is not loaded.
abbrev SetUp : Bool → Option ℕ → TlsSetup → Type 0
SetUp asked ctx (plain t) = (t.ctx ≡ ctx) × (t.loaded ≡ false) × (asked ≡ false)
SetUp asked ctx (secured t cert key) = (t.ctx ≡ ctx) × (t.loaded ≡ true) × (asked ≡ true)
SetUp asked ctx (failed t) = t.ctx ≡ ctx

load_certificate-keeps :
    (lib : OpenSsl) (cert key : Bytes) (t : TlsContext)
    → ((load_certificate lib cert key t).1.ctx ≡ t.ctx)
      × ((load_certificate lib cert key t).0 ≡ true
          → (load_certificate lib cert key t).1.loaded ≡ true)
unfolding load_certificate
load_certificate-keeps lib cert key t = (ground arith, λ e. ground arith)

-- The setup where both files are given.
with_files :
    (lib : OpenSsl) (cert key : Bytes) (t : TlsContext)
    → SetUp true t.ctx (
        if not (load_certificate lib cert key t).0
        then failed (load_certificate lib cert key t).1
        else secured (load_certificate lib cert key t).1 cert key)
with_files lib cert key t =
    let (ctx, loads) = load_certificate-keeps lib cert key t in
    elim (Bool-cases (load_certificate lib cert key t).0) [
      | inl e ↦ rw e (ctx, loads e, refl)
      | inr e ↦ rw e ctx
    ]

set_up_tls-SetUp :
    (lib : OpenSsl) (cfg : ServerConfig) (t : TlsContext)
    → is_some cfg.cert_file ≡ is_some cfg.key_file
    → t.loaded ≡ false
    → SetUp (is_some cfg.cert_file) t.ctx (set_up_tls lib cfg t)
unfolding set_up_tls
set_up_tls-SetUp lib cfg t h n = elim (Option-cases cfg.cert_file) [
  | inl e ↦ rw (set_up_tls, e) (refl, n, refl)
  | inr (cert, e) ↦ elim (Option-cases cfg.key_file) [
    | inl f ↦ let clash = sym (ap is_some f) ∙ sym h ∙ ap is_some e in absurd (ground arith)
    | inr (key, f) ↦ rw (set_up_tls, e, f) (with_files lib cert key t)
  ]
]

start_loop-has_tls :
    (sys : System) (cfg : ServerConfig) (t : TlsContext) (fd : ℕ)
    → (start_loop sys cfg t fd).has_tls ≡ t.loaded
unfolding start_loop add_listener add_event flush_changelist EventLoop.new
start_loop-has_tls sys cfg t fd = ground arith

-- The destructor of the loop closes the queue that its constructor made.
ended_queue :
    (sys : System) (cfg : ServerConfig) (t : TlsContext) (fd : ℕ)
    → destroy_loop (run sys.rounds (start_loop sys cfg t fd)) ≡ queue_of sys.kqueue
unfolding destroy_loop start_loop add_listener add_event flush_changelist EventLoop.new
ended_queue sys cfg t fd =
    let kept = settings-run sys.rounds (start_loop sys cfg t fd) in
    ap (λ x. queue_of x.0) kept
    ∙ elim (Bool-cases t.loaded) [ inl e ↦ rw e refl | inr e ↦ rw e refl ]

-- What is promised of a run of the program.
abbrev pub Ensures : ServerConfig → MainResult → Type 0
Ensures cfg (finished code es none) = Balanced es
Ensures cfg (finished code es (some (started, _))) =
    Balanced es × (code ≡ 0) × (started.has_tls ≡ is_some cfg.cert_file)
Ensures cfg main_undefined = Unit {0}

abbrev nothing_held : Kind → List ℕ
nothing_held = holding none none none

-- From the event loop to the end, all that is held is given back.
serve-Ensures :
    (sys : System) (cfg : ServerConfig) (fd : ℕ) (es : List StartEffect) (t : TlsContext)
    → t.loaded ≡ is_some cfg.cert_file
    → Moves nothing_held es (holding (some fd) none t.ctx)
    → Ensures cfg (serve sys cfg t fd es)
unfolding serve
serve-Ensures sys cfg fd es t e m =
    let held = holding (some fd) none t.ctx in
    let text = codes "\nServer shut down.\n" in
    (
      rw (ended_queue sys cfg t fd) (
          Moves-Balanced _ (
            Moves-append nothing_held held nothing_held es _ m (ended-Moves fd sys.kqueue text t))),
      refl,
      start_loop-has_tls sys cfg t fd ∙ e,
    )

start_secured-Ensures :
    (sys : System) (cfg : ServerConfig) (fd : ℕ) (es : List StartEffect) (ctx : Option ℕ)
    (t : TlsSetup)
    → SetUp (is_some cfg.cert_file) ctx t
    → Moves nothing_held es (holding (some fd) none ctx)
    → Ensures cfg (start_secured sys cfg fd es t)
unfolding start_secured
start_secured-Ensures sys cfg fd es ctx (failed t) c m =
    let text = codes "error: failed to load TLS certificate\n" in
    Moves-Balanced _ (
      Moves-append nothing_held (holding (some fd) none t.ctx) nothing_held es _ (rw c m)
        (refused-Moves fd text t))
start_secured-Ensures sys cfg fd es ctx (plain t) (c, off, no_cert) m =
    serve-Ensures sys cfg fd es t (off ∙ sym no_cert) (rw c m)
start_secured-Ensures sys cfg fd es ctx (secured t cert key) (c, on, has_cert) m =
    let held = holding (some fd) none ctx in
    let text = codes "TLS enabled (cert: " ++ (cert ++ (codes ", key: " ++ (key ++ codes ")\n"))) in
    serve-Ensures sys cfg fd (es ++ (printed text ∷ [])) t (on ∙ sym has_cert) (
      rw c (Moves-append nothing_held held held es (printed text ∷ []) m (printed-Moves held text)))

start_listening-Ensures :
    (sys : System) (cfg : ServerConfig) (fd : Option ℕ) (es : List StartEffect)
    → IsUsable cfg
    → Moves nothing_held es (holding fd none none)
    → Ensures cfg (start_listening sys cfg fd es)
unfolding start_listening TlsContext.new
start_listening-Ensures sys cfg none es u m = Moves-Balanced es m
start_listening-Ensures sys cfg (some fd) es u m =
    let text =
      codes "Listening on port "
      ++ (to_decimal cfg.port ++ (codes ", serving: " ++ (cfg.root_dir ++ codes "\n"))) in
    let held = holding (some fd) none none in
    let made = TlsContext.new sys.openssl in
    let calls = map on_tls made.1 in
    start_secured-Ensures sys cfg fd (es ++ (printed text ∷ calls)) made.0.ctx
      (set_up_tls sys.openssl cfg made.0) (set_up_tls-SetUp sys.openssl cfg made.0 u.paired refl)
      (Moves-append nothing_held held (holding (some fd) none made.0.ctx) es (printed text ∷ calls)
        m
        (Moves-append held held (holding (some fd) none made.0.ctx) (printed text ∷ []) calls
          (printed-Moves held text) (new-Moves fd sys.openssl)))

start-Ensures : (sys : System) (cfg : ServerConfig) → IsUsable cfg → Ensures cfg (start sys cfg)
unfolding start create_listener
start-Ensures sys cfg u =
    let made = create_listener sys cfg.port in
    start_listening-Ensures sys cfg made.0 made.1 u
      (listen_on-Moves sys.socket sys.bind sys.listen cfg.port)

-- What is promised of a run of `main` with these arguments.
abbrev pub MainEnsures : List Bytes → MainResult → Type 0
MainEnsures args (finished code es none) = Balanced es
MainEnsures args (finished code es (some (started, _))) =
    (cfg : ServerConfig) × (parse_args args ≡ parsed cfg)
    × Balanced es
    × (code ≡ 0)
    × (started.has_tls ≡ is_some cfg.cert_file)
MainEnsures args main_undefined = parse_args args ≡ undefined

main-start :
    (args : List Bytes) (cfg : ServerConfig) (r : MainResult)
    → parse_args args ≡ parsed cfg
    → Ensures cfg r
    → r ≢ main_undefined
    → MainEnsures args r
main-start args cfg (finished code es none) p h k = h
main-start args cfg (finished code es (some (started, ended))) p h k = (cfg, p, h.0, h.1, h.2)
main-start args cfg main_undefined p h k = absurd (k refl)

start-defined : (sys : System) (cfg : ServerConfig) → start sys cfg ≢ main_undefined
unfolding start serve
start-defined sys cfg e = ground arith

pub ParseResult-cases :
    (r : ParseResult)
    → ((cfg : ServerConfig) × (r ≡ parsed cfg))
      ⊎ (((c : CliError) × (r ≡ exited c)) ⊎ (r ≡ undefined))
ParseResult-cases (parsed cfg) = inl (cfg, refl)
ParseResult-cases (exited c) = inr (inl (c, refl))
ParseResult-cases undefined = inr (inr refl)

-- Whatever the arguments and the answers of the system: the listening sockets, the event queues
-- and the TLS contexts that main takes are those it gives back, of each kind in the order in which
-- they are taken; if the event loop is started, the exit code is 0 and the loop has TLS exactly
-- when a certificate is configured; and main is undefined only where parse_args is.
pub main-MainEnsures : (sys : System) (args : List Bytes) → MainEnsures args (main sys args)
unfolding main
main-MainEnsures sys args = elim (ParseResult-cases (parse_args args)) [
  | inr (inr e) ↦ rw (MainEnsures, main, e) e
  | inr (inl (c, e)) ↦ rw (MainEnsures, main, e) (error_printed-Balanced _)
  | inl (cfg, e) ↦ elim (Bool-cases cfg.version) [
    | inl v ↦ rw (MainEnsures, main, e, v) (printed-Balanced _)
    | inr v ↦ elim (Bool-cases cfg.help) [
      | inl w ↦ rw (MainEnsures, main, e, v, w) (printed-Balanced _)
      | inr w ↦
          let run =
            main-start args cfg (start sys cfg) e
              (start-Ensures sys cfg (parse_args-IsUsable args cfg e)) (start-defined sys cfg) in
          rw (main, e, v, w) run
    ]
  ]
]
