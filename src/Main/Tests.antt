-- ===== src/Main/Tests.antt =====
-- A start with TLS, and one without it in which a client comes.
use file_web_server.Base.{
  arith, Bytes, List, [], ◌∷◌, ◌≡◌, codes, none, refl, some, to_decimal, true, false,
}
use file_web_server.Core.EventLoop.Dispatch.{
  interrupted, run, events, submit, dispatch_all, dispatch, deliver, handle_accept, accept_all,
}
use file_web_server.Core.Connection.{init}
use file_web_server.Core.Pool.{acquire, iota}
use file_web_server.Core.Pool
use file_web_server.Core.EventLoop.Interest.Lifetime.{FreeSocket}
use file_web_server.Core.EventLoop.Interest.Run.{LoopFree}
use file_web_server.Core.EventLoop.Interest.{Interest}
use file_web_server.Core.EventLoop.Invariant.Run.{IsOk, RunsLive}
use file_web_server.Core.Samples.{empty_disk, socket, world}
use file_web_server.Core.TlsContext.{
  OpenSsl, TlsContext, load_certificate, destroy, accept_moving_write_buffer, cipher_list_set,
  cipher_server_preference, ctx_created, ctx_freed, enable_partial_write, min_proto_tls1_2,
  mode_set, no_compression, no_session_resumption_on_renegotiation, options_set,
}
use file_web_server.Core.EventLoop.Signals.{on_signals, sigterm}
use file_web_server.Core.EventLoop.{
  Env, Event, EventLoop, create_connection, listener_tag, destroy_loop, add_listener, add_event,
  flush_changelist,
}
use file_web_server.Core.EventLoop
use file_web_server.Core.TlsContext
use file_web_server.Main.Loop.{main-Interest, main-IsOk}
use file_web_server.Main.Startup.{MainEnsures, main-MainEnsures}
use file_web_server.Main.{
  StartEffect, System, bound, create_listener, finished, listen_on, main, on_tls, printed,
  queue_closed, queue_opened, reuse_address, serve, set_up_tls, socket_closed, socket_listens,
  socket_opened, start, start_listening, start_loop, start_secured,
}
use file_web_server.Server.Cli.{
  ServerConfig, default_config, finish_config, parse_args, parse_options,
}

abbrev library : OpenSsl
library = record {
  ctx_new = some 1;
  use_certificate_file = λ _. true;
  use_private_key_file = λ _. true;
  check_private_key = true;
  ssl_new = none;
}

abbrev a_client : Event × Env
a_client = (
  record { ev_error = false; ev_eof = false; udata = listener_tag },
  record (world (socket 0 0)) { accepts = 7 ∷ [] },
)

abbrev machine : System
machine = record {
  socket = some 3;
  bind = true;
  listen = true;
  openssl = library;
  fs = empty_disk;
  kqueue = some 4;
  applied = 2;
  rounds = (events (a_client ∷ []), []) ∷ (interrupted, sigterm ∷ []) ∷ [];
}

abbrev with_tls : List Bytes
with_tls = codes "fws" ∷ codes "--cert" ∷ codes "c.pem" ∷ codes "--key" ∷ codes "k.pem" ∷ []

main-MainEnsures_example : MainEnsures with_tls (main machine with_tls)
main-MainEnsures_example = main-MainEnsures machine with_tls

abbrev in_place : ServerConfig
in_place = record default_config { root_dir = codes "." }

abbrev without_tls : TlsContext
without_tls = record { ctx = some 1; loaded = false }

abbrev done : List StartEffect
done =
    socket_opened 3
    ∷ reuse_address 3
    ∷ bound 3 8080
    ∷ socket_listens 3
    ∷ printed (codes "Listening on port 8080, serving: .\n")
    ∷ on_tls (ctx_created 1)
    ∷ on_tls (min_proto_tls1_2 1)
    ∷ on_tls (mode_set 1 (enable_partial_write ∷ accept_moving_write_buffer ∷ []))
    ∷ on_tls (
        options_set 1
          (no_compression ∷ no_session_resumption_on_renegotiation ∷ cipher_server_preference ∷ []))
    ∷ on_tls (cipher_list_set 1 (codes "HIGH:!aNULL:!eNULL:!MD5:!PSK:!SRP"))
    ∷ queue_opened 4
    ∷ socket_closed 3
    ∷ printed (codes "\nServer shut down.\n")
    ∷ queue_closed 4
    ∷ on_tls (ctx_freed 1)
    ∷ []

main_plain :
    main machine (codes "fws" ∷ [])
    ≡ finished 0 done (
        some (
          start_loop machine in_place without_tls 3,
          run machine.rounds (start_loop machine in_place without_tls 3),
        ))
unfolding main start create_listener listen_on start_listening set_up_tls start_secured serve
    destroy destroy_loop run start_loop on_signals add_listener add_event flush_changelist
    dispatch_all dispatch deliver handle_accept accept_all create_connection acquire Pool.new iota
    init EventLoop.new parse_args parse_options finish_config TlsContext.new to_decimal
main_plain = refl

abbrev before_client : EventLoop
before_client = start_loop machine in_place without_tls 3

rounds-RunsLive : RunsLive machine.rounds before_client
unfolding on_signals
rounds-RunsLive = (((λ clash. absurd (ground arith)), record {}), record {})

client-FreeSocket : FreeSocket 7 (submit before_client)
unfolding start_loop EventLoop.new add_listener add_event flush_changelist
client-FreeSocket = ((λ j e. absurd (ground arith)), λ e. absurd (ground arith))

rounds-LoopFree : LoopFree true machine.rounds before_client
unfolding on_signals
rounds-LoopFree = (((client-FreeSocket, record {}), record {}), record {})

main-IsOk_example : IsOk before_client × IsOk (run machine.rounds before_client)
main-IsOk_example = main-IsOk machine (codes "fws" ∷ []) main_plain rounds-RunsLive

main-Interest_example : Interest before_client × Interest (run machine.rounds before_client)
main-Interest_example =
    main-Interest machine (codes "fws" ∷ []) main_plain refl (omega arith) (record {})
      rounds-LoopFree
