-- ===== src/Lib.antt =====
-- The file web server: a single-threaded HTTP/1.1 server for static files, over kqueue.
--
-- A connection is accepted into a slot of a fixed pool, found to speak plain HTTP or TLS, read until
-- its headers are complete, parsed, answered with a file, a directory listing or an error page, and
-- kept for the next request. Each part is a module:
--   * Http.Request (src/http/http_request.h, http_request.cpp): the parser and the accessors;
--     Http.Request.Range is parse_range. Http.Request.Printed writes requests out, as
--     Range.Written does for ranges.
--   * Http.Response (src/http/http_response.h, http_response.cpp): the setters, build_headers,
--     format_time and error_body.
--   * Http.Mime (src/http/mime_types.h): the table and its binary search.
--   * Server.FileServer (src/server/file_server.h, file_server.cpp): Path is normalize and
--     is_within_root, Files is open, Listing and Page are list_directory and build_directory_html.
--   * Core.Pool (src/core/connection_pool.h): the stack of free indices. A pointer to a connection is
--     its index.
--   * Core.Connection (src/core/connection.h, connection.cpp): the record of its fields, init, reset
--     and close; Reading has the steps from detection to parsing, Sending those of the response.
--     Reading.Pieces is about requests that arrive in pieces, Delivery about the bytes on the wire;
--     Delivery.Flow says what is relied on of sendfile and pread.
--   * Core.EventLoop (src/core/event_loop.h, event_loop.cpp): the change list, the keep-alive list,
--     creating and destroying a connection; Respond is prepare_response, Process is
--     process_connection, Dispatch has dispatch, handle_accept, handle_timer and run, which goes
--     through rounds: what kevent returns, and the signals (Signals) that arrive by the next test
--     of g_running. Dispatch.Shutdown is about its end, Settings about what it leaves alone.
--     Process.Turn has what an event does to the connection itself, Process.States and Process.Course
--     its state, and Process.Answer follows a connection from the event that completes its request.
--     Invariant says what holds between two events (the pool, the states and the keep-alive list
--     agree), and KeepAlive relates the links of that list to a list of slots. Interest says what the
--     queue holds for each socket.
--   * Core.TlsContext (src/core/tls_context.h): the owner of an SSL_CTX.
--   * Server.Cli (src/server/cli.h): parse_args; std::exit is a result.
--   * Main (src/main.cpp): create_listener and main, over what the system answers; print_help and the
--     text of --version (src/core/version.h) are there too. Resources follows the socket, the queue and
--     the TLS context that it takes.
-- Base has what they share: tests on native numbers, lists, bytes and integers.
--
-- A method is a function from the old state to the new one. System calls and OpenSSL are
-- parameters: Core.Io.Io and Core.EventLoop.Env hold what they answer while one event is handled,
-- and Server.FileServer.Files.FileSystem what the file system answers. std::sort is a parameter too
-- (Listing.Order.Sorts says what is relied on of it, and Listing.Insertion is a sort that meets
-- it), and so is the interval, if any, that is answered where the digits of a Range header
-- overflow: Env.overflowed gives any, since the behaviour is undefined. System.applied is the
-- number of changes that kevent takes when add_listener hands them over. What a connection does to
-- the world is recorded in order in its field `effects`. Texts are lists of bytes. A descriptor of
-- -1 and a null pointer are `none`. Sizes and offsets (off_t) are integers; where the source can
-- overflow a signed number, in the digits of a Range header and in atoi, the model says so, and
-- elsewhere the numbers stay far below the limits of their types, which the model does not write
-- out, except for the counters of the pool and the port.
--
-- Bounds and fuel: Path.resolve gets the length of the text, of which each round takes a byte or
-- more, and has a result of its own for too little; Mime.lower_bound gets the length of the table;
-- Dispatch.expire_from gets the number of slots, since the list holds a slot at most once. The
-- other loops are structural.
--
-- Not modelled: logging (src/core/debug_log.h); fcntl; signals outside of run; connections that
-- are open when the program ends; that the queue forgets a descriptor that is closed (Interest goes
-- by the changes that are handed over); the capacity of buffers; that locale and time zone tables
-- are right.
mod Base
pub mod Http
pub mod Server
pub mod Core
pub mod Main
