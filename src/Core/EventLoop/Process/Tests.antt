-- ===== src/Core/EventLoop/Process/Tests.antt =====
-- A request with the method PUT.
use file_web_server.Base.{
  inr, to_decimal, ◌++◌, ◌≡◌, codes, false, arith, equal, find, find_byte, refl, starts_with, true,
  [], some,
}
use file_web_server.Base.Int.{pos}
use file_web_server.Core.Connection.{Connection, fresh, keep_alive, parsing}
use file_web_server.Core.Io.{got, ssl_wrote_suc}
use file_web_server.Core.Connection.Delivery.Flow.{Answers}
use file_web_server.Core.Connection.{reset, close_file}
use file_web_server.Core.Connection.Reading.{do_parse, do_read}
use file_web_server.Core.Connection.Sending.{do_send_body, do_send_headers, push}
use file_web_server.Core.EventLoop.Respond.{page_response, prepare_response, error_status}
use file_web_server.Server.FileServer.Files.{open_path, open_regular, open_request, open_target}
use file_web_server.Server.FileServer.Path.{
  hex_digit, normalize, push_segment, resolve, skip_slashes, split_segment, url_decode,
}
use file_web_server.Http.Response.{build_headers, error_body, format_time, padded, reason}
use file_web_server.Http.Request.{is_keep_alive, lookup}
use file_web_server.Core.Connection.Delivery.Progress.{resumed}
use file_web_server.Core.Connection.Delivery.Whole.{response_bytes}
use file_web_server.Core.Connection.Delivery.{wire}
use file_web_server.Core.EventLoop.Process.Answer.{Completes, answer, turn-delivers}
use file_web_server.Core.EventLoop.Process.Turn.{turn}
use file_web_server.Core.EventLoop.Process.Stuck.{process_connection-unknown}
use file_web_server.Core.EventLoop.Process.{
  inline_parse, respond, run_state, start_tls, is_unknown, process_connection,
}
use file_web_server.Core.EventLoop.{Env, EventLoop, put}
use file_web_server.Core.EventLoop
use file_web_server.Core.Samples.{empty_disk, socket, world}
use file_web_server.Http.Request.{header_line, method_of, parse, skip_blanks, to_lower}

abbrev put_request : Connection
put_request = record fresh {
  fd = some 7;
  state = parsing;
  read_buf = codes "PUT / HTTP/1.1\r\nHost: x\r\n\r\n";
}

abbrev one_put : EventLoop
one_put = put 0 put_request (EventLoop.new (some 4) empty_disk [] (pos 75))

is_parsed : (parse put_request.read_buf).0 ≡ true
unfolding parse method_of header_line to_lower skip_blanks find find_byte starts_with equal
is_parsed = refl

unknown_method : is_unknown (parse put_request.read_buf).1.method ≡ true
unfolding parse method_of header_line to_lower skip_blanks find find_byte starts_with equal
unknown_method = refl

process_connection-unknown_example :
    process_connection (world (socket 0 0)) 0 one_put
    ≡ put 0 (record put_request { request = (parse put_request.read_buf).1 }) one_put
process_connection-unknown_example =
    process_connection-unknown (world (socket 0 0)) 0 one_put refl is_parsed unknown_method

-- The next request of a connection, for a file that is not there; the socket takes all at once.
abbrev waiting : Connection
waiting = record fresh { fd = some 7; state = keep_alive }

abbrev asking : Env
asking = world (record (socket 148 200) {
  ssl_write_headers = ssl_wrote_suc 0;
  ssl_write_body = ssl_wrote_suc 0;
  read = got (codes "GET /a HTTP/1.1\r\nHost: x\r\n\r\n");
})

asking-Completes : Completes asking waiting
unfolding do_read reset close_file find starts_with parse find_byte method_of equal
asking-Completes = record { listens = inr refl; read_whole = refl; parses = refl; known = refl }

header_text :
    (answer asking (codes "/srv") waiting).header_buf
    ≡ codes
        "HTTP/1.1 404 Not Found\r\nDate: Thu, 01 Jan 1970 00:00:00 GMT\r\nContent-Type: text/html; charset=utf-8\r\nContent-Length: 126\r\nConnection: keep-alive\r\n\r\n"
unfolding do_read reset close_file find starts_with parse find_byte method_of equal prepare_response
    open_request open_path open_target open_regular normalize url_decode hex_digit resolve
    skip_slashes split_segment push_segment header_line to_lower skip_blanks lookup error_status
    error_body reason page_response build_headers format_time padded to_decimal is_keep_alive
header_text = refl

asking-Answers :
    Answers [] asking.io
      (answer asking (codes "/srv") waiting).send_offset
      (answer asking (codes "/srv") waiting).send_remaining
unfolding do_read reset close_file find starts_with parse find_byte method_of equal prepare_response
    open_request open_path open_target open_regular normalize url_decode hex_digit resolve
    skip_slashes split_segment push_segment header_line to_lower skip_blanks lookup error_status
    error_body reason page_response build_headers format_time padded to_decimal is_keep_alive
asking-Answers = record {
  takes = record {
    headers = (147, refl);
    ssl_headers = (0, refl);
    body = (199, refl);
    ssl_body = (0, refl);
  };
  fits = record { offset = refl; sendfile_fits = refl; pread_fits = tt };
  sendfile_flows = λ e. absurd (ground arith);
  pread_flows = λ e. absurd (ground arith);
}

turn-delivers_example :
    ((resumed [] (turn asking false (codes "/srv") waiting)).state ≡ keep_alive)
    × (wire [] (resumed [] (turn asking false (codes "/srv") waiting)).effects
        ≡ wire [] (answer asking (codes "/srv") waiting).effects
          ++ response_bytes [] (answer asking (codes "/srv") waiting))
unfolding push do_send_headers do_send_body run_state start_tls inline_parse respond do_parse
    do_read reset close_file find starts_with parse find_byte method_of equal prepare_response
    open_request open_path open_target open_regular normalize url_decode hex_digit resolve
    skip_slashes split_segment push_segment header_line to_lower skip_blanks lookup error_status
    error_body reason page_response build_headers format_time padded to_decimal is_keep_alive
turn-delivers_example =
    turn-delivers [] asking false (codes "/srv") waiting [] asking-Completes refl asking-Answers tt
      (omega arith)
