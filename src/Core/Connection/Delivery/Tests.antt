-- ===== src/Core/Connection/Delivery/Tests.antt =====
-- A page that goes out in two events.
use file_web_server.Base.{ℕ, List, [], ◌∷◌, ◌++◌, ◌≡◌, refl, inl, inr, arith, codes, some}
use file_web_server.Base.Int.{pos, ◌+ℤ◌, ◌-ℤ◌}
use file_web_server.Core.Io.{Io, ssl_wrote_suc, sent_some, sent_all, pread_got, pread_failed}
use file_web_server.Core.Connection.Delivery.Ends.{resumed-delivers}
use file_web_server.Core.Connection.Delivery.Flow.{Answers}
use file_web_server.Core.Connection.Delivery.Progress.{Takes, resumed}
use file_web_server.Core.Connection.Delivery.Whole.{
  Begins, IsAbout, at_once, in_headers, Prepared, Resumes, Resumes-delivers, Resumes-complete,
  start, event, resume, response_bytes,
}
use file_web_server.Core.Connection.Delivery.{FileOk, rest, wire}
use file_web_server.Core.Connection.Sending.{push, do_send_headers, do_send_body}
use file_web_server.Core.Connection.{
  Connection, close_file, keep_alive, parsing, sending_headers, sending_body,
}
use file_web_server.Core.Samples.{socket, with_page}

-- As prepare_response leaves it.
abbrev answer : Connection
answer = record with_page { state = parsing }

abbrev headers_out : Connection
headers_out = (do_send_headers (socket 2 1) answer).0

abbrev body_out : Connection
body_out = resume sending_body (socket 0 3) headers_out

answer-Prepared : Prepared answer
answer-Prepared = record { no_header = refl; no_body = refl; no_chunk = refl }

no_file : (h b : ℕ) → FileOk [] (socket h b) (pos 0) (pos 0)
no_file h b = record { offset = refl; sendfile_fits = refl; pread_fits = tt }

answer-Begins : Begins (IsAbout [] answer) answer headers_out
unfolding push
answer-Begins = at_once (socket 2 1) refl refl (no_file 2 1)

both_events : Resumes [] headers_out body_out
unfolding do_send_headers do_send_body
both_events = event (socket 0 3) start (inr refl) (no_file 0 3)

-- The same page in SENDING_HEADERS, with the first event.
abbrev one_out : Connection
one_out = resume sending_headers (socket 1 0) with_page

Resumes-delivers_example :
    wire [] one_out.effects ++ rest [] one_out.state one_out
    ≡ wire [] [] ++ response_bytes [] with_page
unfolding resume do_send_headers
Resumes-delivers_example =
    Resumes-delivers [] {c = with_page} {b = with_page} {d = one_out}
      (record { no_header = refl; no_body = refl; no_chunk = refl }) (in_headers refl)
      (event (socket 1 0) start (inl refl) (no_file 1 0)) (λ e. ground arith)

Resumes-complete_example : wire [] body_out.effects ≡ wire [] [] ++ response_bytes [] answer
unfolding resume do_send_headers do_send_body
Resumes-complete_example = Resumes-complete [] answer-Prepared answer-Begins both_events refl

both_writes : wire [] body_out.effects ≡ codes "h:body"
unfolding resume do_send_headers do_send_body wire
both_writes = refl

-- A client that takes one byte at a time.
abbrev slow : Io
slow = record (socket 1 1) { ssl_write_headers = ssl_wrote_suc 0; ssl_write_body = ssl_wrote_suc 0 }

slow-Takes : Takes slow
slow-Takes = record {
  headers = (0, refl);
  ssl_headers = (0, refl);
  body = (0, refl);
  ssl_body = (0, refl);
}

abbrev slow_events : List Io
slow_events = slow ∷ slow ∷ slow ∷ slow ∷ slow ∷ slow ∷ slow ∷ slow ∷ []

-- Two bytes of a file, over TLS, to the same client.
abbrev with_part : Connection
with_part = record with_page {
  state = parsing;
  ssl = some 1;
  file_fd = some 9;
  send_offset = pos 1;
  send_remaining = pos 2;
}

abbrev slow_file : Io
slow_file = record slow { sendfile = sent_some 1; pread = pread_got (codes "il") }

abbrev file_out : Io
file_out = record slow { sendfile = sent_all 0; pread = pread_failed }

abbrev file_events : List Io
file_events = slow_file ∷ file_out ∷ file_out ∷ []

slow_file-Answers : Answers (codes "file") slow_file (pos 1) (pos 2)
slow_file-Answers = record {
  takes = record {
    headers = (0, refl);
    ssl_headers = (0, refl);
    body = (0, refl);
    ssl_body = (0, refl);
  };
  fits = record { offset = refl; sendfile_fits = omega arith; pread_fits = (refl, omega arith) };
  sendfile_flows = λ _. omega arith;
  pread_flows = λ _. omega arith;
}

file_out-Answers : Answers (codes "file") file_out (pos 3) (pos 0)
file_out-Answers = record {
  takes = record {
    headers = (0, refl);
    ssl_headers = (0, refl);
    body = (0, refl);
    ssl_body = (0, refl);
  };
  fits = record { offset = refl; sendfile_fits = refl; pread_fits = tt };
  sendfile_flows = λ e. absurd (ground arith);
  pread_flows = λ e. absurd (ground arith);
}

-- The headers in one write, and the first byte of the file behind them.
abbrev headers_first : Io
headers_first = record slow_file { ssl_write_headers = ssl_wrote_suc 1 }

headers_first-Answers : Answers (codes "file") headers_first (pos 1) (pos 2)
headers_first-Answers = record {
  takes = record {
    headers = (0, refl);
    ssl_headers = (1, refl);
    body = (0, refl);
    ssl_body = (0, refl);
  };
  fits = record { offset = refl; sendfile_fits = omega arith; pread_fits = (refl, omega arith) };
  sendfile_flows = λ _. omega arith;
  pread_flows = λ _. omega arith;
}

abbrev part_begun : Connection
part_begun = (do_send_headers headers_first with_part).0

resumed-delivers_example :
    ((resumed file_events part_begun).state ≡ keep_alive)
    × (wire (codes "file") (resumed file_events part_begun).effects ≡ codes "h:il")
unfolding resume push do_send_headers do_send_body wire ◌+ℤ◌ ◌-ℤ◌ close_file
resumed-delivers_example =
    resumed-delivers (codes "file") file_events {c = with_part} {b = part_begun}
      (record { no_header = refl; no_body = refl; no_chunk = refl })
      (at_once headers_first refl refl headers_first-Answers)
      ((λ _. slow_file-Answers), ((λ _. file_out-Answers), ((λ _. file_out-Answers), tt)))
      (omega arith)
