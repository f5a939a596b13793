-- ===== src/Core/Connection/Tests.antt =====
-- Closing a connection that has a socket and a file.
use file_web_server.Base.{List, [], ◌∷◌, Bytes, codes, refl, ◌++◌, ◌≡◌, none, some, arith}
use file_web_server.Core.Connection.Lifecycle.{
  close_releases, file_effects, socket_effects, ssl_effects,
}
use file_web_server.Core.Connection.{Connection, close, closed, nothing, parsing, reading}
use file_web_server.Core.Samples.{socket, with_page}
use file_web_server.Core.Connection.Reading.Pieces.{Arrival, received, request-received}
use file_web_server.Core.Connection.Reading.{do_parse}
use file_web_server.Http.Request.Printed.Parsed.{outcome}

abbrev with_file : Connection
with_file = record with_page { file_fd = some 9 }

close_releases_example :
    ((close with_file).effects
      ≡ ((with_file.effects ++ socket_effects (some 7)) ++ ssl_effects none)
        ++ file_effects (some 9))
    × ((close with_file).fd ≡ none)
    × ((close with_file).ssl ≡ none)
    × ((close with_file).file_fd ≡ none)
    × ((close with_file).state ≡ closed)
close_releases_example = close_releases with_file (λ e. ground arith)

abbrev listening : Connection
listening = record with_page { state = reading }

abbrev two_fields : List (Bytes × Bytes)
two_fields = (codes "A", codes "b") ∷ (codes "C", codes "d") ∷ []

-- A request in two pieces, cut within its version.
abbrev two_pieces : List Arrival
two_pieces =
    (socket 0 0, b'G', codes "ET / HT")
    ∷ (socket 0 0, b'T', codes "P/1.1\r\nA: b\r\nC: d\r\n\r\n")
    ∷ []

request-received_example :
    ((received two_pieces listening).state ≡ parsing)
    × ((do_parse (socket 0 0) (received two_pieces listening)).0.request
        ≡ (outcome (codes "GET") (codes "/") (codes "HTTP/1.1") two_fields).1)
    × ((do_parse (socket 0 0) (received two_pieces listening)).1 ≡ nothing)
request-received_example =
    request-received (codes "GET") (codes "/") (codes "HTTP/1.1") two_fields two_pieces (socket 0 0)
      listening (ground arith) (ground arith) (ground arith) (ground arith) refl refl refl
      (omega arith)
