-- ===== src/Core/EventLoop/Respond/Tests.antt =====
-- A response with a part of a file.
use file_web_server.Base.{◌≡◌, ◌≢◌, codes, true}
use file_web_server.Base.Int.{pos}
use file_web_server.Core.Connection.Delivery.{is_bodyless}
use file_web_server.Core.EventLoop.Respond.Head.{get_answer, head_answer, prepare_response-head}
use file_web_server.Core.EventLoop.{Env}
use file_web_server.Core.Samples.{disk_with_file}
use file_web_server.Base.{equal, refl, arith}
use file_web_server.Core.Connection.{Connection, fresh}
use file_web_server.Core.EventLoop.Respond.Sizes.{Announced, serve_file-Announced}
use file_web_server.Core.EventLoop.Respond.{serve_file, is_fresh}
use file_web_server.Core.Samples.{socket, world, ranged_request, ten_bytes}
use file_web_server.Http.Request.Range.Bounds.{parse_range_defined}
use file_web_server.Http.Request.Range.{parse_range_value, undefined}
use file_web_server.Http.Request.{header, lookup, parse_if_modified_since}

abbrev asked : Connection
asked = record fresh { request = ranged_request }

asked-defined : parse_range_value (header asked.request (codes "range")) (pos 10) ≢ undefined
unfolding header lookup equal
asked-defined = parse_range_defined (header asked.request (codes "range")) (pos 10) (omega arith)

serve_file-Announced_example : Announced ten_bytes (serve_file (world (socket 0 0)) ten_bytes asked)
unfolding lookup is_fresh parse_if_modified_since equal
serve_file-Announced_example =
    serve_file-Announced (world (socket 0 0)) ten_bytes asked (omega arith) refl asked-defined

abbrev server : Env
server = record (world (socket 0 0)) { fs = disk_with_file }

prepare_response-head_example :
    ((head_answer server (codes "/srv") asked).header_buf
      ≡ (get_answer server (codes "/srv") asked).header_buf)
    × ((head_answer server (codes "/srv") asked).response
        ≡ (get_answer server (codes "/srv") asked).response)
    × (is_bodyless (head_answer server (codes "/srv") asked) ≡ true)
prepare_response-head_example = prepare_response-head server (codes "/srv") asked
