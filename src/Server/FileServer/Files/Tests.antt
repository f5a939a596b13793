-- ===== src/Server/FileServer/Files/Tests.antt =====
-- Opening a regular file.
use file_web_server.Base.{◌≡◌, refl, ◌++◌, codes, equal, find_byte, none, some}
use file_web_server.Base.Int.{pos}
use file_web_server.Http.Mime.{detect_mime_type, fallback_mime, rfind_byte}
use file_web_server.Server.FileServer.Files.Opening.{LinkInside, OpenAt, open_request-IsOpen}
use file_web_server.Server.FileServer.Files.{
  FileInfo, FileSystem, open_path, open_regular, open_request, open_target, opened, regular,
}
use file_web_server.Server.FileServer.Path.Safety.{IsSafe}
use file_web_server.Server.FileServer.Path.{
  hex_digit, normalize, push_segment, resolve, skip_slashes, split_segment, url_decode,
}

-- Every path is a regular file of ten bytes.
abbrev one_file : FileSystem
one_file = record {
  lstat = λ _. some (record { kind = regular; size = pos 10; mtime = pos 0 });
  stat = λ _. none;
  realpath = λ _. none;
  open_file = λ _. some 9;
  opendir = λ _. none;
}

abbrev found : FileInfo
found = record {
  fd = 9;
  size = pos 10;
  last_modified = pos 0;
  mime_type = fallback_mime;
  resolved_path = codes "/srv/a";
}

opens : open_request one_file (codes "/srv") (codes "/a") ≡ opened found
unfolding open_request open_path open_target open_regular normalize url_decode hex_digit resolve
    skip_slashes split_segment push_segment find_byte equal detect_mime_type rfind_byte
opens = refl

open_request-IsOpen_example :
    IsSafe (normalize (codes "/a"))
    × OpenAt one_file (codes "/srv" ++ normalize (codes "/a")) found
    × LinkInside one_file (codes "/srv") (codes "/srv" ++ normalize (codes "/a"))
open_request-IsOpen_example = open_request-IsOpen one_file (codes "/srv") (codes "/a") found opens
