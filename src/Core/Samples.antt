-- ===== src/Core/Samples.antt =====
-- Concrete systems and connections for the runs under Core.
use file_web_server.Base.{ℕ, [], ◌∷◌, none, some, codes}
use file_web_server.Base.Int.{pos}
use file_web_server.Core.Connection.{Connection, fresh, sending_headers}
use file_web_server.Core.EventLoop.{Env}
use file_web_server.Core.Io.{
  Io, again, fatal, no_byte, not_accepted, read_failed, ssl_read_failed, wrote, ssl_write_failed,
  sent_all, pread_failed,
}
use file_web_server.Http.Request.{HttpRequest, get}
use file_web_server.Http.Response.{HttpResponse, Tm}
use file_web_server.Http.Response
use file_web_server.Server.FileServer.Listing.Insertion.{insertion_sort}
use file_web_server.Server.FileServer.Files.{FileSystem, FileInfo, regular}

abbrev pub epoch : Tm
epoch = record { wday = 4; mday = 1; mon = 0; year = 1970; hour = 0; minute = 0; second = 0 }

-- A socket that takes `h` bytes of the headers and `b` bytes of a body, and has nothing to read.
abbrev pub socket : ℕ → ℕ → Io
socket h b = record {
  clock = 5;
  time = pos 0;
  gmtime = λ _. epoch;
  peek = no_byte;
  ssl_accept = not_accepted fatal;
  read = read_failed again;
  ssl_read = ssl_read_failed fatal;
  write_headers = wrote h;
  ssl_write_headers = ssl_write_failed fatal;
  write_body = wrote b;
  ssl_write_body = ssl_write_failed fatal;
  sendfile = sent_all 0;
  pread = pread_failed;
}

-- No file exists.
abbrev pub empty_disk : FileSystem
empty_disk = record {
  lstat = λ _. none;
  stat = λ _. none;
  realpath = λ _. none;
  open_file = λ _. none;
  opendir = λ _. none;
}

abbrev pub world : Io → Env
world io = record {
  io = io;
  fs = empty_disk;
  localtime = λ _. epoch;
  http_date = λ _. none;
  new_ssl = none;
  overflowed = λ _ _. none;
  sort = insertion_sort;
  accepts = [];
}

abbrev pub page : HttpResponse
page = record Response.reset { body = codes "body" }

-- A connection with a page of four bytes behind two bytes of headers.
abbrev pub with_page : Connection
with_page = record fresh {
  fd = some 7;
  state = sending_headers;
  header_buf = codes "h:";
  response = page;
}

abbrev pub ranged_request : HttpRequest
ranged_request = record {
  method = get;
  raw_method = codes "GET";
  path = codes "/a";
  version = codes "HTTP/1.1";
  headers = (codes "range", codes "bytes=2-5") ∷ [];
}

abbrev pub ten_bytes : FileInfo
ten_bytes = record {
  fd = 9;
  size = pos 10;
  last_modified = pos 0;
  mime_type = codes "text/plain";
  resolved_path = codes "/srv/a";
}

-- Every path is a regular file of ten bytes.
abbrev pub disk_with_file : FileSystem
disk_with_file = record empty_disk {
  lstat = λ _. some (record { kind = regular; size = pos 10; mtime = pos 0 });
  open_file = λ _. some 9;
}
