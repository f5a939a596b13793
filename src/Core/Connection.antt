-- ===== src/Core/Connection.antt =====
-- src/core/connection.h and connection.cpp: the state machine of one connection.
pub mod Delivery
pub mod Lifecycle
pub mod Links
pub mod Sockets
pub mod States
pub mod Reading
pub mod Sending
mod Tests
use file_web_server.Base.{
  ℕ, zero, suc, ◌+◌, ◌-◌, ◌≤◌, ◌<◌, Bool, true, false, not, ◌&&◌, ◌||◌, List, [], ◌∷◌, ◌++◌, Option,
  none, some, is_some, ltb, leb, ◌==◌, if◌then◌else◌, length, take, drop, Bytes, codes, find,
  is_empty, arith, ◌≡◌,
}
use file_web_server.Base.Int.{ℤ, pos, negsuc, ◌+ℤ◌, ◌-ℤ◌, ltb_ℤ, leb_ℤ, pos_part}
use file_web_server.Core.Io.{Effect, shut_down, closed_fd, ssl_shut_down, ssl_freed}
use file_web_server.Http.Request.{HttpRequest, parse, crlf_crlf}
use file_web_server.Http.Request
use file_web_server.Http.Response.{
  HttpResponse, Status, Tm, bad_request, internal_error, set_status, set_body, set_keep_alive,
  set_content_type, set_content_length, has_body, build_headers, error_body,
}
use file_web_server.Http.Response

pub data State : Type 0 where
  closed proto_detect tls_accept reading parsing sending_headers sending_body keep_alive : State

pub data Want : Type 0 where
  nothing read write : Want

-- A descriptor is a number, and -1 is `none`; so for the null pointers. The links of the keep-alive
-- list are indices of the pool. `effects` records the system calls, and is no field of the source.
pub record Connection : Type 0 where
  pub fd : Option ℕ
  pub state : State
  pub ssl : Option ℕ
  pub tls_available : Bool
  pub read_buf : Bytes
  pub headers_complete : Bool
  pub header_buf : Bytes
  pub header_sent : ℕ
  pub file_fd : Option ℕ
  pub file_size : ℤ
  pub send_offset : ℤ
  pub send_remaining : ℤ
  pub chunk_buf : Bytes
  pub chunk_used : ℕ
  pub chunk_sent : ℕ
  pub body_sent : ℕ
  pub request : HttpRequest
  pub response : HttpResponse
  pub is_head : Bool
  pub keepalive_prev : Option ℕ
  pub keepalive_next : Option ℕ
  pub in_keepalive_list : Bool
  pub last_active : ℕ
  pub keep_alive_timeout : ℤ
  pub root_dir : Bytes
  pub effects : List Effect

-- The value of a default-constructed connection.
abbrev pub fresh : Connection
fresh = record {
  fd = none;
  state = closed;
  ssl = none;
  tls_available = false;
  read_buf = [];
  headers_complete = false;
  header_buf = [];
  header_sent = 0;
  file_fd = none;
  file_size = pos 0;
  send_offset = pos 0;
  send_remaining = pos 0;
  chunk_buf = [];
  chunk_used = 0;
  chunk_sent = 0;
  body_sent = 0;
  request = Request.reset;
  response = Response.reset;
  is_head = false;
  keepalive_prev = none;
  keepalive_next = none;
  in_keepalive_list = false;
  last_active = 0;
  keep_alive_timeout = pos 75;
  root_dir = [];
  effects = [];
}

abbrev pub emit : List Effect → Connection → Connection
emit es c = record c { effects = c.effects ++ es }

-- header_buf_ and chunk_buf_ keep their old contents.
unfoldable pub init : ℕ → ℕ → Bytes → ℤ → Connection → Connection
init now fd root_dir ka_timeout c = record c {
  fd = some fd;
  ssl = none;
  tls_available = false;
  root_dir = root_dir;
  keep_alive_timeout = ka_timeout;
  state = proto_detect;
  last_active = now;
  headers_complete = false;
  header_sent = 0;
  file_fd = none;
  file_size = pos 0;
  send_offset = pos 0;
  send_remaining = pos 0;
  chunk_used = 0;
  chunk_sent = 0;
  body_sent = 0;
  is_head = false;
  read_buf = [];
  request = Request.reset;
  response = Response.reset;
  keepalive_prev = none;
  keepalive_next = none;
  in_keepalive_list = false;
}

-- if (file_fd_ >= 0) { ::close(file_fd_); file_fd_ = -1; }
unfoldable pub close_file : Connection → Connection
close_file c = elim c.file_fd [
  | none ↦ c
  | some f ↦ record c { file_fd = none; effects = c.effects ++ closed_fd f ∷ [] }
]

-- headers_complete_, header_buf_ aside, the request is forgotten; the protocol, the state and
-- last_active_ stay.
unfoldable pub reset : Connection → Connection
reset c =
    let d = close_file c in
    record d {
      request = Request.reset;
      response = Response.reset;
      header_buf = [];
      header_sent = 0;
      file_size = pos 0;
      send_offset = pos 0;
      send_remaining = pos 0;
      chunk_used = 0;
      body_sent = 0;
      chunk_sent = 0;
      is_head = false;
      read_buf = [];
    }

unfoldable pub close_socket : Connection → Connection
close_socket c = elim c.fd [
  | none ↦ c
  | some f ↦ record c { fd = none; effects = c.effects ++ shut_down f ∷ closed_fd f ∷ [] }
]

unfoldable pub free_ssl : Connection → Connection
free_ssl c = elim c.ssl [
  | none ↦ c
  | some s ↦ record c { ssl = none; effects = c.effects ++ ssl_shut_down s ∷ ssl_freed s ∷ [] }
]

abbrev pub is_closed : State → Bool
is_closed closed = true
is_closed _ = false

unfoldable pub close : Connection → Connection
unfolding close_socket free_ssl close_file
close c =
    if is_closed c.state
    then c
    else record (close_file (free_ssl (close_socket c))) { state = closed }

-- Whether more than `timeout` ticks have passed since the last activity.
unfoldable pub is_expired : ℤ → ℕ → Connection → Bool
is_expired timeout now c = ltb_ℤ timeout (pos now -ℤ pos c.last_active)
