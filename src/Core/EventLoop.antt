-- ===== src/Core/EventLoop.antt =====
-- src/core/event_loop.h and event_loop.cpp: the loop's state, its change list, the keep-alive list,
-- and the life of a connection.
pub mod Respond
pub mod Fields
pub mod Signals
pub mod Settings
pub mod KeepAlive
pub mod Slots
pub mod Invariant
pub mod Process
pub mod Dispatch
pub mod Interest
use file_web_server.Base.{
  ℕ, Bool, true, false, not, List, [], ◌∷◌, ◌++◌, Option, none, some, ◌==◌, if◌then◌else◌, Bytes,
  is_some, take,
}
use file_web_server.Base.Int.{ℤ}
use file_web_server.Core.Pool.{Pool, acquire, release}
use file_web_server.Core.Pool
use file_web_server.Core.Connection.{
  Connection, Want, nothing, read, write, is_closed, fresh, init, close,
}
use file_web_server.Core.Io.{Io}
use file_web_server.Http.Response.{Tm}
use file_web_server.Server.FileServer.Listing.{Sort}
use file_web_server.Server.FileServer.Files.{FileSystem, canonical_root}

-- udata: what an event belongs to. A connection is its index in the pool.
pub data Udata : Type 0 where
  listener_tag timer_tag null : Udata
  connection : ℕ → Udata

pub data Filter : Type 0 where
  evfilt_read evfilt_write evfilt_timer : Filter

-- EV_ADD | EV_ENABLE, the same with EV_CLEAR, EV_DELETE
pub data Action : Type 0 where
  add add_clear delete : Action

-- struct kevent as a change; `seconds` is the period of the timer, 0 elsewhere.
pub record Change : Type 0 where
  pub ident : ℕ
  pub filter : Filter
  pub action : Action
  pub seconds : ℕ
  pub udata : Udata

-- struct kevent as an event
pub record Event : Type 0 where
  pub ev_error : Bool
  pub ev_eof : Bool
  pub udata : Udata

-- What the system answers while one event is dispatched.
pub record Env : Type 0 where
  pub io : Io
  pub fs : FileSystem
  pub localtime : ℤ → Tm
  pub http_date : Bytes → Option ℤ  -- strptime and timegm
  pub new_ssl : Option ℕ  -- TlsContext::new_ssl
  pub overflowed : Bytes → ℤ → Option (ℤ × ℤ)  -- parse_range behind an overflow
  pub sort : Sort  -- std::sort
  pub accepts : List ℕ  -- what accept returns before it fails

-- `conns` is the array of the pool, `submitted` the changes handed to kevent so far, `refused_fds`
-- the sockets closed because the pool was full; the last two are no fields of the source.
pub record EventLoop : Type 0 where
  pub kq : Option ℕ
  pub listen_fd : Option ℕ
  pub has_tls : Bool  -- tls_ctx_ != nullptr
  pub root_dir : Bytes
  pub pool : Pool
  pub conns : ℕ → Connection
  pub keep_alive_timeout : ℤ
  pub keepalive_head : Option ℕ
  pub changelist : List Change
  pub submitted : List Change
  pub refused_fds : List ℕ

-- The constructor; kqueue answers a descriptor or fails.
unfoldable pub new : Option ℕ → FileSystem → Bytes → ℤ → EventLoop
new kqueue fs root_dir timeout = record {
  kq = kqueue;
  listen_fd = none;
  has_tls = false;
  root_dir = canonical_root fs root_dir;
  pool = Pool.new;
  conns = λ _. fresh;
  keep_alive_timeout = timeout;
  keepalive_head = none;
  changelist = [];
  submitted = [];
  refused_fds = [];
}

-- The destructor: the descriptors that it closes. Those of open connections are not among them.
unfoldable pub destroy_loop : EventLoop → List ℕ
destroy_loop l = elim l.kq [ none ↦ [] | some kq ↦ kq ∷ [] ]

abbrev pub update {ℓ} : {A : Type ℓ} → (ℕ → A) → ℕ → A → ℕ → A
update f i v j = if i == j then v else f j

-- A write to one connection of the array.
abbrev pub put : ℕ → Connection → EventLoop → EventLoop
put i c l = record l { conns = update l.conns i c }

unfoldable pub add_event : ℕ → Filter → Action → Udata → EventLoop → EventLoop
add_event ident filter action udata l = record l {
  changelist =
      l.changelist
      ++ record { ident = ident; filter = filter; action = action; seconds = 0; udata = udata }
        ∷ [];
}

-- kevent takes up to `applied` changes before it fails, and none where kqueue failed. The list is
-- cleared in any case.
unfoldable pub flush_changelist : ℕ → EventLoop → EventLoop
flush_changelist applied l = record l {
  submitted = l.submitted ++ (if is_some l.kq then take applied l.changelist else []);
  changelist = [];
}

-- The timer fires every second.
unfoldable pub add_listener : ℕ → ℕ → EventLoop → EventLoop
unfolding add_event flush_changelist
add_listener applied fd l =
    let registered = add_event fd evfilt_read add listener_tag (record l { listen_fd = some fd }) in
    flush_changelist applied (record registered {
      changelist =
          registered.changelist
          ++ record {
            ident = 1;
            filter = evfilt_timer;
            action = add_clear;
            seconds = 1;
            udata = timer_tag;
          }
            ∷ [];
    })

-- prev->next = next, or the head where there is no prev
unfoldable pub set_next : Option ℕ → Option ℕ → EventLoop → EventLoop
set_next none next l = record l { keepalive_head = next }
set_next (some p) next l = put p (record (l.conns p) { keepalive_next = next }) l

-- next->prev = prev, where there is a next
unfoldable pub set_prev : Option ℕ → Option ℕ → EventLoop → EventLoop
set_prev none prev l = l
set_prev (some n) prev l = put n (record (l.conns n) { keepalive_prev = prev }) l

unfoldable pub add_to_keepalive_list : ℕ → EventLoop → EventLoop
unfolding set_prev
add_to_keepalive_list i l =
    if (l.conns i).in_keepalive_list
    then l
    else let linked =
        put i
          (record (l.conns i) {
            in_keepalive_list = true;
            keepalive_prev = none;
            keepalive_next = l.keepalive_head;
          })
          l in
      record (set_prev l.keepalive_head (some i) linked) { keepalive_head = some i }

unfoldable pub remove_from_keepalive_list : ℕ → EventLoop → EventLoop
unfolding set_next set_prev
remove_from_keepalive_list i l =
    if not (l.conns i).in_keepalive_list
    then l
    else let unmarked = put i (record (l.conns i) { in_keepalive_list = false }) l in
      let prev = (l.conns i).keepalive_prev in
      let skipped = set_next prev (l.conns i).keepalive_next unmarked in
      let linked = set_prev (skipped.conns i).keepalive_next prev skipped in
      put i (record (linked.conns i) { keepalive_prev = none; keepalive_next = none }) linked

unfoldable pub update_events : ℕ → Want → EventLoop → EventLoop
unfolding add_event
update_events i want l = elim (l.conns i).fd [
  | none ↦ l
  | some fd ↦ if is_closed (l.conns i).state then l else elim want [
    | read ↦ add_event fd evfilt_write delete null (add_event fd evfilt_read add (connection i) l)
    | write ↦ add_event fd evfilt_write add (connection i) (add_event fd evfilt_read delete null l)
    | nothing ↦ l
  ]
]

-- A slot of the pool, initialised and registered for reading; `none` where the pool is full.
unfoldable pub create_connection : ℕ → ℕ → EventLoop → Option ℕ × EventLoop
unfolding add_event
create_connection now fd l =
    let taken = acquire l.pool in
    elim taken.0 [
      | none ↦ (none, l)
      | some i ↦ (
        some i,
        add_event fd evfilt_read add (connection i) (
            put i
              (record (init now fd l.root_dir l.keep_alive_timeout (l.conns i)) {
                tls_available = l.has_tls;
              })
              (record l { pool = taken.1 })),
      )
    ]

-- The changes that drop a descriptor's events.
unfoldable pub delete_events : Option ℕ → EventLoop → EventLoop
unfolding add_event
delete_events none l = l
delete_events (some fd) l =
    add_event fd evfilt_write delete null (add_event fd evfilt_read delete null l)

unfoldable pub destroy_connection : ℕ → EventLoop → EventLoop
unfolding delete_events
destroy_connection i l =
    let unlinked = remove_from_keepalive_list i l in
    let dropped = delete_events (unlinked.conns i).fd unlinked in
    let ended = put i (close (dropped.conns i)) dropped in
    record ended { pool = release ended.pool i }
