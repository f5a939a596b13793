-- ===== src/Core/Io.antt =====
-- What the operating system and OpenSSL answer to src/core/connection.cpp, and what it does to them.
use file_web_server.Base.{ℕ, Bytes}
use file_web_server.Base.Int.{ℤ}
use file_web_server.Http.Response.{Tm}

-- errno, as far as the code tells values apart: `again` is EAGAIN and EWOULDBLOCK.
pub data Errno : Type 0 where
  again other : Errno

-- SSL_get_error, as far as the code tells values apart.
pub data SslError : Type 0 where
  want_read want_write fatal : SslError

-- The answers of the system calls. recv(fd, buf, 1, MSG_PEEK): the byte, 0, or -1.
pub data Peeked : Type 0 where
  peeked : ℕ → Peeked
  no_byte : Peeked
  peek_failed : Errno → Peeked

-- SSL_accept: 1, or not.
pub data Accepted : Type 0 where
  accepted : Accepted
  not_accepted : SslError → Accepted

-- ::read: the bytes (their number is the result, 0 at the end of the stream), or -1.
pub data ReadResult : Type 0 where
  got : Bytes → ReadResult
  read_failed : Errno → ReadResult

-- SSL_read: a positive number of bytes, the first one apart; or not.
pub data SslReadResult : Type 0 where
  ssl_got : ℕ → Bytes → SslReadResult
  ssl_read_failed : SslError → SslReadResult

-- ::write: the number of bytes taken, or -1.
pub data WriteResult : Type 0 where
  wrote : ℕ → WriteResult
  write_failed : Errno → WriteResult

-- SSL_write: one more byte than the number taken, or not.
pub data SslWriteResult : Type 0 where
  ssl_wrote_suc : ℕ → SslWriteResult
  ssl_write_failed : SslError → SslWriteResult

-- sendfile: 0, or -1 with EAGAIN, each with the number of bytes sent; or -1 otherwise.
pub data SendfileResult : Type 0 where
  sent_all : ℕ → SendfileResult
  sent_some : ℕ → SendfileResult
  sendfile_failed : SendfileResult

-- pread: the bytes, or -1.
pub data PreadResult : Type 0 where
  pread_got : Bytes → PreadResult
  pread_failed : PreadResult

-- What the system answers while one event is handled. A call that is made twice in that time, for
-- the headers and for the first part of the body, has a field for each.
pub record Io : Type 0 where
  pub clock : ℕ  -- Clock::now(), in ticks
  pub time : ℤ  -- std::time(nullptr)
  pub gmtime : ℤ → Tm
  pub peek : Peeked
  pub ssl_accept : Accepted
  pub read : ReadResult
  pub ssl_read : SslReadResult
  pub write_headers : WriteResult
  pub ssl_write_headers : SslWriteResult
  pub write_body : WriteResult
  pub ssl_write_body : SslWriteResult
  pub sendfile : SendfileResult
  pub pread : PreadResult

-- What a connection does to the world, in order.
pub data Effect : Type 0 where
  signed_overflow : Effect  -- undefined behaviour in the digits of a Range header
  sent : Bytes → Effect  -- bytes handed to write or SSL_write, and taken
  sent_file : ℕ → ℤ → ℕ → Effect  -- sendfile: the file, the offset and the number of bytes sent
  shut_down : ℕ → Effect
  closed_fd : ℕ → Effect
  ssl_shut_down : ℕ → Effect
  ssl_freed : ℕ → Effect
