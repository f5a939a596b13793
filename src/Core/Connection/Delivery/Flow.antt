-- ===== src/Core/Connection/Delivery/Flow.antt =====
-- What is relied on of a file that is being sent, and its progress by sendfile.
use file_web_server.Base.{
  ℕ, true, false, ◌+◌, ◌-◌, ◌≤◌, ◌<◌, ◌&&◌, not, [], Bytes, ◌≡◌, ◌⊎◌, inl, inr, arith, leb,
  if◌then◌else◌, length, is_some, Bool-cases,
}
use file_web_server.Base.Int.{ℤ, pos, pos_part, leb_ℤ, ◌-ℤ◌}
use file_web_server.Core.Io.{
  Io, PreadResult, SendfileResult, sent_all, sent_some, sendfile_failed, pread_got, pread_failed,
}
use file_web_server.Core.Connection.{
  Connection, State, emit, keep_alive, sending_headers, sending_body,
}
use file_web_server.Core.Connection.Sending.{
  after_sendfile, do_send_body_plain, file_effect, finish_body,
}
use file_web_server.Core.Connection.Delivery.Progress.{Takes}
use file_web_server.Core.Connection.Delivery.Whole.{IsSending}
use file_web_server.Core.Connection.Delivery.{FileOk, SendfileFits, close_file-state}

-- sendfile and pread give a byte or more, or all that is left.
abbrev pub SendfileFlows : SendfileResult → Type 0
SendfileFlows (sent_all n) = Unit {0}
SendfileFlows (sent_some n) = 0 < n
SendfileFlows sendfile_failed = ⊥

abbrev pub PreadFlows : PreadResult → Type 0
PreadFlows (pread_got bs) = 0 < length bs
PreadFlows pread_failed = ⊥

-- The answers to one event: each call takes a byte or more, or gives one where some are left.
pub record Answers (content : Bytes) (io : Io) (off left : ℤ) : Type 0 where
  pub takes : Takes io
  pub fits : FileOk content io off left
  pub sendfile_flows : leb_ℤ left (pos 0) ≡ false → SendfileFlows io.sendfile
  pub pread_flows : leb_ℤ left (pos 0) ≡ false → PreadFlows io.pread

abbrev pub FileAt : State → Connection → Type 0
FileAt s c = (is_some c.file_fd ≡ true) × IsSending s

-- The bytes of the file that are not sent.
abbrev pub unsent : Connection → ℕ
unsent c =
    let left = pos_part c.send_remaining in
    if is_some c.ssl && not (leb c.chunk_used c.chunk_sent)
    then c.chunk_used - c.chunk_sent + (left - c.chunk_used)
    else left

-- A bound on the writable events that are still needed.
abbrev pub file_left : State → Connection → ℕ
file_left sending_headers c = length c.header_buf - c.header_sent + unsent c + 2
file_left sending_body c = unsent c + 1
file_left _ c = 0

abbrev pub FileMoves : ℕ → Connection → Type 0
FileMoves n d = (d.state ≡ keep_alive) ⊎ (FileAt d.state d × (file_left d.state d < n))

pub at_most : {m n : ℕ} (d : Connection) → m ≤ n → FileMoves m d → FileMoves n d
at_most d h (inl k) = inl k
at_most d h (inr (p, k)) = inr (p, omega arith)

pub finish_body-FileMoves : (n : ℕ) (c : Connection) → FileMoves n (finish_body c).0
finish_body-FileMoves n c = inl (close_file-state [] (record c { state = keep_alive }))

after_sendfile-FileMoves :
    (r : SendfileResult) (c : Connection)
    → SendfileFlows r
    → SendfileFits r c.send_remaining
    → c.state ≡ sending_body
    → is_some c.file_fd ≡ true
    → is_some c.ssl ≡ false
    → FileMoves (file_left sending_body c) (after_sendfile r c).0
unfolding after_sendfile ◌-ℤ◌
after_sendfile-FileMoves (sent_all n) c w h s f t =
    finish_body-FileMoves _ (record (emit (file_effect c n) c) { send_remaining = pos 0 })
after_sendfile-FileMoves (sent_some n) c w h s f t = inr ((f, inr s), rw (s, t) (ground arith))
after_sendfile-FileMoves sendfile_failed c w h s f t = absurd w

pub do_send_body_plain-FileMoves :
    (content : Bytes) (io : Io) (c : Connection)
    → Answers content io c.send_offset c.send_remaining
    → c.state ≡ sending_body
    → is_some c.file_fd ≡ true
    → is_some c.ssl ≡ false
    → FileMoves (file_left sending_body c) (do_send_body_plain io c).0
unfolding do_send_body_plain
do_send_body_plain-FileMoves content io c a s f t =
    elim (Bool-cases (leb_ℤ c.send_remaining (pos 0))) [
      | inl e ↦ rw e (finish_body-FileMoves _ c)
      | inr e ↦
          rw e
            (after_sendfile-FileMoves io.sendfile c (a.sendfile_flows e) a.fits.sendfile_fits s f t)
    ]
