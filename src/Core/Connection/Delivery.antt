-- ===== src/Core/Connection/Delivery.antt =====
-- What src/core/connection.cpp puts on the wire, over any sequence of partial writes: the bytes sent
-- and the bytes still to send make up the response, and nothing is sent twice or left out.
pub mod Memory
pub mod Plain
pub mod Tls
pub mod Run
pub mod Whole
pub mod Progress
pub mod Flow
pub mod Chunks
pub mod Files
pub mod Ends
mod Tests
use mathlib.Core.Path.{ap₂}
use file_web_server.Base.{
  ℕ, zero, suc, ◌+◌, ◌-◌, ◌≤◌, Bool, true, false, not, ◌&&◌, ◌||◌, List, [], ◌∷◌, ◌++◌, append-nil,
  append_assoc, Option, none, some, is_some, ◌≡◌, ◌≢◌, refl, sym, ap, ◌∙◌, inl, inr, arith, leb,
  if◌then◌else◌, length, take, drop, Bytes, Bool-cases, Option-cases, take-append-drop,
  take-append-take-drop, drop-drop, drop_all, is_empty,
}
use file_web_server.Base.Int.{ℤ, pos, negsuc, pos_part, neg_part, ◌+ℤ◌, ◌-ℤ◌, ◌≤ℤ◌, leb_ℤ}
use file_web_server.Core.Io.{
  Io, Effect, closed_fd, sent, sent_file, SendfileResult, sent_all, sent_some, sendfile_failed,
  PreadResult, pread_got, pread_failed,
}
use file_web_server.Core.Connection.{
  Connection, State, closed, keep_alive, sending_body, Want, emit, close, is_closed, close_file,
}
use file_web_server.Core.Connection.Sending.{
  Pushed, push, finish_body, file_effect, advanced, wait, broken, after_memory, after_sendfile,
  after_chunk, after_pread, after_push, send_memory, do_send_body_plain, do_send_body,
  after_headers, do_send_headers,
}
use file_web_server.Http.Response.{has_body}

-- The bytes on the wire after these system calls, where `content` is the file that is sent.
unfoldable pub wire : Bytes → List Effect → Bytes
wire content [] = []
wire content (sent bs ∷ es) = bs ++ wire content es
wire content (sent_file f off n ∷ es) = take n (drop (pos_part off) content) ++ wire content es
wire content (_ ∷ es) = wire content es

pub wire-append :
    (content : Bytes) (es fs : List Effect)
    → wire content (es ++ fs) ≡ wire content es ++ wire content fs
unfolding wire
wire-append content [] fs = refl
wire-append content (sent bs ∷ es) fs = simp (wire-append content es fs, append_assoc)
wire-append content (sent_file f off n ∷ es) fs = simp (wire-append content es fs, append_assoc)
wire-append content (_ ∷ es) fs = wire-append content es fs

-- The part of the file that is still to be sent.
abbrev pub slice : Bytes → ℤ → ℤ → Bytes
slice content off left = take (pos_part left) (drop (pos_part off) content)

pub slice_step :
    (content : Bytes) (off left : ℤ) (n : ℕ)
    → neg_part off ≡ 0
    → pos n ≤ℤ left
    → take n (drop (pos_part off) content) ++ slice content (off +ℤ pos n) (left -ℤ pos n)
      ≡ slice content off left
unfolding ◌+ℤ◌ ◌-ℤ◌
slice_step content (pos o) (pos r) n h k =
    let moved : pos o +ℤ pos n ≡ pos (o + n) = ground arith in
    let fewer : pos r -ℤ pos n ≡ pos (r - n) = ground arith in
    let sum : n + (r - n) ≡ r = omega arith in
    ap₂ (λ z w. take n (drop o content) ++ slice content z w) moved fewer
    ∙ ap (λ z. take n (drop o content) ++ take (r - n) z) (sym (drop-drop o n content))
    ∙ take-append-take-drop n (r - n) (drop o content)
    ∙ ap (λ m. take m (drop o content)) sum
slice_step content _ _ n h k = absurd (omega arith)

pub chunk_split :
    (k n : ℕ) (chunk behind : Bytes)
    → take n (drop k chunk) ++ (drop (k + n) chunk ++ behind) ≡ drop k chunk ++ behind
chunk_split k n chunk behind =
    sym (append_assoc (take n (drop k chunk)) (drop (k + n) chunk) behind)
    ∙ ap (λ z. (take n (drop k chunk) ++ z) ++ behind) (sym (drop-drop k n chunk))
    ∙ ap (λ z. z ++ behind) (take-append-drop n (drop k chunk))

abbrev pub in_memory : Connection → Bool
in_memory c = not (is_some c.file_fd) && has_body c.response

-- What is left of a file sent by chunks: the rest of the chunk, and the file behind it.
abbrev pub chunks_rest : Bytes → Connection → Bytes
chunks_rest content c =
    if leb c.chunk_used c.chunk_sent
    then slice content c.send_offset c.send_remaining
    else drop c.chunk_sent (take c.chunk_used c.chunk_buf)
      ++ slice content (c.send_offset +ℤ pos c.chunk_used) (c.send_remaining -ℤ pos c.chunk_used)

abbrev pub body_rest : Bytes → Connection → Bytes
body_rest content c =
    if in_memory c
    then drop c.body_sent c.response.body
    else if is_some c.ssl
    then chunks_rest content c
    else slice content c.send_offset c.send_remaining

-- HEAD, or neither a body nor a file: nothing follows the headers.
abbrev pub is_bodyless : Connection → Bool
is_bodyless c = c.is_head || (not (has_body c.response) && not (is_some c.file_fd))

abbrev pub behind_headers : Bytes → Connection → Bytes
behind_headers content c = if is_bodyless c then [] else body_rest content c

-- The part of the response that is still to be sent, by state.
abbrev pub rest : Bytes → State → Connection → Bytes
rest content keep_alive c = []
rest content sending_body c = body_rest content c
rest content _ c = drop c.header_sent c.header_buf ++ behind_headers content c

-- The whole of it, sent and unsent.
abbrev pub total : Bytes → Connection → Bytes
total content c = wire content c.effects ++ rest content c.state c

-- sendfile sends no more than it is asked for, and returns 0 only when it has sent all.
abbrev pub SendfileFits : SendfileResult → ℤ → Type 0
SendfileFits (sent_all n) left = left ≡ pos n
SendfileFits (sent_some n) left = pos n ≤ℤ left
SendfileFits sendfile_failed left = Unit {0}

-- pread returns bytes of the file from the offset on, no more than are asked for.
abbrev pub PreadFits : Bytes → PreadResult → ℤ → ℤ → Type 0
PreadFits content (pread_got bs) off left =
    (bs ≡ take (length bs) (drop (pos_part off) content)) × (pos (length bs) ≤ℤ left)
PreadFits content pread_failed off left = Unit {0}

-- What is relied on of the file while one event is handled: `off` and `left` are the connection's
-- send_offset_ and send_remaining_.
pub record FileOk (content : Bytes) (io : Io) (off left : ℤ) : Type 0 where
  pub offset : neg_part off ≡ 0
  pub sendfile_fits : SendfileFits io.sendfile left
  pub pread_fits : PreadFits content io.pread off left

pub close-closed : (c : Connection) → (close c).state ≡ closed
unfolding close
close-closed c = ground arith

module _ (content : Bytes) where
  pub wire-emit :
      (c : Connection) (bs : Bytes) (r : Bytes)
      → wire content (c.effects ++ sent bs ∷ []) ++ r ≡ wire content c.effects ++ (bs ++ r)
  unfolding wire
  wire-emit c bs r = rw wire-append (simp (append_assoc, append-nil))

  -- Taking bytes off the front of `xs` and putting them on the wire changes no total.
  pub wire-take :
      (c : Connection) (n k : ℕ) (xs : Bytes)
      → wire content (c.effects ++ sent (take n (drop k xs)) ∷ []) ++ drop (k + n) xs
        ≡ wire content c.effects ++ drop k xs
  wire-take c n k xs =
      wire-emit c (take n (drop k xs)) (drop (k + n) xs)
      ∙ ap (λ z. wire content c.effects ++ z)
          (ap (λ z. take n (drop k xs) ++ z) (sym (drop-drop k n xs))
            ∙ take-append-drop n (drop k xs))

  pub wire-take_last :
      (c : Connection) (n k : ℕ) (xs : Bytes)
      → length xs ≤ k + n
      → wire content (c.effects ++ sent (take n (drop k xs)) ∷ []) ++ []
        ≡ wire content c.effects ++ drop k xs
  wire-take_last c n k xs h =
      ap (λ z. wire content (c.effects ++ sent (take n (drop k xs)) ∷ []) ++ z)
        (sym (drop_all (k + n) xs h))
      ∙ wire-take c n k xs

  pub total-eq :
      (c : Connection) {r : Bytes}
      → rest content c.state c ≡ r
      → total content c ≡ wire content c.effects ++ r
  total-eq c e = ap (λ z. wire content c.effects ++ z) e

  pub wire-file :
      (c : Connection) (f n : ℕ) (r : Bytes)
      → c.file_fd ≡ some f
      → wire content (c.effects ++ file_effect c n) ++ r
        ≡ wire content c.effects ++ (take n (drop (pos_part c.send_offset) content) ++ r)
  unfolding wire
  wire-file c f n r e = rw e (rw wire-append (simp (append_assoc, append-nil)))

  pub close_file-wire :
      (c : Connection) → wire content (close_file c).effects ≡ wire content c.effects
  unfolding close_file wire
  close_file-wire c = elim (Option-cases c.file_fd) [
    | inl e ↦ rw (e, close_file)
    | inr (f, e) ↦
        rw (e, close_file)
          (wire-append content c.effects (closed_fd f ∷ []) ∙ append-nil (wire content c.effects))
  ]

  pub close_file-state : (c : Connection) → (close_file c).state ≡ c.state
  unfolding close_file
  close_file-state c = ground arith

  pub finish_body-total :
      (c : Connection) → total content (finish_body c).0 ≡ wire content c.effects ++ []
  finish_body-total c =
      total-eq (finish_body c).0 (ap (λ z. rest content z (finish_body c).0) (close_file-state _))
      ∙ ap (λ z. z ++ []) (close_file-wire _)

  pub slice_done : (off left : ℤ) → leb_ℤ left (pos 0) ≡ true → slice content off left ≡ []
  slice_done off (pos zero) h = refl
  slice_done off (pos (suc n)) h = absurd (ground arith)
  slice_done off (negsuc n) h = refl
