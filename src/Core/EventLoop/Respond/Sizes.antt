-- ===== src/Core/EventLoop/Respond/Sizes.antt =====
-- What `file_response` promises in its headers against what it tells the connection to send.
use file_web_server.Base.{
  sym, codes, true, false, Bool-cases, inl, inr, ◌≡◌, ◌≢◌, refl, Option, none, some, arith,
  if◌then◌else◌,
}
use file_web_server.Base.Int.{negsuc, ℤ, pos, ◌+ℤ◌, ◌-ℤ◌, ◌≤ℤ◌, +ℤ_parts, -ℤ_parts, ltb_ℤ, leb_ℤ}
use file_web_server.Core.Io.{Io}
use file_web_server.Core.Connection.{Connection}
use file_web_server.Core.Connection.Sending.{set_send_file}
use file_web_server.Core.EventLoop.{Env}
use file_web_server.Http.Request.{header, parse_if_modified_since}
use file_web_server.Core.EventLoop.Respond.{
  as_uint64, serve_file, is_fresh, answered_range, note_overflow, content_length, file_response,
}
use file_web_server.Http.Request.Range.{RangeResult, no_range, undefined, range, parse_range_value}
use file_web_server.Http.Request.Range.Bounds.{InFile, parse_range-InFile}
use file_web_server.Server.FileServer.Files.{FileInfo}

-- The part of the file that is to be sent lies in the file, and is as long as Content-Length says.
abbrev pub Announced : FileInfo → Connection → Type 0
Announced info c =
    (c.file_fd ≡ some info.fd)
    × (c.response.has_content_length ≡ true)
    × (pos c.response.content_length ≡ c.send_remaining)
    × (pos 0 ≤ℤ c.send_offset)
    × ((c.send_offset +ℤ c.send_remaining) ≤ℤ info.size)

-- The arithmetic: `to_send` is the number that `set_send_file` keeps of an interval.
abbrev pub to_send : ℤ → ℤ → ℤ
to_send s e = if leb_ℤ s e then e -ℤ s +ℤ pos 1 else pos 0

abbrev pub Fits : ℤ → ℤ → ℤ → ℤ → Type 0
Fits size s e len =
    (pos 0 ≤ℤ s) × (to_send s e ≡ len) × (pos 0 ≤ℤ to_send s e) × ((s +ℤ to_send s e) ≤ℤ size)

interval-Fits :
    (size s e : ℤ)
    → pos 0 ≤ℤ s
    → s ≤ℤ e
    → e ≤ℤ (size -ℤ pos 1)
    → Fits size s e (if ltb_ℤ (pos 0) size then e -ℤ s +ℤ pos 1 else pos 0)
interval-Fits size s e h k l =
    let a = -ℤ_parts size (pos 1) in
    let b = -ℤ_parts e s in
    let d = +ℤ_parts (e -ℤ s) (pos 1) in
    let f = +ℤ_parts s (e -ℤ s +ℤ pos 1) in
    let some_bytes : ltb_ℤ (pos 0) size ≡ true = ground (arith, a) in
    let ordered : leb_ℤ s e ≡ true = ground arith in
    rw (some_bytes, ordered) (h, refl, omega (arith, a, b, d, f), omega (arith, a, b, d, f))

whole-Fits :
    (size : ℤ)
    → pos 0 ≤ℤ size
    → Fits size
        (pos 0)
        (size -ℤ pos 1)
        (if ltb_ℤ (pos 0) size then size -ℤ pos 1 -ℤ pos 0 +ℤ pos 1 else pos 0)
whole-Fits size h = elim (Bool-cases (ltb_ℤ (pos 0) size)) [
  | inl some_bytes ↦
      let a = -ℤ_parts size (pos 1) in
      interval-Fits size (pos 0) (size -ℤ pos 1) (omega arith) (ground (arith, a)) (omega arith)
  | inr empty ↦
      let a = -ℤ_parts size (pos 1) in
      let none_left : leb_ℤ (pos 0) (size -ℤ pos 1) ≡ false = ground (arith, a) in
      rw (empty, none_left)
        (omega arith, refl, omega arith, omega (arith, +ℤ_parts (pos 0) (pos 0)))
]

pos-as_uint64 : (x : ℤ) → pos 0 ≤ℤ x → pos (as_uint64 x) ≡ x
pos-as_uint64 (pos n) h = refl
pos-as_uint64 (negsuc n) h = absurd (omega arith)

Fits-announced :
    (size s e len : ℤ)
    → Fits size s e len
    → (pos (as_uint64 len) ≡ to_send s e) × (pos 0 ≤ℤ s) × ((s +ℤ to_send s e) ≤ℤ size)
Fits-announced size s e len (a, b, c, d) = (rw (sym b) (pos-as_uint64 (to_send s e) c), a, d)

file_response-Announced :
    (io : Io) (info : FileInfo) (r : RangeResult) (c : Connection)
    → pos 0 ≤ℤ info.size
    → InFile info.size r
    → Announced info (file_response io info r c)
unfolding file_response set_send_file content_length
file_response-Announced io info no_range c h k =
    let (a, b, d) =
      Fits-announced info.size (pos 0) (info.size -ℤ pos 1) _ (whole-Fits info.size h) in
    (refl, refl, a, b, d)
file_response-Announced io info undefined c h k = absurd k
file_response-Announced io info (range s e) c h (k, l, m) =
    let (a, b, d) = Fits-announced info.size s e _ (interval-Fits info.size s e k l m) in
    (refl, refl, a, b, d)

answered-defined : (o : Option (ℤ × ℤ)) (r : RangeResult) → r ≢ undefined → answered_range o r ≡ r
answered-defined none no_range d = refl
answered-defined none (range s e) d = refl
answered-defined none undefined d = absurd (d refl)
answered-defined (some (s, e)) no_range d = refl
answered-defined (some (s, e)) (range _ _) d = refl
answered-defined (some (s, e)) undefined d = absurd (d refl)

-- For a file of size 0 or more that is not answered with 304, and a Range header whose digits do
-- not overflow: Content-Length is set and equal to the number of bytes the connection is told to
-- send, and these lie in the file.
pub serve_file-Announced :
    (env : Env) (info : FileInfo) (c : Connection)
    → pos 0 ≤ℤ info.size
    → is_fresh (parse_if_modified_since env.http_date c.request) info ≡ false
    → parse_range_value (header c.request (codes "range")) info.size ≢ undefined
    → Announced info (serve_file env info c)
unfolding serve_file
serve_file-Announced env info c h changed d =
    let r = parse_range_value (header c.request (codes "range")) info.size in
    rw changed (
      rw (answered-defined (env.overflowed (header c.request (codes "range")) info.size) r d) (
        file_response-Announced env.io info r (note_overflow r c) h
          (parse_range-InFile (header c.request (codes "range")) info.size d)))
