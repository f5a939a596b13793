-- ===== src/Core/Connection/Delivery/Ends.antt =====
-- A response of any kind, from its first event to KEEP_ALIVE.
use file_web_server.Base.{
  ℕ, true, false, ◌≤◌, ◌<◌, ◌++◌, List, [], ◌∷◌, Bytes, append-nil, ◌≡◌, ◌≢◌, ◌⊎◌, refl, sym, ap,
  ◌∙◌, inl, inr, arith, if◌then◌else◌, is_some, length, Option-cases, Bool,
}
use file_web_server.Core.Io.{Io}
use mathlib.Core.Path.{subst}
use file_web_server.Core.Connection.{Connection, State, closed, keep_alive, sending_headers}
use file_web_server.Core.Connection.Delivery.Files.{resume-FileMoves}
use file_web_server.Core.Connection.Delivery.Flow.{Answers, FileAt, file_left}
use file_web_server.Core.Connection.Delivery.Progress.{PageAt, left, resume-Moves, resumed}
use file_web_server.Core.Connection.Delivery.Whole.{
  Begins, in_headers, at_once, do_send_headers-at_once, PayloadOk, Prepared, Prepared-rest,
  response_bytes, resume, resume-total, IsSending,
}
use file_web_server.Core.Connection.Sending.{do_send_headers}
use file_web_server.Core.Connection.Delivery.{rest, total, wire}

-- A response in memory, or a file.
abbrev pub AnyAt : State → Connection → Type 0
AnyAt s c = PageAt s c ⊎ FileAt s c

-- A bound on the writable events that are still needed.
abbrev pub all_left : State → Connection → ℕ
all_left s c = if is_some c.file_fd then file_left s c else left s c

-- The answers to a sequence of events, until the response is out.
abbrev pub Answered : Bytes → List Io → Connection → Type 0
Answered content [] c = Unit {0}
Answered content (io ∷ ios) c =
    (IsSending c.state → Answers content io c.send_offset c.send_remaining)
    × Answered content ios (resume c.state io c)

abbrev pub AnyMoves : ℕ → Connection → Type 0
AnyMoves n d = (d.state ≡ keep_alive) ⊎ (AnyAt d.state d × (all_left d.state d < n))

AnyAt-IsSending : (s : State) (c : Connection) → AnyAt s c → IsSending s
AnyAt-IsSending s c (inl (_, inl e)) = inl e
AnyAt-IsSending s c (inl (_, inr (e, _))) = inr e
AnyAt-IsSending s c (inr (_, k)) = k

pub AnyAt-PayloadOk : (c : Connection) → AnyAt c.state c → PayloadOk c
AnyAt-PayloadOk c (inl (_, inl k)) e = absurd (ground arith)
AnyAt-PayloadOk c (inl (_, inr (_, b))) e = ground (arith, b)
AnyAt-PayloadOk c (inr (f, _)) e = ground (arith, f)

-- The bound by whether there is a file.
all_left-is_some :
    (s : State) (c : Connection) (b : Bool)
    → is_some c.file_fd ≡ b
    → all_left s c ≡ (if b then file_left s c else left s c)
all_left-is_some s c b e = ap (λ z. if z then file_left s c else left s c) e

pub resume-AnyMoves :
    (content : Bytes) (io : Io) (c : Connection)
    → Answers content io c.send_offset c.send_remaining
    → AnyAt c.state c
    → AnyMoves (all_left c.state c) (resume c.state io c)
resume-AnyMoves content io c a (inl p) =
    let d = resume c.state io c in
    let before = all_left-is_some c.state c false (ap is_some p.0) in
    elim (resume-Moves c.state io c a.takes refl p) [
      | inl k ↦ inl k
      | inr (q, k) ↦
          let after = all_left-is_some d.state d false (ap is_some q.0) in inr (inl q, omega arith)
    ]
resume-AnyMoves content io c a (inr p) =
    let d = resume c.state io c in
    let before = all_left-is_some c.state c true p.0 in
    elim (resume-FileMoves content c.state io c a refl p) [
      | inl k ↦ inl k
      | inr (q, k) ↦ let after = all_left-is_some d.state d true q.0 in inr (inr q, omega arith)
    ]

-- At KEEP_ALIVE further events do nothing.
pub resumed-still : (ios : List Io) (c : Connection) → c.state ≡ keep_alive → resumed ios c ≡ c
unfolding resume
resumed-still [] c h = refl
resumed-still (io ∷ ios) c h =
    let still : resume c.state io c ≡ c = ap (λ s. resume s io c) h in
    ap (resumed ios) still ∙ resumed-still ios c h

all_left-positive : (s : State) (c : Connection) → AnyAt s c → 0 < all_left s c
all_left-positive s c h =
    let counted = all_left-is_some s c (is_some c.file_fd) refl in
    elim (AnyAt-IsSending s c h) [ inl e ↦ rw e (ground arith) | inr e ↦ rw e (ground arith) ]

pub AnyMoves-open : (n : ℕ) (d : Connection) → AnyMoves n d → d.state ≢ closed
AnyMoves-open n d (inl k) e = absurd (ground arith)
AnyMoves-open n d (inr (q, _)) e = elim (AnyAt-IsSending d.state d q) [
  | inl k ↦ absurd (ground arith)
  | inr k ↦ absurd (ground arith)
]

-- Enough events end the response, and change nothing of what is sent and unsent together.
pub resumed-total :
    (content : Bytes) (ios : List Io) (c : Connection)
    → AnyAt c.state c
    → Answered content ios c
    → all_left c.state c ≤ length ios
    → ((resumed ios c).state ≡ keep_alive) × (total content (resumed ios c) ≡ total content c)
resumed-total content [] c p a h = let more = all_left-positive c.state c p in absurd (omega arith)
resumed-total content (io ∷ ios) c p (a, later) h =
    let sending = AnyAt-IsSending c.state c p in
    let d = resume c.state io c in
    let moves = resume-AnyMoves content io c (a sending) p in
    let same =
      (resume-total content c.state io c sending refl (AnyAt-PayloadOk c p) (a sending).fits
        (AnyMoves-open _ d moves)).0 in
    elim moves [
      | inl k ↦
          let still = resumed-still ios d k in
          (ap (λ z. z.state) still ∙ k, ap (total content) still ∙ same)
      | inr (q, k) ↦
          let (ends, same_later) = resumed-total content ios d q later (omega arith) in
          (ends, same_later ∙ same)
    ]

at_headers-AnyAt : (c : Connection) → c.state ≡ sending_headers → AnyAt c.state c
at_headers-AnyAt c s = elim (Option-cases c.file_fd) [
  | inl e ↦ inl (e, inl s)
  | inr (f, e) ↦ inr (ap is_some e, inl s)
]

-- At KEEP_ALIVE with the total of a prepared response, all of it is on the wire.
all_sent :
    (content : Bytes) (c out : Connection)
    → c.state ≡ sending_headers
    → Prepared c
    → out.state ≡ keep_alive
    → total content out ≡ total content c
    → wire content out.effects ≡ wire content c.effects ++ response_bytes content c
all_sent content c out s p ends same =
    let none_left : rest content out.state out ≡ [] = ap (λ z. rest content z out) ends in
    sym (append-nil (wire content out.effects))
    ∙ ap (λ z. wire content out.effects ++ z) (sym none_left)
    ∙ same
    ∙ ap (λ z. wire content c.effects ++ z) (Prepared-rest content c (inl s) p)

moved-total :
    (content : Bytes) (ios : List Io) (d : Connection) (n : ℕ)
    → AnyMoves n d
    → Answered content ios d
    → all_left d.state d ≤ length ios
    → ((resumed ios d).state ≡ keep_alive) × (total content (resumed ios d) ≡ total content d)
moved-total content ios d n (inl k) a h =
    let still = resumed-still ios d k in (ap (λ z. z.state) still ∙ k, ap (total content) still)
moved-total content ios d n (inr (q, _)) a h = resumed-total content ios d q a h

-- After the first event, as many as are left.
pub event-delivers :
    (content : Bytes) (io : Io) (ios : List Io) (c d : Connection)
    → c.state ≡ sending_headers
    → Prepared c
    → resume c.state io c ≡ d
    → Answers content io c.send_offset c.send_remaining
    → Answered content ios d
    → all_left d.state d ≤ length ios
    → ((resumed ios d).state ≡ keep_alive)
      × (wire content (resumed ios d).effects ≡ wire content c.effects ++ response_bytes content c)
event-delivers content io ios c d s p e a later h =
    let sends = at_headers-AnyAt c s in
    let n = all_left c.state c in
    let moves = resume-AnyMoves content io c a sends in
    let sending = AnyAt-IsSending c.state c sends in
    let same =
      (resume-total content c.state io c sending refl (AnyAt-PayloadOk c sends) a.fits
        (AnyMoves-open n (resume c.state io c) moves)).0 in
    let (ends, all) = moved-total content ios d n (subst (AnyMoves n) e moves) later h in
    (ends, all_sent content c (resumed ios d) s p ends (all ∙ ap (total content) (sym e) ∙ same))

-- The answers to the event in which a response begins.
abbrev pub AnswersTo : Bytes → Connection → Io → Type 0
AnswersTo content c io = Answers content io c.send_offset c.send_remaining

-- From a response of which nothing has been sent, with a page, a file or nothing behind its
-- headers, over plain TCP or TLS, which is either in SENDING_HEADERS, as the error pages of the
-- parser and the handshake are, or as prepare_response leaves it in PARSING, and then goes on with
-- a do_send_headers whose write takes all headers: if at each event every write takes a byte or
-- more, and sendfile and pread, as long as something of the file is left, give a byte or more of
-- it and nothing beyond it, where a sendfile that returns 0 has sent all that is left, then as
-- many writable events as the bytes that are to be sent, and two more, bring the connection to
-- KEEP_ALIVE with the whole response on the wire, once and in order.
pub resumed-delivers :
    (content : Bytes) (ios : List Io) {c b : Connection}
    → Prepared c
    → Begins (AnswersTo content c) c b
    → Answered content ios b
    → all_left b.state b ≤ length ios
    → ((resumed ios b).state ≡ keep_alive)
      × (wire content (resumed ios b).effects ≡ wire content c.effects ++ response_bytes content c)
unfolding resume
resumed-delivers content ios {c} p (in_headers s) a h =
    let (ends, same) = resumed-total content ios c (at_headers-AnyAt c s) a h in
    (ends, all_sent content c (resumed ios c) s p ends same)
resumed-delivers content ios {c} p (at_once io s e ok) a h =
    let c' : Connection = record c { state = sending_headers } in
    let reached = ap (λ r. r.0) (sym (do_send_headers-at_once io c p.no_header e)) in
    event-delivers content io ios c' (do_send_headers io c).0 refl
      (record { no_header = p.no_header; no_body = p.no_body; no_chunk = p.no_chunk }) reached ok a
      h
