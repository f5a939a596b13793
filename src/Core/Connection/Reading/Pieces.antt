-- ===== src/Core/Connection/Reading/Pieces.antt =====
-- A request that arrives in pieces, over plain TCP or TLS: one `do_read` for each, and `do_parse`.
use file_web_server.Base.{
  ℕ, ◌+◌, ◌≤◌, false, List, [], ◌∷◌, ◌++◌, append-nil, append_assoc, none, some, is_some, ◌≡◌, refl,
  sym, ap, ◌∙◌, inl, inr, arith, ltb, if◌then◌else◌, length, length-append, Bytes, find, find-early,
  Bool-cases, All,
}
use file_web_server.Core.Connection.Reading.{after_read, do_parse, do_read, max_headers}
use file_web_server.Core.Connection.Sending.{error_response}
use file_web_server.Core.Connection.{Connection, State, nothing, parsing, reading, write}
use file_web_server.Core.Io.{Io, got, ssl_got}
use file_web_server.Http.Request.Printed.Parsed.{outcome, parse-request_text, request_line-IsLine}
use file_web_server.Http.Request.Printed.{
  IsField, IsLine, closed, find-closed, request_text-closed, IsToken, request_line, request_text,
}
use file_web_server.Http.Request.{crlf_crlf, parse}

-- A readable event with the answers of the system, and the bytes that it brings: one or more.
abbrev pub Arrival : Type 0
Arrival = Io × ℕ × Bytes

abbrev pub arrival : Arrival → Io
arrival (io, b, bs) = record io { read = got (b ∷ bs); ssl_read = ssl_got b bs }

abbrev pub arrived : List Arrival → Bytes
arrived [] = []
arrived ((io, b, bs) ∷ es) = (b ∷ bs) ++ arrived es

-- The state machine over these events: in READING each is one call of do_read.
abbrev pub received_in : State → Io → Connection → Connection
received_in reading io c = (do_read io c).0
received_in _ io c = c

abbrev pub received : List Arrival → Connection → Connection
received [] c = c
received (e ∷ es) c = received es (received_in c.state (arrival e) c)

do_read-arrival :
    (io : Io) (b : ℕ) (bs : Bytes) (c : Connection)
    → do_read (arrival (io, b, bs)) c ≡ after_read (b ∷ bs) (record c { last_active = io.clock })
unfolding do_read
do_read-arrival io b bs c = elim (Bool-cases (is_some c.ssl)) [
  | inl e ↦ rw e refl
  | inr e ↦ rw e refl
]

-- Before the end of the headers.
after_read-waits :
    (bytes : Bytes) (c : Connection)
    → c.state ≡ reading
    → find crlf_crlf (c.read_buf ++ bytes) ≡ none
    → length (c.read_buf ++ bytes) ≤ max_headers
    → ((after_read bytes c).0.state ≡ reading)
      × ((after_read bytes c).0.read_buf ≡ c.read_buf ++ bytes)
unfolding after_read
after_read-waits bytes c s e h =
    let fits : ltb max_headers (length (c.read_buf ++ bytes)) ≡ false = ground arith in
    rw (e, fits) (s, refl)

-- With the end of the headers.
after_read-ends :
    (bytes : Bytes) (c : Connection) (k : ℕ)
    → find crlf_crlf (c.read_buf ++ bytes) ≡ some k
    → ((after_read bytes c).0.state ≡ parsing)
      × ((after_read bytes c).0.read_buf ≡ c.read_buf ++ bytes)
unfolding after_read
after_read-ends bytes c k e = rw e (refl, refl)

-- The connection after one piece.
abbrev piece_read : Arrival → Connection → Connection
piece_read (io, b, bs) c = (after_read (b ∷ bs) (record c { last_active = io.clock })).0

received-piece :
    (e : Arrival) (es : List Arrival) (c : Connection)
    → c.state ≡ reading
    → received (e ∷ es) c ≡ received es (piece_read e c)
received-piece (io, b, bs) es c s =
    ap (λ z. received es (received_in z (arrival (io, b, bs)) c)) s
    ∙ ap (λ r. received es r.0) (do_read-arrival io b bs c)

-- The pieces of a text that ends with its first empty line.
received-all :
    (es : List Arrival) (c : Connection) (k : ℕ)
    → c.state ≡ reading
    → find crlf_crlf c.read_buf ≡ none
    → find crlf_crlf (c.read_buf ++ arrived es) ≡ some k
    → length (c.read_buf ++ arrived es) ≡ k + 4
    → k + 4 ≤ max_headers
    → ((received es c).state ≡ parsing) × ((received es c).read_buf ≡ c.read_buf ++ arrived es)
received-all [] c k s n e l h =
    let same = append-nil c.read_buf in
    let both : none ≡ some k = sym n ∙ ap (find crlf_crlf) (sym same) ∙ e in absurd (ground arith)
received-all ((io, b, bs) ∷ []) c k s n e l h =
    let bytes = b ∷ bs in
    let moved : Connection = record c { last_active = io.clock } in
    let same = append-nil bytes in
    let step = received-piece (io, b, bs) [] c s in
    let (ends, text) =
      after_read-ends bytes moved k (ap (λ z. find crlf_crlf (c.read_buf ++ z)) (sym same) ∙ e) in
    (
      ap (λ d. d.state) step ∙ ends,
      ap (λ d. d.read_buf) step ∙ text ∙ ap (λ z. c.read_buf ++ z) (sym same),
    )
received-all ((io, b, bs) ∷ (io', b', bs') ∷ es) c k s n e l h =
    let bytes = b ∷ bs in
    let more = arrived ((io', b', bs') ∷ es) in
    let moved : Connection = record c { last_active = io.clock } in
    let d = piece_read (io, b, bs) c in
    let whole = sym (append_assoc c.read_buf bytes more) in
    let there : find crlf_crlf (c.read_buf ++ (bytes ++ more)) ≡ some k = e in
    let long : length (c.read_buf ++ (bytes ++ more)) ≡ k + 4 = l in
    let sizes = length-append (c.read_buf ++ bytes) more in
    let total = ap length whole in
    let early =
      find-early 13 (10 ∷ 13 ∷ 10 ∷ []) (c.read_buf ++ bytes) more k
        (ap (find crlf_crlf) (sym whole) ∙ there) (omega arith) in
    let (waits, text) = after_read-waits bytes moved s early (omega arith) in
    let step = received-piece (io, b, bs) ((io', b', bs') ∷ es) c s in
    let kept : d.read_buf ++ more ≡ c.read_buf ++ (bytes ++ more) =
      ap (λ z. z ++ more) text ∙ sym whole in
    let (ends, all) =
      received-all ((io', b', bs') ∷ es) d k waits (ap (find crlf_crlf) text ∙ early)
        (ap (find crlf_crlf) kept ∙ there) (ap length kept ∙ long) h in
    (ap (λ z. z.state) step ∙ ends, ap (λ z. z.read_buf) step ∙ all ∙ kept)

do_parse-read :
    (io : Io) (c : Connection) (text : Bytes)
    → c.read_buf ≡ text
    → ((do_parse io c).0.request ≡ (parse text).1)
      × ((do_parse io c).1 ≡ (if (parse text).0 then nothing else write))
unfolding do_parse error_response
do_parse-read io c text e = elim (Bool-cases (parse text).0) [
  | inl p ↦ rw (e, p) (refl, refl)
  | inr p ↦ rw (e, p) (refl, refl)
]

-- For a method and a path without spaces, a version, and fields whose names hold no colon and
-- whose values do not start with a blank, all without a carriage return, and a connection in
-- READING with an empty buffer: if the request that is written from them, of at most 65536 bytes,
-- arrives in pieces of any sizes, over plain TCP or TLS, each read by one do_read, the state
-- becomes PARSING, and do_parse stores the method, the path, the version and the fields but the
-- last, with the names in lower case, or registers an answer where there is no field.
pub request-received :
    (method path version : Bytes) (fs : List (Bytes × Bytes)) (es : List Arrival) (io : Io)
    (c : Connection)
    → IsToken method
    → IsToken path
    → IsLine version
    → All IsField fs
    → c.state ≡ reading
    → c.read_buf ≡ []
    → arrived es ≡ request_text (request_line method path version) fs []
    → length (arrived es) ≤ max_headers
    → ((received es c).state ≡ parsing)
      × ((do_parse io (received es c)).0.request ≡ (outcome method path version fs).1)
      × ((do_parse io (received es c)).1
          ≡ (if (outcome method path version fs).0 then nothing else write))
unfolding find
request-received method path version fs es io c m p v f s b t h =
    let line = request_line method path version in
    let text = closed line fs in
    let shape : c.read_buf ++ arrived es ≡ text ++ crlf_crlf =
      ap (λ z. z ++ arrived es) b ∙ t ∙ request_text-closed line fs [] in
    let found = find-closed line fs [] (request_line-IsLine method path version m p v) f in
    let size = length-append text crlf_crlf in
    let same : c.read_buf ++ arrived es ≡ arrived es = ap (λ z. z ++ arrived es) b in
    let shape_length = ap length shape in
    let same_length = ap length same in
    let (ends, all) =
      received-all es c (length text) s (ap (find crlf_crlf) b) (ap (find crlf_crlf) shape ∙ found)
        (omega arith) (omega arith) in
    let (request, want) = do_parse-read io (received es c) (arrived es) (all ∙ same) in
    let parsed = ap parse t ∙ parse-request_text method path version fs [] m p v f in
    (ends, request ∙ ap (λ r. r.1) parsed, want ∙ ap (λ r. if r.0 then nothing else write) parsed)
