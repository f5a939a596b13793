-- ===== src/Http/Request/Printed/Parsed.antt =====
-- What `parse` reads from a request that is written out.
use file_web_server.Base.{
  ℕ, zero, suc, ◌+◌, ◌≤◌, Bool, true, false, List, [], ◌∷◌, ◌++◌, ◌≡◌, refl, ap, ◌∙◌, arith, none,
  some, All, NotByte, Bytes, codes, length, take, drop, find, find_byte, find_byte-append,
  length-append, take-length_append, drop-behind, All-append,
}
use file_web_server.Http.Request.Printed.{
  IsField, IsLine, IsToken, closed, field_line, field_line-IsLine, find-absent, find-closed,
  find-crlf, header_line-field, lowered, parse_headers-line, request_line, request_text,
  request_text-closed,
}
use file_web_server.Http.Request.{
  HttpRequest, crlf, crlf_crlf, method_of, parse, parse_block, parse_headers, parse_request_line,
  reset,
}

-- The fields that are kept: all but the last.
abbrev pub kept : List (Bytes × Bytes) → List (Bytes × Bytes)
kept [] = []
kept (f ∷ []) = []
kept (f ∷ g ∷ fs) = lowered f ∷ kept (g ∷ fs)

parse_headers-none : (fuel : ℕ) (s : Bytes) → IsLine s → parse_headers fuel s ≡ []
unfolding parse_headers
parse_headers-none zero s h = refl
parse_headers-none (suc fuel) [] h = refl
parse_headers-none (suc fuel) (c ∷ s) h =
    let absent = find-absent 13 (10 ∷ []) (c ∷ s) h in rw (parse_headers, absent) refl

parse_headers-closed :
    (fuel : ℕ) (f : Bytes × Bytes) (fs : List (Bytes × Bytes))
    → IsField f
    → All IsField fs
    → length (closed (field_line f) fs) ≤ fuel
    → parse_headers fuel (closed (field_line f) fs) ≡ kept (f ∷ fs)
parse_headers-closed fuel f [] h hs enough =
    parse_headers-none fuel (field_line f) (field_line-IsLine f h)
parse_headers-closed zero f (g ∷ fs) h hs enough =
    absurd (omega (arith, length-append (field_line f) (crlf ++ closed (field_line g) fs)))
parse_headers-closed (suc fuel) f (g ∷ fs) h (k, hs) enough =
    let below = closed (field_line g) fs in
    let later =
      parse_headers-closed fuel g fs k hs
        (omega (arith, length-append (field_line f) (crlf ++ below))) in
    parse_headers-line fuel (field_line f) below (field_line-IsLine f h)
    ∙ header_line-field f (parse_headers fuel below) h
    ∙ ap (λ z. lowered f ∷ z) later

abbrev described : Bytes → Bytes → Bytes → HttpRequest
described method path version = record {
  method = method_of method;
  raw_method = method;
  path = path;
  version = version;
  headers = [];
}

parse_request_line-split :
    (line after m p v rest : Bytes) (i j : ℕ)
    → find_byte b' ' line ≡ some i
    → take i line ≡ m
    → drop (i + 1) line ≡ after
    → find_byte b' ' after ≡ some j
    → take j after ≡ p
    → drop (j + 1) after ≡ v
    → parse_request_line line rest
      ≡ (true, record (described m p v) { headers = parse_headers (length rest) rest })
unfolding parse_request_line
parse_request_line-split line after m p v rest i j sp1 a b sp2 c d =
    rw (parse_request_line, sp1, b, sp2) (rw (a, b, c, d) refl)

parse_request_line-request_line :
    (method path version rest : Bytes)
    → IsToken method
    → IsToken path
    → parse_request_line (request_line method path version) rest ≡ (
      true,
      record (described method path version) { headers = parse_headers (length rest) rest },
    )
parse_request_line-request_line method path version rest (m, _) (p, _) =
    let line = request_line method path version in
    let after = path ++ (codes " " ++ version) in
    parse_request_line-split line after method path version rest (length method) (length path)
      (find_byte-append b' ' method after m) (take-length_append method (codes " " ++ after))
      (drop-behind method (codes " " ++ after) 1) (find_byte-append b' ' path version p)
      (take-length_append path (codes " " ++ version)) (drop-behind path (codes " " ++ version) 1)

pub request_line-IsLine :
    (method path version : Bytes)
    → IsToken method
    → IsToken path
    → IsLine version
    → IsLine (request_line method path version)
request_line-IsLine method path version (_, m) (_, p) v =
    All-append (NotByte 13) method _ m
      (ground arith, All-append (NotByte 13) path (codes " " ++ version) p (ground arith, v))

-- The outcome for a request with these fields: refused where there is none.
abbrev pub outcome : Bytes → Bytes → Bytes → List (Bytes × Bytes) → Bool × HttpRequest
outcome method path version [] = (false, reset)
outcome method path version (f ∷ fs) =
    (true, record (described method path version) { headers = kept (f ∷ fs) })

parse_block-closed :
    (method path version : Bytes) (fs : List (Bytes × Bytes))
    → IsToken method
    → IsToken path
    → IsLine version
    → All IsField fs
    → parse_block (closed (request_line method path version) fs) ≡ outcome method path version fs
unfolding parse_block
parse_block-closed method path version [] m p v h =
    let line = request_line method path version in
    let absent : find crlf line ≡ none =
      find-absent 13 (10 ∷ []) line (request_line-IsLine method path version m p v) in
    rw (parse_block, absent) refl
parse_block-closed method path version (f ∷ fs) m p v (h, hs) =
    let line = request_line method path version in
    let below = closed (field_line f) fs in
    let found : find crlf (line ++ (crlf ++ below)) ≡ some (length line) =
      find-crlf line below (request_line-IsLine method path version m p v) in
    let before : take (length line) (line ++ (crlf ++ below)) ≡ line =
      take-length_append line (crlf ++ below) in
    let behind : drop (length line + 2) (line ++ (crlf ++ below)) ≡ below =
      drop-behind line (crlf ++ below) 2 in
    rw (parse_block, found, before, behind)
      (parse_request_line-request_line method path version below m p
        ∙ ap (λ z. (true, record (described method path version) { headers = z }))
            (parse_headers-closed (length below) f fs h hs (omega arith)))

-- What is parsed of a request that is written out, whatever follows it.
pub parse-request_text :
    (method path version : Bytes) (fs : List (Bytes × Bytes)) (rest : Bytes)
    → IsToken method
    → IsToken path
    → IsLine version
    → All IsField fs
    → parse (request_text (request_line method path version) fs rest)
      ≡ outcome method path version fs
unfolding parse
parse-request_text method path version fs rest m p v h =
    let line = request_line method path version in
    let text = closed line fs in
    let found : find crlf_crlf (text ++ (crlf_crlf ++ rest)) ≡ some (length text) =
      find-closed line fs rest (request_line-IsLine method path version m p v) h in
    let before : take (length text) (text ++ (crlf_crlf ++ rest)) ≡ text =
      take-length_append text (crlf_crlf ++ rest) in
    ap parse (request_text-closed line fs rest)
    ∙ rw (parse, found, before) (parse_block-closed method path version fs m p v h)
