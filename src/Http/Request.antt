-- ===== src/Http/Request.antt =====
-- src/http/http_request.h and http_request.cpp: the request parser and its accessors.
pub mod Range
pub mod Printed
mod Tests
use file_web_server.Base.Int.{ℤ}
use file_web_server.Base.{
  ℕ, zero, suc, ◌+◌, Bool, true, false, ◌&&◌, ◌||◌, List, [], ◌∷◌, Option, none, some, leb, ◌==◌,
  if◌then◌else◌, map, length, take, drop, Bytes, codes, equal, find, find_byte, is_empty,
}

pub data Method : Type 0 where
  get head unknown : Method

pub record HttpRequest : Type 0 where
  pub method : Method
  pub raw_method : Bytes
  pub path : Bytes
  pub version : Bytes
  pub headers : List (Bytes × Bytes)

-- `reset()`, and the state of a new object.
abbrev pub reset : HttpRequest
reset = record { method = unknown; raw_method = []; path = []; version = []; headers = [] }

abbrev pub crlf : Bytes
crlf = 13 ∷ 10 ∷ []

abbrev pub crlf_crlf : Bytes
crlf_crlf = 13 ∷ 10 ∷ 13 ∷ 10 ∷ []

unfoldable pub method_of : Bytes → Method
method_of raw =
    if equal raw (codes "GET") then get else if equal raw (codes "HEAD") then head else unknown

-- std::tolower in the "C" locale
unfoldable pub to_lower : ℕ → ℕ
to_lower c = if leb b'A' c && leb c b'Z' then c + 32 else c

unfoldable pub skip_blanks : Bytes → Bytes
skip_blanks [] = []
skip_blanks (c ∷ s) = if c == b' ' || c == 9 then skip_blanks s else c ∷ s

-- `line.find(": ")`, and where there is none `line.find(':')`
unfoldable pub find_colon : Bytes → Option ℕ
find_colon line = elim (find (codes ": ") line) [ some i ↦ some i | none ↦ find_byte b':' line ]

-- The body of the header loop for one line; `later` is what the next rounds append.
unfoldable pub header_line : Bytes → List (Bytes × Bytes) → List (Bytes × Bytes)
unfolding find_colon
header_line line later = elim (find_colon line) [
  | none ↦ later
  | some colon ↦ (map to_lower (take colon line), skip_blanks (drop (colon + 1) line)) ∷ later
]

-- The header loop. `rest` is `header_block.substr(pos)`; each round takes at least the two bytes of
-- a line end, so the length of the text is enough fuel.
unfoldable pub parse_headers : ℕ → Bytes → List (Bytes × Bytes)
parse_headers zero rest = []
parse_headers (suc fuel) [] = []
parse_headers (suc fuel) (c ∷ rest) = elim (find crlf (c ∷ rest)) [
  | none ↦ []
  | some eol ↦ header_line (take eol (c ∷ rest)) (parse_headers fuel (drop (eol + 2) (c ∷ rest)))
]

-- Method, path and version. A line without its two spaces leaves the fields set so far.
unfoldable pub parse_request_line : Bytes → Bytes → Bool × HttpRequest
unfolding parse_headers
parse_request_line line rest = elim (find_byte b' ' line) [
  | none ↦ (false, reset)
  | some sp1 ↦
      let after = drop (sp1 + 1) line in
      let named : HttpRequest = record reset {
        method = method_of (take sp1 line);
        raw_method = take sp1 line;
      } in
      elim (find_byte b' ' after) [
        | none ↦ (false, named)
        | some n ↦ (
          true,
          record named {
            path = take n after;
            version = drop (n + 1) after;
            headers = parse_headers (length rest) rest;
          },
        )
      ]
]

unfoldable pub parse_block : Bytes → Bool × HttpRequest
unfolding parse_request_line
parse_block block = elim (find crlf block) [
  | none ↦ (false, reset)
  | some lf ↦ parse_request_line (take lf block) (drop (lf + 2) block)
]

-- `parse`: whether it succeeded, and the object it leaves.
unfoldable pub parse : Bytes → Bool × HttpRequest
unfolding parse_block
parse raw = elim (find crlf_crlf raw) [
  | none ↦ (false, reset)
  | some end ↦ parse_block (take end raw)
]

-- The value of the first header of that name; empty where there is none.
unfoldable pub lookup : Bytes → List (Bytes × Bytes) → Bytes
lookup name [] = []
lookup name ((k, v) ∷ hs) = if equal k name then v else lookup name hs

abbrev pub header : HttpRequest → Bytes → Bytes
header r name = lookup name r.headers

unfoldable pub is_keep_alive : HttpRequest → Bool
is_keep_alive r =
    let conn = header r (codes "connection") in
    if equal r.version (codes "HTTP/1.1")
    then (if equal conn (codes "close") then false else true)
    else equal conn (codes "keep-alive")

-- strptime with "%a, %d %b %Y %H:%M:%S %Z" and then timegm are the first argument.
unfoldable pub parse_if_modified_since : (Bytes → Option ℤ) → HttpRequest → Option ℤ
parse_if_modified_since http_date r =
    let val = header r (codes "if-modified-since") in if is_empty val then none else http_date val
