-- ===== src/Http/Request/Printed.antt =====
-- `parse` on a request that is written out: its request line, its header fields, and an empty line.
pub mod Parsed
use file_web_server.Base.{
  ℕ, zero, suc, ◌+◌, ◌≤◌, All-append, Bool, true, false, List, [], ◌∷◌, ◌++◌, ◌≡◌, ◌≢◌, refl, sym,
  ap, ◌∙◌, inl, inr, arith, Option, none, some, ◌==◌, ◌||◌, if◌then◌else◌, append_assoc, map, All,
  NotByte, Bytes, codes, length, take, drop, find, find_byte, find_byte-append, starts_with,
  length-append, take-length_append, drop-behind, Bool-cases,
}
use file_web_server.Http.Request.{
  HttpRequest, crlf, crlf_crlf, find_colon, header_line, method_of, parse, parse_block,
  parse_headers, parse_request_line, reset, skip_blanks, to_lower,
}

-- A needle that starts with a byte that `x` does not hold is found behind `x`.
find-behind :
    (b : ℕ) (needle x y : Bytes) (k : ℕ)
    → All (NotByte b) x
    → find (b ∷ needle) y ≡ some k
    → find (b ∷ needle) (x ++ y) ≡ some (length x + k)
unfolding find starts_with
find-behind b needle [] y k h e = e ∙ ap some (omega arith)
find-behind b needle (c ∷ x) y k (h, hs) e =
    let later = find-behind b needle x y k hs e in
    let other : b == c ≡ false = ground (arith, h) in rw (other, later) (ap some (omega arith))

pub find-absent : (b : ℕ) (needle x : Bytes) → All (NotByte b) x → find (b ∷ needle) x ≡ none
unfolding find starts_with
find-absent b needle [] h = refl
find-absent b needle (c ∷ x) (h, hs) =
    let later = find-absent b needle x hs in
    let other : b == c ≡ false = ground (arith, h) in rw (other, later) refl

-- The two line ends behind a line are found at its end.
pub find-crlf : (l t : Bytes) → All (NotByte 13) l → find crlf (l ++ (crlf ++ t)) ≡ some (length l)
unfolding find starts_with
find-crlf l t h = find-behind 13 (10 ∷ []) l (crlf ++ t) 0 h refl ∙ ap some (omega arith)

-- A header field, as it stands in the text.
abbrev pub field_line : Bytes × Bytes → Bytes
field_line (name, value) = name ++ (codes ": " ++ value)

abbrev pub fields_text : List (Bytes × Bytes) → Bytes
fields_text [] = []
fields_text (f ∷ fs) = field_line f ++ (crlf ++ fields_text fs)

abbrev pub request_line : Bytes → Bytes → Bytes → Bytes
request_line method path version = method ++ (codes " " ++ (path ++ (codes " " ++ version)))

-- The line, the fields, the empty line, and what follows.
abbrev pub request_text : Bytes → List (Bytes × Bytes) → Bytes → Bytes
request_text line fs rest = line ++ (crlf ++ (fields_text fs ++ (crlf ++ rest)))

-- The text in front of the last line end and the empty line.
abbrev pub closed : Bytes → List (Bytes × Bytes) → Bytes
closed line [] = line
closed line (f ∷ fs) = line ++ (crlf ++ closed (field_line f) fs)

pub request_text-closed :
    (line : Bytes) (fs : List (Bytes × Bytes)) (rest : Bytes)
    → request_text line fs rest ≡ closed line fs ++ (crlf_crlf ++ rest)
request_text-closed line [] rest = refl
request_text-closed line (f ∷ fs) rest =
    ap (λ z. line ++ (crlf ++ z))
      (append_assoc (field_line f) (crlf ++ fields_text fs) (crlf ++ rest)
        ∙ request_text-closed (field_line f) fs rest)
    ∙ sym (append_assoc line (crlf ++ closed (field_line f) fs) (crlf_crlf ++ rest))

-- No carriage return; a space ends a token, a colon ends a name.
abbrev pub IsLine : Bytes → Type 0
IsLine s = All (NotByte 13) s

abbrev pub IsToken : Bytes → Type 0
IsToken s = All (NotByte b' ') s × All (NotByte 13) s

-- Not a blank.
abbrev pub StartsDark : Bytes → Type 0
StartsDark [] = Unit {0}
StartsDark (c ∷ _) = (c == b' ' || c == 9) ≡ false

abbrev pub IsField : Bytes × Bytes → Type 0
IsField (name, value) = All (NotByte b':') name × IsLine name × StartsDark value × IsLine value

pub field_line-IsLine : (f : Bytes × Bytes) → IsField f → IsLine (field_line f)
field_line-IsLine (name, value) (_, n, _, v) =
    All-append (NotByte 13) name (codes ": " ++ value) n (ground arith, (ground arith, v))

-- A text that starts with another byte than a carriage return.
abbrev pub StartsLine : Bytes → Type 0
StartsLine [] = ⊥
StartsLine (c ∷ _) = c ≢ 13

pub closed-StartsLine :
    (f : Bytes × Bytes) (fs : List (Bytes × Bytes)) (more : Bytes)
    → IsField f
    → StartsLine (closed (field_line f) fs ++ more)
closed-StartsLine ([], value) [] more h = ground arith
closed-StartsLine ([], value) (g ∷ fs) more h = ground arith
closed-StartsLine (c ∷ name, value) [] more (_, n, _, _) = n.0
closed-StartsLine (c ∷ name, value) (g ∷ fs) more (_, n, _, _) = n.0

find-after_crlf :
    (s : Bytes) (k : ℕ)
    → StartsLine s
    → find crlf_crlf s ≡ some k
    → find crlf_crlf (crlf ++ s) ≡ some (2 + k)
unfolding find starts_with
find-after_crlf [] k h e = elim h [ ]
find-after_crlf (c ∷ s) k h e =
    let other : 13 == c ≡ false = ground (arith, h) in rw (e, other) (ap some (omega arith))

pub find-closed :
    (line : Bytes) (fs : List (Bytes × Bytes)) (rest : Bytes)
    → IsLine line
    → All IsField fs
    → find crlf_crlf (closed line fs ++ (crlf_crlf ++ rest)) ≡ some (length (closed line fs))
unfolding find starts_with
find-closed line [] rest l h =
    find-behind 13 (10 ∷ 13 ∷ 10 ∷ []) line (crlf_crlf ++ rest) 0 l refl ∙ ap some (omega arith)
find-closed line (f ∷ fs) rest l (h, hs) =
    let below = closed (field_line f) fs in
    let later = find-closed (field_line f) fs rest (field_line-IsLine f h) hs in
    ap (find crlf_crlf) (append_assoc line (crlf ++ below) (crlf_crlf ++ rest))
    ∙ find-behind 13 (10 ∷ 13 ∷ 10 ∷ []) line (crlf ++ (below ++ (crlf_crlf ++ rest)))
        (2 + length below) l
        (find-after_crlf (below ++ (crlf_crlf ++ rest)) (length below)
          (closed-StartsLine f fs (crlf_crlf ++ rest) h) later)
    ∙ ap some (omega (arith, length-append line (crlf ++ below)))

-- How a field is kept: its name in lower case.
abbrev pub lowered : Bytes × Bytes → Bytes × Bytes
lowered (name, value) = (map to_lower name, value)

skip_blanks-dark : (s : Bytes) → StartsDark s → skip_blanks s ≡ s
unfolding skip_blanks
skip_blanks-dark [] h = refl
skip_blanks-dark (c ∷ s) h = rw h refl

pub header_line-field :
    (f : Bytes × Bytes) (later : List (Bytes × Bytes))
    → IsField f
    → header_line (field_line f) later ≡ lowered f ∷ later
unfolding header_line find starts_with skip_blanks
header_line-field (name, value) later (n, _, d, _) =
    let colon : find (codes ": ") (name ++ (codes ": " ++ value)) ≡ some (length name) =
      find-behind b':' (b' ' ∷ []) name (codes ": " ++ value) 0 n refl ∙ ap some (omega arith) in
    let before : take (length name) (name ++ (codes ": " ++ value)) ≡ name =
      take-length_append name (codes ": " ++ value) in
    let behind : drop (length name + 1) (name ++ (codes ": " ++ value)) ≡ b' ' ∷ value =
      drop-behind name (codes ": " ++ value) 1 in
    let dark : skip_blanks (b' ' ∷ value) ≡ value = skip_blanks-dark value d in
    rw (header_line, find_colon, colon, before, behind, dark) refl

pub parse_headers-line :
    (fuel : ℕ) (l t : Bytes)
    → IsLine l
    → parse_headers (suc fuel) (l ++ (crlf ++ t)) ≡ header_line l (parse_headers fuel t)
unfolding parse_headers find starts_with
parse_headers-line fuel [] t h = refl
parse_headers-line fuel (c ∷ l) t h =
    let text = (c ∷ l) ++ (crlf ++ t) in
    let found : find crlf text ≡ some (length (c ∷ l)) = find-crlf (c ∷ l) t h in
    let before : take (length (c ∷ l)) text ≡ c ∷ l = take-length_append (c ∷ l) (crlf ++ t) in
    let behind : drop (length (c ∷ l) + 2) text ≡ t = drop-behind (c ∷ l) (crlf ++ t) 2 in
    rw (parse_headers, found, before, behind) refl
