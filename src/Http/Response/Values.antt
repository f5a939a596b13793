-- ===== src/Http/Response/Values.antt =====
-- The values of header fields that the server writes itself.
use file_web_server.Base.{
  ℕ, zero, suc, ◌-◌, ◌%◌, List, [], ◌∷◌, ◌++◌, arith, All, All-append, NotByte, Bytes, codes,
  get_or, length, to_decimal,
}
use file_web_server.Base.Decimal.{IsDigit, to_decimal-IsDigit}
use file_web_server.Http.Request.Printed.{IsLine, StartsDark}
use file_web_server.Http.Response.{
  Tm, Status, format_time, month_name, padded, reason, space, status_code, weekday_name,
  weekday_names, month_names, zeros,
}

-- What stands in the values that the server writes itself: no carriage return, and no blank in front.
abbrev pub IsValue : Bytes → Type 0
IsValue v = StartsDark v × IsLine v

All-digits : (s : Bytes) → All IsDigit s → IsLine s
All-digits [] h = tt
All-digits (c ∷ s) (h, hs) = (ground (arith, h), All-digits s hs)

to_decimal-IsLine : (n : ℕ) → IsLine (to_decimal n)
to_decimal-IsLine n = All-digits (to_decimal n) (to_decimal-IsDigit n)

digits-StartsDark : (s : Bytes) → All IsDigit s → StartsDark s
digits-StartsDark [] h = tt
digits-StartsDark (c ∷ s) (h, hs) = ground (arith, h)

pub to_decimal-IsValue : (n : ℕ) → IsValue (to_decimal n)
to_decimal-IsValue n =
    (digits-StartsDark (to_decimal n) (to_decimal-IsDigit n), to_decimal-IsLine n)

zeros-IsLine : (n : ℕ) → IsLine (zeros n)
unfolding zeros
zeros-IsLine zero = tt
zeros-IsLine (suc n) = (ground arith, zeros-IsLine n)

padded-IsLine : (w n : ℕ) → IsLine (padded w n)
unfolding padded
padded-IsLine w n =
    All-append (NotByte 13) (zeros (w - length (to_decimal n))) (to_decimal n)
      (zeros-IsLine (w - length (to_decimal n))) (to_decimal-IsLine n)

-- A name from a table.
get_or-IsValue : (names : List Bytes) (i : ℕ) → All IsValue names → IsValue (get_or names i [])
get_or-IsValue [] i h = (tt, tt)
get_or-IsValue (s ∷ names) zero (h, hs) = h
get_or-IsValue (s ∷ names) (suc i) (h, hs) = get_or-IsValue names i hs

weekday_name-IsValue : (n : ℕ) → IsValue (weekday_name n)
weekday_name-IsValue n = get_or-IsValue weekday_names (n % 7) (ground arith)

month_name-IsValue : (n : ℕ) → IsValue (month_name n)
month_name-IsValue n = get_or-IsValue month_names (n % 12) (ground arith)

append-IsLine : (s t : Bytes) → IsLine s → IsLine t → IsLine (s ++ t)
append-IsLine = All-append (NotByte 13)

append-StartsDark : (s t : Bytes) → StartsDark s → StartsDark t → StartsDark (s ++ t)
append-StartsDark [] t h k = k
append-StartsDark (c ∷ s) t h k = h

pub format_time-IsValue : (t : Tm) → IsValue (format_time t)
unfolding format_time
format_time-IsValue t =
    let text : (s rest : Bytes) → IsLine s → IsLine rest → IsLine (s ++ rest) = append-IsLine in
    (
      append-StartsDark (weekday_name t.wday) _ (weekday_name-IsValue t.wday).0 (ground arith),
      text (weekday_name t.wday) _ (weekday_name-IsValue t.wday).1 (
          text (codes ", ") _ (ground arith) (
            text (padded 2 t.mday) _ (padded-IsLine 2 t.mday) (
              text space _ (ground arith) (
                text (month_name t.mon) _ (month_name-IsValue t.mon).1 (
                  text space _ (ground arith) (
                    text (padded 4 t.year) _ (padded-IsLine 4 t.year) (
                      text space _ (ground arith) (
                        text (padded 2 t.hour) _ (padded-IsLine 2 t.hour) (
                          text (codes ":") _ (ground arith) (
                            text (padded 2 t.minute) _ (padded-IsLine 2 t.minute) (
                              text (codes ":") _ (ground arith) (
                                text (padded 2 t.second) (codes " GMT") (padded-IsLine 2 t.second)
                                  (ground arith))))))))))))),
    )

reason-IsLine : (s : Status) → IsLine (reason s)
unfolding reason
reason-IsLine s = ground arith

abbrev pub status_line : Status → Bytes
status_line s = codes "HTTP/1.1 " ++ (to_decimal (status_code s) ++ (space ++ reason s))

pub status_line-IsLine : (s : Status) → IsLine (status_line s)
status_line-IsLine s = append-IsLine (codes "HTTP/1.1 ") _ (ground arith) (
    append-IsLine (to_decimal (status_code s)) _ (to_decimal-IsLine (status_code s))
      (append-IsLine space (reason s) (ground arith) (reason-IsLine s)))
