-- ===== src/Http/Request/Range/Written.antt =====
-- `parse_range` on the three forms of a range that a client writes.
use file_web_server.Base.{
  ℕ, ◌+◌, ◌-◌, ◌*◌, ◌<◌, false, ◌||◌, ◌&&◌, [], ◌∷◌, ◌++◌, ◌≡◌, ◌∙◌, refl, arith, some, ltb, leb,
  if◌then◌else◌, length, length-append, take, take-length_append, drop, drop-behind, Bytes, codes,
  equal, find_byte, find_byte-append, is_empty, All, NotByte, to_decimal,
}
use file_web_server.Base.Decimal.{
  IsDigit, TakesDigits, read-to_decimal, to_decimal-IsDigit, to_decimal-cons,
}
use file_web_server.Base.Int.{ℤ, pos, ◌-ℤ◌}
use file_web_server.Http.Request.Range.{
  bounded_range, check_range, no_range, number, off_limit, parse_range_value, range, RangeResult,
  read_digits, suffix_range,
}

-- Both ends, a start, or a number of bytes at the end.
pub data Ask : Type 0 where
  between : ℕ → ℕ → Ask
  from last : ℕ → Ask

abbrev pub written : Ask → Bytes
written (between a b) = codes "bytes=" ++ (to_decimal a ++ (codes "-" ++ to_decimal b))
written (from a) = codes "bytes=" ++ (to_decimal a ++ codes "-")
written (last n) = codes "bytes=-" ++ to_decimal n

-- The numbers fit off_t.
abbrev pub IsSmall : Ask → Type 0
IsSmall (between a b) = (a < off_limit) × (b < off_limit)
IsSmall (from a) = a < off_limit
IsSmall (last n) = n < off_limit

abbrev min : ℕ → ℕ → ℕ
min a b = if ltb a b then a else b

-- What a file of that size has of it.
abbrev pub granted : ℕ → Ask → RangeResult
granted size (between a b) =
    if ltb a size && leb a b then range (pos a) (pos (min b (size - 1))) else no_range
granted size (from a) = if ltb a size then range (pos a) (pos (size - 1)) else no_range
granted size (last n) =
    if ltb 0 n && ltb 0 size then range (pos (size - n)) (pos (size - 1)) else no_range

read_digits-TakesDigits : TakesDigits off_limit read_digits
unfolding read_digits
read_digits-TakesDigits m d s h b =
    let digit : (ltb (b'0' + d) b'0' || ltb b'9' (b'0' + d)) ≡ false = ground arith in
    let z : b'0' + d - b'0' ≡ d = omega arith in
    let fits : leb off_limit (m * 10 + d) ≡ false = ground arith in rw (digit, z, fits) refl

read_digits-to_decimal : (n : ℕ) → n < off_limit → read_digits 0 (to_decimal n) ≡ number n
unfolding read_digits
read_digits-to_decimal n h = read-to_decimal off_limit read_digits read_digits-TakesDigits n h

no_dash : (s : Bytes) → All IsDigit s → All (NotByte b'-') s
no_dash [] h = tt
no_dash (c ∷ s) (h, hs) = (ground (arith, h), no_dash s hs)

to_decimal-is_empty : (n : ℕ) → is_empty (to_decimal n) ≡ false
to_decimal-is_empty n = let (c, s, e) = to_decimal-cons n in rw e refl

-- A start, a dash and what stands behind it.
parse_range_value-start :
    (a : ℕ) (t : Bytes) (size : ℤ)
    → parse_range_value (codes "bytes=" ++ (to_decimal a ++ (codes "-" ++ t))) size
      ≡ bounded_range size (to_decimal a) t
unfolding parse_range_value equal
parse_range_value-start a t size =
    let val = to_decimal a ++ (codes "-" ++ t) in
    let found : find_byte b'-' val ≡ some (length (to_decimal a)) =
      find_byte-append b'-' (to_decimal a) t (no_dash (to_decimal a) (to_decimal-IsDigit a)) in
    let before : take (length (to_decimal a)) val ≡ to_decimal a =
      take-length_append (to_decimal a) (codes "-" ++ t) in
    let behind : drop (length (to_decimal a) + 1) val ≡ t =
      drop-behind (to_decimal a) (codes "-" ++ t) 1 in
    let long : ltb (length (codes "bytes=" ++ val)) 7 ≡ false =
      ground (arith, length-append (to_decimal a) (codes "-" ++ t)) in
    rw (parse_range_value, long, found) (rw (before, behind, to_decimal-is_empty a) refl)

check_range-granted :
    (a b size : ℕ) → check_range (pos size) (pos a) (pos b) ≡ granted size (between a b)
unfolding check_range ◌-ℤ◌
check_range-granted a b size = ground arith

check_range-rest :
    (a size : ℕ) → check_range (pos size) (pos a) (pos size -ℤ pos 1) ≡ granted size (from a)
unfolding check_range ◌-ℤ◌
check_range-rest a size = ground arith

suffix_range-granted :
    (n size : ℕ) → n < off_limit → suffix_range (pos size) (to_decimal n) ≡ granted size (last n)
unfolding suffix_range check_range ◌-ℤ◌
suffix_range-granted n size h =
    let read = read_digits-to_decimal n h in rw (suffix_range, read) (ground arith)

parse_range_value-last :
    (n : ℕ) (size : ℤ)
    → parse_range_value (codes "bytes=-" ++ to_decimal n) size ≡ suffix_range size (to_decimal n)
unfolding parse_range_value equal find_byte
parse_range_value-last n size =
    let (c, s, e) = to_decimal-cons n in
    let long : ltb (length (codes "bytes=-" ++ to_decimal n)) 7 ≡ false = ground arith in
    rw (parse_range_value, long) refl

-- For a range that is written with a start, a start and an end, or a length from the end, each
-- below 2^63 in decimal, and a file of any size that is not negative: the parsed range is what the
-- file has of it, cut at the end of the file, and there is none where the start is behind the end
-- of the file or of the range.
pub parse_range-granted :
    (ask : Ask) (size : ℕ)
    → IsSmall ask
    → parse_range_value (written ask) (pos size) ≡ granted size ask
unfolding bounded_range
parse_range-granted (last n) size h =
    parse_range_value-last n (pos size) ∙ suffix_range-granted n size h
parse_range-granted (from a) size h =
    parse_range_value-start a [] (pos size)
    ∙ rw (bounded_range, read_digits-to_decimal a h) (check_range-rest a size)
parse_range-granted (between a b) size (h, k) =
    parse_range_value-start a (to_decimal b) (pos size)
    ∙ rw
        (
          bounded_range,
          read_digits-to_decimal a h,
          to_decimal-is_empty b,
          read_digits-to_decimal b k,
        )
        (check_range-granted a b size)
