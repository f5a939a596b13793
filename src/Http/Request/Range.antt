-- ===== src/Http/Request/Range.antt =====
-- `HttpRequest::parse_range`.
pub mod Bounds
pub mod Written
use file_web_server.Base.{
  ℕ, ◌+◌, ◌-◌, ◌*◌, ◌^◌, Bool, ◌||◌, not, List, [], ◌∷◌, Option, none, some, ltb, leb, ◌==◌,
  if◌then◌else◌, length, take, drop, Bytes, codes, equal, find_byte, is_empty,
}
use file_web_server.Base.Int.{ℤ, pos, negsuc, ◌-ℤ◌, ltb_ℤ, leb_ℤ}

-- What a digit loop ends with: a byte that is no digit, a signed overflow (undefined behaviour in
-- C++), or the number.
pub data Digits : Type 0 where
  bad_digit overflow : Digits
  number : ℕ → Digits

-- off_t and long have 64 bits.
abbrev pub off_limit : ℕ
off_limit = 2 ^ 63

unfoldable pub read_digits : ℕ → Bytes → Digits
read_digits acc [] = number acc
read_digits acc (c ∷ s) =
    let next = acc * 10 + (c - b'0') in
    let later = read_digits next s in
    if ltb c b'0' || ltb b'9' c then bad_digit else if leb off_limit next then overflow else later

-- The result: `nullopt`, a closed interval, or undefined behaviour.
pub data RangeResult : Type 0 where
  no_range undefined : RangeResult
  range : ℤ → ℤ → RangeResult

-- The tests behind the two branches.
unfoldable pub check_range : ℤ → ℤ → ℤ → RangeResult
check_range size start end =
    if leb_ℤ size start || ltb_ℤ end start
    then no_range
    else range start (if leb_ℤ size end then size -ℤ pos 1 else end)

unfoldable pub suffix_range : ℤ → Bytes → RangeResult
unfolding check_range
suffix_range size end_str = elim (read_digits 0 end_str) [
  | bad_digit ↦ no_range
  | overflow ↦ undefined
  | number suffix ↦
      if suffix == 0
      then no_range
      else let start = size -ℤ pos suffix in
        check_range size (if ltb_ℤ start (pos 0) then pos 0 else start) (size -ℤ pos 1)
]

unfoldable pub bounded_range : ℤ → Bytes → Bytes → RangeResult
unfolding check_range
bounded_range size start_str end_str = elim (read_digits 0 start_str) [
  | bad_digit ↦ no_range
  | overflow ↦ undefined
  | number start ↦
      if is_empty end_str
      then check_range size (pos start) (size -ℤ pos 1)
      else elim (read_digits 0 end_str) [
        | bad_digit ↦ no_range
        | overflow ↦ undefined
        | number end ↦ check_range size (pos start) (pos end)
      ]
]

-- `range_hdr` is `header("range")`.
unfoldable pub parse_range_value : Bytes → ℤ → RangeResult
unfolding suffix_range bounded_range
parse_range_value range_hdr size =
    if is_empty range_hdr
    then no_range
    else if ltb (length range_hdr) 7 || not (equal (take 6 range_hdr) (codes "bytes="))
    then no_range
    else elim (find_byte b'-' (drop 6 range_hdr)) [
      | none ↦ no_range
      | some dash ↦
          let val = drop 6 range_hdr in
          let start_str = take dash val in
          let end_str = drop (dash + 1) val in
          if is_empty start_str
          then suffix_range size end_str
          else bounded_range size start_str end_str
    ]
