-- ===== src/Http/Request/Range/Bounds.antt =====
-- What `parse_range` of src/http/http_request.cpp answers: intervals inside the file, and no
-- overflow on short headers.
use file_web_server.Base.{
  ℕ, ◌+◌, ◌-◌, ◌*◌, ◌^◌, ◌≤◌, false, ◌||◌, not, [], ◌∷◌, ◌≡◌, ◌≢◌, ◌⊎◌, sym, refl, inl, inr, arith,
  ltb, leb, ◌==◌, if◌then◌else◌, length, take, drop, Bytes, codes, equal, find_byte, is_empty,
  length-take, length-drop, Bool-cases, Option-cases,
}
use native.Mathlib.Nat.{
  pow-suc, one-le-pow, mul-le-mul_right, le-mul_of_pos_right, le_trans, mul-le-mul_left,
  pow-le-pow_right, mul_assoc, mul_comm,
}
use file_web_server.Base.Int.{ℤ, pos, ◌-ℤ◌, ltb_ℤ, ◌≤ℤ◌}
use file_web_server.Http.Request.Range.{
  Digits, bad_digit, overflow, number, off_limit, read_digits, RangeResult, no_range, undefined,
  range, check_range, suffix_range, bounded_range, parse_range_value,
}

-- An interval that is answered is not empty and lies in the file. Nothing is known of what follows
-- undefined behaviour.
abbrev pub InFile : ℤ → RangeResult → Type 0
InFile size (range s e) = (pos 0 ≤ℤ s) × (s ≤ℤ e) × (e ≤ℤ (size -ℤ pos 1))
InFile size no_range = Unit {0}
InFile size undefined = ⊥

-- The same where the behaviour is defined.
abbrev InFileIf : ℤ → RangeResult → Type 0
InFileIf size undefined = Unit {0}
InFileIf size r = InFile size r

InFileIf-InFile : (size : ℤ) (r : RangeResult) → InFileIf size r → r ≢ undefined → InFile size r
InFileIf-InFile size (range s e) h d = h
InFileIf-InFile size no_range h d = h
InFileIf-InFile size undefined h d = d refl

check_range-InFileIf :
    (size start end : ℤ) → pos 0 ≤ℤ start → InFileIf size (check_range size start end)
unfolding check_range ◌-ℤ◌
check_range-InFileIf size start end h = ground arith

Digits-cases : (d : Digits) → (d ≡ bad_digit) ⊎ ((d ≡ overflow) ⊎ ((n : ℕ) × (d ≡ number n)))
Digits-cases bad_digit = inl refl
Digits-cases overflow = inr (inl refl)
Digits-cases (number n) = inr (inr (n, refl))

suffix_range-InFileIf : (size : ℤ) (s : Bytes) → InFileIf size (suffix_range size s)
unfolding suffix_range
suffix_range-InFileIf size s = elim (Digits-cases (read_digits 0 s)) [
  | inl e ↦ rw (InFileIf, suffix_range, e) tt
  | inr (inl e) ↦ rw (InFileIf, suffix_range, e) tt
  | inr (inr (n, e)) ↦ elim (Bool-cases (n == 0)) [
    | inl z ↦ rw (InFileIf, suffix_range, e, z) tt
    | inr z ↦
        rw (suffix_range, e, z)
          (check_range-InFileIf size
            (if ltb_ℤ (size -ℤ pos n) (pos 0) then pos 0 else size -ℤ pos n) (size -ℤ pos 1)
            (ground arith))
  ]
]

bounded_range-InFileIf : (size : ℤ) (s t : Bytes) → InFileIf size (bounded_range size s t)
unfolding bounded_range
bounded_range-InFileIf size s t = elim (Digits-cases (read_digits 0 s)) [
  | inl e ↦ rw (InFileIf, bounded_range, e) tt
  | inr (inl e) ↦ rw (InFileIf, bounded_range, e) tt
  | inr (inr (n, e)) ↦ elim (Bool-cases (is_empty t)) [
    | inl z ↦
        rw (bounded_range, e, z) (check_range-InFileIf size (pos n) (size -ℤ pos 1) (omega arith))
    | inr z ↦ elim (Digits-cases (read_digits 0 t)) [
      | inl f ↦ rw (InFileIf, bounded_range, e, z, f) tt
      | inr (inl f) ↦ rw (InFileIf, bounded_range, e, z, f) tt
      | inr (inr (m, f)) ↦
          rw (bounded_range, e, z, f) (check_range-InFileIf size (pos n) (pos m) (omega arith))
    ]
  ]
]

parse_range-InFileIf : (h : Bytes) (size : ℤ) → InFileIf size (parse_range_value h size)
unfolding parse_range_value
parse_range-InFileIf h size = elim (Bool-cases (is_empty h)) [
  | inl a ↦ rw a tt
  | inr a ↦ elim (Bool-cases (ltb (length h) 7 || not (equal (take 6 h) (codes "bytes=")))) [
    | inl b ↦ rw (a, b) tt
    | inr b ↦ elim (Option-cases (find_byte b'-' (drop 6 h))) [
      | inl c ↦ rw (a, b, c) tt
      | inr (dash, c) ↦ elim (Bool-cases (is_empty (take dash (drop 6 h)))) [
        | inl d ↦ rw (a, b, c, d) (suffix_range-InFileIf size (drop (dash + 1) (drop 6 h)))
        | inr d ↦
            rw (a, b, c, d)
              (bounded_range-InFileIf size (take dash (drop 6 h)) (drop (dash + 1) (drop 6 h)))
      ]
    ]
  ]
]

-- Whatever the Range header and the size, unless the sum of the digits overflows: an interval that
-- is answered starts at 0 or later, is not empty and ends before the end of the file.
pub parse_range-InFile :
    (h : Bytes) (size : ℤ)
    → parse_range_value h size ≢ undefined
    → InFile size (parse_range_value h size)
parse_range-InFile h size =
    InFileIf-InFile size (parse_range_value h size) (parse_range-InFileIf h size)

-- Enough room for every digit that is left.
read_digits_in_range :
    (acc : ℕ) (s : Bytes) → (acc + 1) * 10 ^ length s ≤ off_limit → read_digits acc s ≢ overflow
unfolding read_digits
read_digits_in_range acc [] h e = ground arith
read_digits_in_range acc (c ∷ s) h e =
    let next = acc * 10 + (c - b'0') in
    let p = pow-suc 10 (length s) in
    let one = one-le-pow (length s) 10 (omega arith) in
    elim (Bool-cases (ltb c b'0' || ltb b'9' c)) [
      | inl bad ↦ ground arith
      | inr good ↦
          let small : next + 1 ≤ (acc + 1) * 10 = ground arith in
          let shifted : (acc + 1) * 10 * 10 ^ length s ≤ off_limit =
            rw (mul_assoc (acc + 1) 10 (10 ^ length s), mul_comm 10 (10 ^ length s), sym p) h in
          let room : (next + 1) * 10 ^ length s ≤ off_limit =
            le_trans (mul-le-mul_right (10 ^ length s) small) shifted in
          let here : next + 1 ≤ off_limit = le_trans (le-mul_of_pos_right (next + 1) one) room in
          let fits : leb off_limit next ≡ false = ground arith in
          read_digits_in_range next s room (ground arith)
    ]

check_range_defined : (size start end : ℤ) → check_range size start end ≢ undefined
unfolding check_range
check_range_defined size start end e = ground arith

read_digits_short : (s : Bytes) → length s ≤ 18 → read_digits 0 s ≢ overflow
read_digits_short s h =
    read_digits_in_range 0 s
      (le_trans (mul-le-mul_left 1 (pow-le-pow_right (omega arith) h)) (omega arith))

suffix_range_defined : (size : ℤ) (s : Bytes) → length s ≤ 18 → suffix_range size s ≢ undefined
unfolding suffix_range
suffix_range_defined size s h u = elim (Digits-cases (read_digits 0 s)) [
  | inl e ↦ ground (arith, rw (suffix_range, e) at u)
  | inr (inl e) ↦ absurd (read_digits_short s h e)
  | inr (inr (n, e)) ↦ elim (Bool-cases (n == 0)) [
    | inl z ↦ ground (arith, rw (suffix_range, e, z) at u)
    | inr z ↦ absurd (
        check_range_defined size (if ltb_ℤ (size -ℤ pos n) (pos 0) then pos 0 else size -ℤ pos n)
          (size -ℤ pos 1) (rw (suffix_range, e, z) at u))
  ]
]

bounded_range_defined :
    (size : ℤ) (s t : Bytes) → length s ≤ 18 → length t ≤ 18 → bounded_range size s t ≢ undefined
unfolding bounded_range
bounded_range_defined size s t h k u = elim (Digits-cases (read_digits 0 s)) [
  | inl e ↦ ground (arith, rw (bounded_range, e) at u)
  | inr (inl e) ↦ absurd (read_digits_short s h e)
  | inr (inr (n, e)) ↦ elim (Bool-cases (is_empty t)) [
    | inl z ↦
        absurd (check_range_defined size (pos n) (size -ℤ pos 1) (rw (bounded_range, e, z) at u))
    | inr z ↦ elim (Digits-cases (read_digits 0 t)) [
      | inl f ↦ ground (arith, rw (bounded_range, e, z, f) at u)
      | inr (inl f) ↦ absurd (read_digits_short t k f)
      | inr (inr (m, f)) ↦
          absurd (check_range_defined size (pos n) (pos m) (rw (bounded_range, e, z, f) at u))
    ]
  ]
]

-- A Range header of at most 24 bytes makes no signed overflow.
pub parse_range_defined :
    (h : Bytes) (size : ℤ) → length h ≤ 24 → parse_range_value h size ≢ undefined
unfolding parse_range_value
parse_range_defined h size len u = elim (Bool-cases (is_empty h)) [
  | inl a ↦ ground (arith, rw (parse_range_value, a) at u)
  | inr a ↦ elim (Bool-cases (ltb (length h) 7 || not (equal (take 6 h) (codes "bytes=")))) [
    | inl b ↦ ground (arith, rw (parse_range_value, a, b) at u)
    | inr b ↦ elim (Option-cases (find_byte b'-' (drop 6 h))) [
      | inl c ↦ ground (arith, rw (parse_range_value, a, b, c) at u)
      | inr (dash, c) ↦
          let n = length-drop 6 h in
          let l = length-take dash (drop 6 h) in
          let r = length-drop (dash + 1) (drop 6 h) in
          elim (Bool-cases (is_empty (take dash (drop 6 h)))) [
            | inl d ↦ absurd (
                suffix_range_defined size (drop (dash + 1) (drop 6 h)) (omega (arith, n, r))
                  (rw (parse_range_value, a, b, c, d) at u))
            | inr d ↦ absurd (
                bounded_range_defined size (take dash (drop 6 h)) (drop (dash + 1) (drop 6 h))
                  (omega (arith, n, l)) (omega (arith, n, r))
                  (rw (parse_range_value, a, b, c, d) at u))
          ]
    ]
  ]
]
