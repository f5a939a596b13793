-- ===== src/Base/Decimal.antt =====
-- The digits that `to_decimal` writes.
use Prim.Native.Nat.{ℕ, zero, suc, ◌+◌, ◌*◌, ◌/◌, ◌%◌, ◌≤◌, ◌<◌}
use mathlib.Core.Path.{◌≡◌, refl, ◌∙◌}
use mathlib.Core.Logic.{inl, inr}
use mathlib.Core.List.{[], ◌∷◌}
use native.Mathlib.Omega.{arith}
use file_web_server.Base.Lists.{All}
use file_web_server.Base.Tests.{ltb, Bool-cases}
use file_web_server.Base.Text.{Bytes, decimal_onto, to_decimal}

abbrev pub IsDigit : ℕ → Type 0
IsDigit c = (b'0' ≤ c) × (c ≤ b'9')

-- A reader that takes one more digit in each step, as long as the number stays below a bound, reads
-- the number back.
module _ {ℓ} {A : Type ℓ} (bound : ℕ) (read : ℕ → Bytes → A) where
  abbrev pub TakesDigits : Type ℓ
  TakesDigits =
      (m d : ℕ) (s : Bytes)
      → d < 10
      → m * 10 + d < bound
      → read m ((b'0' + d) ∷ s) ≡ read (m * 10 + d) s

  pub read-decimal_onto :
      TakesDigits
      → (f n : ℕ) (out : Bytes) → n < f
      → n < bound
      → read 0 (decimal_onto f n out) ≡ read n out
  unfolding decimal_onto
  read-decimal_onto step zero n out h b = absurd (omega arith)
  read-decimal_onto step (suc f) n out h b = elim (Bool-cases (ltb n 10)) [
    | inl small ↦
        let k : n % 10 ≡ n = ground arith in
        let z : 0 * 10 + n ≡ n = omega arith in
        let first = step 0 n out (ground arith) (omega arith) in rw (small, k) (rw z at first)
    | inr large ↦
        let z : n / 10 * 10 + n % 10 ≡ n = omega arith in
        let next = step (n / 10) (n % 10) out (omega arith) (omega arith) in
        rw large (
          read-decimal_onto step f (n / 10) ((b'0' + n % 10) ∷ out) (ground arith) (omega arith)
          ∙ (rw z at next))
  ]

  pub read-to_decimal : TakesDigits → (n : ℕ) → n < bound → read 0 (to_decimal n) ≡ read n []
  unfolding to_decimal
  read-to_decimal step n b = read-decimal_onto step (suc n) n [] (omega arith) b

decimal_onto-IsDigit :
    (f n : ℕ) (out : Bytes) → All IsDigit out → All IsDigit (decimal_onto f n out)
unfolding decimal_onto
decimal_onto-IsDigit zero n out h = h
decimal_onto-IsDigit (suc f) n out h =
    let d : IsDigit (b'0' + n % 10) = omega arith in
    elim (Bool-cases (ltb n 10)) [
      | inl small ↦ rw small (d, h)
      | inr large ↦ rw large (decimal_onto-IsDigit f (n / 10) ((b'0' + n % 10) ∷ out) (d, h))
    ]

onto-cons : (f n d : ℕ) (out : Bytes) → (c : ℕ) × (s : Bytes) × (decimal_onto f n (d ∷ out) ≡ c ∷ s)
unfolding decimal_onto
onto-cons zero n d out = (d, out, refl)
onto-cons (suc f) n d out = elim (Bool-cases (ltb n 10)) [
  | inl small ↦ (b'0' + n % 10, d ∷ out, rw small refl)
  | inr large ↦ rw large (onto-cons f (n / 10) (b'0' + n % 10) (d ∷ out))
]

decimal_onto-cons :
    (f n : ℕ) (out : Bytes) → (c : ℕ) × (s : Bytes) × (decimal_onto (suc f) n out ≡ c ∷ s)
unfolding decimal_onto
decimal_onto-cons f n out = elim (Bool-cases (ltb n 10)) [
  | inl small ↦ (b'0' + n % 10, out, rw small refl)
  | inr large ↦ rw large (onto-cons f (n / 10) (b'0' + n % 10) out)
]

-- A number is written by at least one digit, and by digits only.
pub to_decimal-IsDigit : (n : ℕ) → All IsDigit (to_decimal n)
unfolding to_decimal
to_decimal-IsDigit n = decimal_onto-IsDigit (suc n) n [] tt

pub to_decimal-cons : (n : ℕ) → (c : ℕ) × (s : Bytes) × (to_decimal n ≡ c ∷ s)
unfolding to_decimal
to_decimal-cons n = decimal_onto-cons n n []
