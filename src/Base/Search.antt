-- ===== src/Base/Search.antt =====
-- Laws of the searches in texts.
use Prim.Native.Nat.{ℕ, zero, suc, ◌+◌, ◌<◌, ◌≤◌}
use mathlib.Core.Path.{◌≡◌, refl}
use mathlib.Core.Logic.{◌≢◌}
use mathlib.Core.List.{[], ◌∷◌, ◌++◌}
use mathlib.Core.Option.{none, some}
use mathlib.Core.Bool.{true, false}
use native.Mathlib.Omega.{arith}
use file_web_server.Base.Lists.{length, take, All}
use file_web_server.Base.Text.{Bytes, find, find_byte, starts_with}
use file_web_server.Base.Tests.{Bool-cases, Option-cases}
use mathlib.Core.Logic.{inl, inr}

-- The predicate of being another byte than `b`.
abbrev pub NotByte : ℕ → ℕ → Type 0
NotByte b c = c ≢ b

pub find_byte-none : (b : ℕ) (s : Bytes) → find_byte b s ≡ none → All (NotByte b) s
unfolding find_byte
find_byte-none b [] e = tt
find_byte-none b (c ∷ s) e = ground (arith, find_byte-none b s)

pub find_byte-take :
    (b : ℕ) (s : Bytes) (i : ℕ) → find_byte b s ≡ some i → All (NotByte b) (take i s)
unfolding find_byte
find_byte-take b [] i e = cc
find_byte-take b (c ∷ s) zero e = tt
find_byte-take b (c ∷ s) (suc i) e = ground (arith, find_byte-take b s i)

pub find_byte-absent : (b : ℕ) (s : Bytes) → All (NotByte b) s → find_byte b s ≡ none
unfolding find_byte
find_byte-absent b [] h = refl
find_byte-absent b (c ∷ s) h = ground (arith, find_byte-absent b s h.1, h.0)

pub find_byte-append :
    (b : ℕ) (x y : Bytes) → All (NotByte b) x → find_byte b (x ++ b ∷ y) ≡ some (length x)
unfolding find_byte
find_byte-append b [] y h = ground arith
find_byte-append b (c ∷ x) y h = ground (arith, find_byte-append b x y h.1, h.0)

starts_with-length : (p s : Bytes) → starts_with p s ≡ true → length p ≤ length s
unfolding starts_with
starts_with-length [] s h = omega arith
starts_with-length (x ∷ p) [] h = absurd (ground arith)
starts_with-length (x ∷ p) (y ∷ s) h = ground (arith, starts_with-length p s)

starts_with-append : (p s t : Bytes) → starts_with p s ≡ true → starts_with p (s ++ t) ≡ true
unfolding starts_with
starts_with-append [] s t h = refl
starts_with-append (x ∷ p) [] t h = absurd (ground arith)
starts_with-append (x ∷ p) (y ∷ s) t h = ground (arith, starts_with-append p s t)

find-short : (b : ℕ) (p s : Bytes) → length s < length (b ∷ p) → find (b ∷ p) s ≡ none
unfolding find
find-short b p [] h = refl
find-short b p (c ∷ s) h = elim (Bool-cases (starts_with (b ∷ p) (c ∷ s))) [
  | inl e ↦ let long = starts_with-length (b ∷ p) (c ∷ s) e in absurd (omega arith)
  | inr e ↦ rw (e, find-short b p s (omega arith)) refl
]

-- What is found at the very end of a text is not in a shorter part of it.
pub find-early :
    (b : ℕ) (p s t : Bytes) (k : ℕ)
    → find (b ∷ p) (s ++ t) ≡ some k
    → length s < k + length (b ∷ p)
    → find (b ∷ p) s ≡ none
unfolding find
find-early b p [] t k e h = refl
find-early b p (c ∷ s) t k e h = elim (Bool-cases (starts_with (b ∷ p) ((c ∷ s) ++ t))) [
  | inl here ↦
      let first : some 0 ≡ some k = rw here at e in
      let zeroth : k ≡ 0 = ground arith in find-short b p (c ∷ s) (omega arith)
  | inr other ↦
      let apart : starts_with (b ∷ p) (c ∷ s) ≡ false =
        elim (Bool-cases (starts_with (b ∷ p) (c ∷ s))) [
          | inl starts ↦
              let whole = starts_with-append (b ∷ p) (c ∷ s) t starts in absurd (ground arith)
          | inr differs ↦ differs
        ] in
      elim (Option-cases (find (b ∷ p) (s ++ t))) [
        | inl absent ↦ let never = rw (other, absent) at e in absurd (ground arith)
        | inr (j, found) ↦
            let next : some (suc j) ≡ some k = rw (other, found) at e in
            let behind : k ≡ suc j = ground arith in
            rw (apart, find-early b p s t j found (omega arith)) refl
      ]
]
