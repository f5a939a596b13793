-- ===== src/Base/Text.antt =====
-- Text as a list of bytes, and what the source uses of std::string and std::string_view.
use Prim.Native.Char.{code}
use Prim.Native.String.{String}
use Prim.Native.Nat.{ℕ, zero, suc, ◌+◌, ◌/◌, ◌%◌}
use mathlib.Core.Path.{◌≡◌, refl}
use mathlib.Core.Logic.{◌↔◌}
use mathlib.Core.Bool.{Bool, true, false, ◌&&◌, ◌||◌}
use mathlib.Core.List.{List, [], ◌∷◌}
use mathlib.Core.Option.{Option, none, some}
use mathlib.Core.Option
use native.Mathlib.Omega.{arith}
use file_web_server.Base.Tests.{◌==◌, ltb, if◌then◌else◌}

abbrev pub Bytes : Type 0
Bytes = List ℕ

-- The bytes of a literal; every literal of the source that is modelled is ASCII.
abbrev pub codes : String → Bytes
codes String.[] = []
codes (String.◌∷◌ c s) = code c ∷ codes s

-- operator==
unfoldable pub equal : Bytes → Bytes → Bool
equal [] [] = true
equal (x ∷ xs) (y ∷ ys) = x == y && equal xs ys
equal _ _ = false

-- operator<, by unsigned bytes as memcmp compares them
unfoldable pub less : Bytes → Bytes → Bool
less _ [] = false
less [] (y ∷ ys) = true
less (x ∷ xs) (y ∷ ys) = ltb x y || (x == y && less xs ys)

abbrev pub is_empty : Bytes → Bool
is_empty [] = true
is_empty (_ ∷ _) = false

unfoldable pub starts_with : Bytes → Bytes → Bool
starts_with [] s = true
starts_with (x ∷ xs) [] = false
starts_with (x ∷ xs) (y ∷ ys) = x == y && starts_with xs ys

-- s.find(needle); `none` is npos
unfoldable pub find : Bytes → Bytes → Option ℕ
find needle [] = if is_empty needle then some 0 else none
find needle (c ∷ s) = if starts_with needle (c ∷ s) then some 0 else Option.map suc (find needle s)

-- s.find(byte)
unfoldable pub find_byte : ℕ → Bytes → Option ℕ
find_byte b [] = none
find_byte b (c ∷ s) = if c == b then some 0 else Option.map suc (find_byte b s)

pub equal_iff : (a b : Bytes) → (equal a b ≡ true) ↔ (a ≡ b)
unfolding equal
equal_iff (x ∷ a) (y ∷ b) = ground (arith, equal_iff a b)
equal_iff [] _ = ground arith
equal_iff _ [] = ground arith

pub equal_refl : (a : Bytes) → equal a a ≡ true
equal_refl a = (equal_iff a a).1 refl

-- Decimal digits, as std::to_string and the conversion %d write them. The fuel is above the number.
unfoldable pub decimal_onto : ℕ → ℕ → Bytes → Bytes
decimal_onto zero n out = out
decimal_onto (suc f) n out =
    let digit = b'0' + n % 10 in
    let rest = decimal_onto f (n / 10) (digit ∷ out) in if ltb n 10 then digit ∷ out else rest

unfoldable pub to_decimal : ℕ → Bytes
unfolding decimal_onto
to_decimal n = decimal_onto (suc n) n []
