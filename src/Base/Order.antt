-- ===== src/Base/Order.antt =====
-- The order of texts.
use mathlib.Core.Path.{◌≡◌, refl}
use mathlib.Core.List.{[], ◌∷◌}
use native.Mathlib.Omega.{arith}
use mathlib.Core.Bool.{true, false}
use file_web_server.Base.Text.{Bytes, less}

pub less_asym : (a b : Bytes) → less a b ≡ true → less b a ≡ false
unfolding less
less_asym a [] h = absurd (ground arith)
less_asym [] (y ∷ b) h = refl
less_asym (x ∷ a) (y ∷ b) h = let later = less_asym a b in ground arith

pub less_cotrans : (a b c : Bytes) → less a b ≡ false → less b c ≡ false → less a c ≡ false
unfolding less
less_cotrans a b [] h k = refl
less_cotrans [] [] (z ∷ c) h k = absurd (ground arith)
less_cotrans [] (y ∷ b) (z ∷ c) h k = absurd (ground arith)
less_cotrans (x ∷ a) [] (z ∷ c) h k = absurd (ground arith)
less_cotrans (x ∷ a) (y ∷ b) (z ∷ c) h k = let later = less_cotrans a b c in ground arith

pub less_irrefl : (a : Bytes) → less a a ≡ false
unfolding less
less_irrefl [] = refl
less_irrefl (x ∷ a) = let later = less_irrefl a in ground arith
