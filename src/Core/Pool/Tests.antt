-- ===== src/Core/Pool/Tests.antt =====
-- The pool with its first slot lent.
use mathlib.Core.List.{Mem}
use file_web_server.Base.{ℕ, ◌⊎◌, ◌≡◌, inl, inr, arith, refl, sym, ◌∙◌, [], ◌∷◌, none, some, length}
use file_web_server.Core.Pool.Ownership.{Owns, new-Owns, acquire-Owns, release-Owns}
use file_web_server.Core.Pool.{Pool, acquire, max_connections, iota, new, release}

abbrev one_lent : Pool
one_lent = (acquire new).1

acquire-Owns_example :
    ((length {A = ℕ} [] ≡ max_connections) × (acquire new ≡ (none, new)))
    ⊎ ((i : ℕ) × (¬ Mem i []) × ((acquire new).0 ≡ some i) × Owns (acquire new).1 (i ∷ []))
acquire-Owns_example = acquire-Owns new [] new-Owns

first_slot : (acquire new).0 ≡ some 0
unfolding acquire new iota
first_slot = refl

one_lent-Owns : Owns one_lent (0 ∷ [])
one_lent-Owns = elim acquire-Owns_example [
  | inl (e, _) ↦ absurd (omega (arith, e))
  | inr (i, _, e, o) ↦ let z : i ≡ 0 = cc (sym e ∙ first_slot) in rw z at o
]

release-Owns_example : Owns (release one_lent 0) []
release-Owns_example = release-Owns one_lent [] [] 0 one_lent-Owns
