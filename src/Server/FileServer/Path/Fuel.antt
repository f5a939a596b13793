-- ===== src/Server/FileServer/Path/Fuel.antt =====
-- The loop over the segments of a path: any fuel from the length of the text on is enough.
use file_web_server.Base.{
  ℕ, zero, suc, ◌+◌, ◌≤◌, List, [], ◌∷◌, ◌≡◌, ◌≢◌, refl, inl, inr, arith, length, length-drop,
  Bytes, find_byte, Option-cases, List-cases,
}
use file_web_server.Server.FileServer.Path.{
  done, escaped, out_of_fuel, push_segment, resolve, skip_slashes, split_segment,
}

skip_slashes-length : (s : Bytes) → length (skip_slashes s) ≤ length s
unfolding skip_slashes
skip_slashes-length [] = omega arith
skip_slashes-length (c ∷ s) = let later = skip_slashes-length s in ground arith

split_segment-length : (c : ℕ) (s : Bytes) → length (split_segment (c ∷ s)).1 ≤ length s
unfolding split_segment
split_segment-length c s = elim (Option-cases (find_byte b'/' (c ∷ s))) [
  | inl e ↦ rw (split_segment, e) (omega arith)
  | inr (i, e) ↦ rw (split_segment, e) (omega (arith, length-drop (i + 1) (c ∷ s)))
]

pub resolve_nothing : (fuel : ℕ) (parts : List Bytes) → resolve fuel [] parts ≡ done parts
unfolding resolve skip_slashes
resolve_nothing zero parts = refl
resolve_nothing (suc fuel) parts = refl

-- The loop over the segments of a path ends, with its segments or with a path that is refused,
-- within as many rounds as the text has bytes.
pub resolve_enough :
    (fuel : ℕ) (rest : Bytes) (parts : List Bytes)
    → length rest ≤ fuel
    → resolve fuel rest parts ≢ out_of_fuel
unfolding resolve
resolve_enough zero [] parts h e = absurd (cc)
resolve_enough zero (c ∷ s) parts h e = absurd (omega arith)
resolve_enough (suc fuel) rest parts h e = elim (List-cases (skip_slashes rest)) [
  | inl q ↦ let ends : done parts ≡ out_of_fuel = rw (resolve, q) at e in absurd (cc)
  | inr (c, s, q) ↦
      let shorter : length (c ∷ s) ≤ length rest = rw q at (skip_slashes-length rest) in
      let less = split_segment-length c s in
      elim (Option-cases (push_segment (split_segment (c ∷ s)).0 parts)) [
        | inl p ↦ let ends : escaped ≡ out_of_fuel = rw (resolve, q, p) at e in absurd (cc)
        | inr (ps, p) ↦
            resolve_enough fuel (split_segment (c ∷ s)).1 ps (omega arith) (rw (resolve, q, p) at e)
      ]
]
