-- ===== src/Server/FileServer/Path/Root.antt =====
-- What `is_within_root` accepts.
use file_web_server.Base.{
  true, ◌≡◌, ◌⊎◌, refl, ap, ◌∙◌, inl, inr, arith, [], ◌∷◌, ◌++◌, append-nil, some, Bytes,
  Bool-cases, Option-cases, length, get_or, find, starts_with, ◌==◌,
}
use file_web_server.Server.FileServer.Path.{is_within_root}

starts_with-split :
    (root s : Bytes) → starts_with root s ≡ true → (rest : Bytes) × (s ≡ root ++ rest)
unfolding starts_with
starts_with-split [] s h = (s, refl)
starts_with-split (c ∷ root) [] h = absurd (ground arith)
starts_with-split (c ∷ root) (d ∷ s) h =
    let (rest, e) = starts_with-split root s (ground arith) in
    let k : d ≡ c = ground arith in (rest, rw (k, e) refl)

find-starts_with : (root s : Bytes) → find root s ≡ some 0 → starts_with root s ≡ true
unfolding find starts_with
find-starts_with [] [] h = refl
find-starts_with (x ∷ root) [] h = absurd (ground arith)
find-starts_with root (c ∷ s) h = elim (Bool-cases (starts_with root (c ∷ s))) [
  | inl e ↦ e
  | inr e ↦ elim (Option-cases (find root s)) [
    | inl n ↦ absurd (ground (arith, rw (e, n) at h))
    | inr (i, n) ↦ absurd (ground (arith, rw (e, n) at h))
  ]
]

-- The root itself, or a path below it.
abbrev pub Within : Bytes → Bytes → Type 0
Within s root = (s ≡ root) ⊎ ((rest : Bytes) × (s ≡ root ++ b'/' ∷ rest))

below :
    (root rest : Bytes)
    → get_or (root ++ rest) (length root) 0 ≡ b'/'
    → (r : Bytes) × (rest ≡ b'/' ∷ r)
below [] [] h = absurd (omega (arith, h))
below [] (c ∷ r) h = (r, ap (λ z. z ∷ r) h)
below (d ∷ root) rest h = below root rest h

length-whole : (root rest : Bytes) → length (root ++ rest) ≡ length root → rest ≡ []
length-whole [] [] h = refl
length-whole [] (c ∷ rest) h = absurd (omega (arith, h))
length-whole (d ∷ root) rest h = length-whole root rest (omega (arith, h))

-- A path that is_within_root accepts is the root itself, or the root followed by a slash and a
-- rest.
pub is_within_root-Within : (s root : Bytes) → is_within_root s root ≡ true → Within s root
unfolding is_within_root
is_within_root-Within s root h = elim (Option-cases (find root s)) [
  | inl n ↦ absurd (ground (arith, rw (is_within_root, n) at h))
  | inr (i, n) ↦ elim (Bool-cases (i == 0)) [
    | inr k ↦ absurd (ground (arith, rw (is_within_root, n, k) at h))
    | inl k ↦
        let z : i ≡ 0 = ground arith in
        let (rest, e) = starts_with-split root s (find-starts_with root s (n ∙ ap some z)) in
        elim (Bool-cases (length s == length root)) [
          | inl l ↦
              let whole : length s ≡ length root = ground arith in
              let nothing_left = length-whole root rest (rw e at whole) in
              inl (e ∙ ap (λ t. root ++ t) nothing_left ∙ append-nil root)
          | inr l ↦
              let slash : get_or s (length root) 0 ≡ b'/' =
                ground (arith, rw (is_within_root, n, k, l) at h) in
              let (r, f) = below root rest (rw e at slash) in inr (r, e ∙ ap (λ t. root ++ t) f)
        ]
  ]
]
