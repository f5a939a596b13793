-- ===== src/Server/FileServer/Path/Safety.antt =====
-- What every path that `normalize` lets through looks like: the steps of
-- src/server/file_server.cpp's `normalize`, one invariant each.
use mathlib.Core.List.{reverse}
use mathlib.Core.Path.{subst}
use file_web_server.Base.{
  ℕ, zero, suc, ◌+◌, false, List, [], ◌∷◌, some, ◌≡◌, ◌≢◌, ◌⊎◌, refl, ap, ◌++◌, ◌≤◌, inl, inr,
  arith, ◌==◌, length, take, Bytes, find_byte, find_byte-none, find_byte-take, NotByte, All,
  All-take, All-drop, All-reverse, Option-cases, List-cases, Bool-cases,
}
use file_web_server.Server.FileServer.Path.{
  has_illegal, skip_slashes, split_segment, push_segment, Resolved, done, escaped, out_of_fuel,
  resolve, is_hidden, has_hidden, join, rebuild, normalize_decoded, normalize, url_decode,
}

-- No control byte but a tab.
abbrev pub IsLegal : ℕ → Type 0
IsLegal c = (c ≡ 9) ⊎ (32 ≤ c)

-- Not a first byte that hides a file.
abbrev pub IsShown : Bytes → Type 0
IsShown [] = Unit {0}
IsShown (c ∷ _) = c ≢ b'.'

-- A file name: not empty, no slash and no control byte in it, and not hidden.
pub record IsName (p : Bytes) : Type 0 where
  pub not_empty : p ≢ []
  pub no_slash : All (NotByte b'/') p
  pub legal : All IsLegal p
  pub shown : IsShown p

-- The same before the hidden names are refused.
record IsSegment (p : Bytes) : Type 0 where
  not_empty : p ≢ []
  no_slash : All (NotByte b'/') p
  legal : All IsLegal p

has_illegal-All : (s : Bytes) → has_illegal s ≡ false → All IsLegal s
unfolding has_illegal
has_illegal-All [] h = tt
has_illegal-All (c ∷ s) h = ground (arith, has_illegal-All s)

skip_slashes-All : (s : Bytes) → All IsLegal s → All IsLegal (skip_slashes s)
unfolding skip_slashes
skip_slashes-All [] h = tt
skip_slashes-All (c ∷ s) h = elim (Bool-cases (c == b'/')) [
  | inl e ↦ rw e (skip_slashes-All s h.1)
  | inr e ↦ rw e h
]

skip_slashes-head : (s : Bytes) {c : ℕ} {t : Bytes} → skip_slashes s ≡ c ∷ t → c ≢ b'/'
unfolding skip_slashes
skip_slashes-head [] e = cc
skip_slashes-head (x ∷ s) e = elim (Bool-cases (x == b'/')) [
  | inl h ↦ skip_slashes-head s (rw h at e)
  | inr h ↦ ground arith
]

found_later : (c : ℕ) (s : Bytes) → c ≢ b'/' → find_byte b'/' (c ∷ s) ≢ some 0
unfolding find_byte
found_later c s h e = ground (arith, h)

-- A text that does not start with a slash splits into a segment and the rest.
split_segment-IsSegment :
    (c : ℕ) (s : Bytes)
    → c ≢ b'/'
    → All IsLegal (c ∷ s)
    → IsSegment (split_segment (c ∷ s)).0 × All IsLegal (split_segment (c ∷ s)).1
unfolding split_segment
split_segment-IsSegment c s h l = elim (Option-cases (find_byte b'/' (c ∷ s))) [
  | inl e ↦
      rw (e, split_segment)
        (record { not_empty = λ q. cc; no_slash = find_byte-none b'/' (c ∷ s) e; legal = l }, tt)
  | inr (i, e) ↦
      rw (e, split_segment)
        (
          record {
            not_empty = take_found i e;
            no_slash = find_byte-take b'/' (c ∷ s) i e;
            legal = All-take IsLegal i (c ∷ s) l;
          },
          All-drop IsLegal (i + 1) (c ∷ s) l,
        )
]
  where
    take_found : (i : ℕ) → find_byte b'/' (c ∷ s) ≡ some i → take i (c ∷ s) ≢ []
    take_found zero e q = absurd (found_later c s h e)
    take_found (suc i) e q = cc

push_segment-IsSegment :
    (seg : Bytes) (parts : List Bytes) {parts' : List Bytes}
    → IsSegment seg
    → All IsSegment parts
    → push_segment seg parts ≡ some parts'
    → All IsSegment parts'
unfolding push_segment
push_segment-IsSegment seg [] s h e = ground arith
push_segment-IsSegment seg (p ∷ parts) s h e = ground arith

pub Resolved-cases :
    (r : Resolved) → (r ≡ escaped) ⊎ ((r ≡ out_of_fuel) ⊎ ((ps : List Bytes) × (r ≡ done ps)))
Resolved-cases escaped = inl refl
Resolved-cases out_of_fuel = inr (inl refl)
Resolved-cases (done ps) = inr (inr (ps, refl))

resolve-IsSegment :
    (fuel : ℕ) (rest : Bytes) (parts : List Bytes) {parts' : List Bytes}
    → All IsLegal rest
    → All IsSegment parts
    → resolve fuel rest parts ≡ done parts'
    → All IsSegment parts'
unfolding resolve
resolve-IsSegment zero [] parts {parts'} l h e =
    let same : parts ≡ parts' = cc in subst (All IsSegment) same h
resolve-IsSegment zero (_ ∷ _) parts l h e = absurd (cc)
resolve-IsSegment (suc fuel) rest parts {parts'} l h e = elim (List-cases (skip_slashes rest)) [
  | inl q ↦
      let e' : done parts ≡ done parts' = rw (q, resolve) at e in
      let same : parts ≡ parts' = cc in subst (All IsSegment) same h
  | inr (c, s, q) ↦
      let legal : All IsLegal (c ∷ s) = rw q at (skip_slashes-All rest l) in
      let split = split_segment-IsSegment c s (skip_slashes-head rest q) legal in
      elim (Option-cases (push_segment (split_segment (c ∷ s)).0 parts)) [
        | inl r ↦ let e' : escaped ≡ done parts' = rw (q, r, resolve) at e in absurd (cc)
        | inr (ps, r) ↦
            resolve-IsSegment fuel (split_segment (c ∷ s)).1 ps split.1
              (push_segment-IsSegment _ parts split.0 h r) (rw (q, r, resolve) at e)
      ]
]

is_hidden-IsShown : (p : Bytes) → is_hidden p ≡ false → IsShown p
unfolding is_hidden
is_hidden-IsShown [] h = tt
is_hidden-IsShown (c ∷ p) h = ground arith

has_hidden-IsName : (ps : List Bytes) → All IsSegment ps → has_hidden ps ≡ false → All IsName ps
unfolding has_hidden
has_hidden-IsName [] h e = tt
has_hidden-IsName (p ∷ ps) h e = (
  record {
    not_empty = h.0.not_empty;
    no_slash = h.0.no_slash;
    legal = h.0.legal;
    shown = is_hidden-IsShown p (ground arith);
  },
  has_hidden-IsName ps h.1 (ground arith),
)

-- Names, each with a slash in front; the root is a slash alone.
abbrev pub slashed : List Bytes → Bytes
slashed [] = []
slashed (p ∷ ps) = b'/' ∷ (p ++ slashed ps)

abbrev pub spelled : List Bytes → Bytes
spelled [] = b'/' ∷ []
spelled (p ∷ ps) = slashed (p ∷ ps)

join-slashed : (ps : List Bytes) → join ps ≡ slashed ps
unfolding join
join-slashed [] = refl
join-slashed (p ∷ ps) = ap (λ z. b'/' ∷ (p ++ z)) (join-slashed ps)

pub rebuild-spelled : (ps : List Bytes) → rebuild ps ≡ spelled ps
unfolding rebuild join
rebuild-spelled [] = refl
rebuild-spelled (p ∷ ps) = join-slashed (p ∷ ps)

-- What the file system is asked for: the root itself, or names joined by slashes.
pub record IsSafe (path : Bytes) : Type 0 where
  pub parts : List Bytes
  pub names : All IsName parts
  pub built : path ≡ spelled parts

-- Whatever the URL path, a path that normalize does not refuse is "/" or built of segments that
-- are not empty, start with no dot, and have no slash and no control byte but a tab; so none of
-- them is .., and none names a hidden file.
pub normalize-IsSafe : (path : Bytes) → normalize path ≢ [] → IsSafe (normalize path)
unfolding normalize normalize_decoded
normalize-IsSafe path h = elim (Bool-cases (has_illegal (url_decode path))) [
  | inl bad ↦ absurd (h (rw bad))
  | inr good ↦ elim (Resolved-cases (resolve (length (url_decode path)) (url_decode path) [])) [
    | inl e ↦ absurd (h (rw (good, e, normalize_decoded)))
    | inr (inl e) ↦ absurd (h (rw (good, e, normalize_decoded)))
    | inr (inr (ps, e)) ↦ elim (Bool-cases (has_hidden (reverse ps))) [
      | inl hid ↦ absurd (h (rw (good, e, normalize_decoded) (rw hid)))
      | inr shown ↦ record {
        parts = reverse ps;
        names =
            has_hidden-IsName (reverse ps)
              (All-reverse IsSegment ps
                (resolve-IsSegment _ (url_decode path) [] (has_illegal-All _ good) tt e))
              shown;
        built = rw (good, e, normalize_decoded) (rw shown (rebuild-spelled (reverse ps)));
      }
    ]
  ]
]
