-- ===== src/Core/EventLoop/KeepAlive.antt =====
-- The intrusive list of idle connections, and the list of slots that it stands for.
pub mod Bridge
pub mod Operations
pub mod Refinement
use file_web_server.Base.{
  ℕ, Bool, true, false, not, ◌||◌, ◌≡◌, ◌≢◌, ◌⊎◌, refl, sym, ap, ◌∙◌, inl, inr, List, [], ◌∷◌,
  Option, none, some, arith, ◌==◌, if◌then◌else◌, Bool-cases, Option-cases,
}
use file_web_server.Core.Connection.{Connection}
use file_web_server.Core.EventLoop.Slots.{contains}

-- From `head` on, the links of `conns` lead through `ks` and back.
abbrev pub Chain : (ℕ → Connection) → Option ℕ → Option ℕ → List ℕ → Type 0
Chain conns prev head [] = head ≡ none
Chain conns prev head (k ∷ ks) =
    (head ≡ some k)
    × ((conns k).keepalive_prev ≡ prev)
    × Chain conns (some k) (conns k).keepalive_next ks

abbrev pub Distinct : List ℕ → Type 0
Distinct [] = Unit {0}
Distinct (k ∷ ks) = (contains k ks ≡ false) × Distinct ks

abbrev pub without : ℕ → List ℕ → List ℕ
without i [] = []
without i (k ∷ ks) = if i == k then ks else k ∷ without i ks

-- Two arrays agree on the links of a slot.
abbrev pub SameLinks : (ℕ → Connection) → (ℕ → Connection) → ℕ → Type 0
SameLinks c d j =
    ((d j).keepalive_prev ≡ (c j).keepalive_prev) × ((d j).keepalive_next ≡ (c j).keepalive_next)

-- A chain depends on the links of its own slots only.
pub Chain-frame :
    (c d : ℕ → Connection) (prev head : Option ℕ) (ks : List ℕ)
    → ((j : ℕ) → contains j ks ≡ true → SameLinks c d j)
    → Chain c prev head ks
    → Chain d prev head ks
unfolding contains
Chain-frame c d prev head [] same h = h
Chain-frame c d prev head (k ∷ ks) same (h, p, t) =
    let (a, b) = same k (ground arith) in
    (
      h,
      a ∙ p,
      rw b (Chain-frame c d (some k) (c k).keepalive_next ks (λ j m. same j (ground arith)) t),
    )

abbrev pub points : Option ℕ → ℕ → Bool
points none j = false
points (some p) j = p == j

module _ (c : ℕ → Connection) where
  -- The next slot of one in the chain stands behind the first.
  pub next_inside :
      (prev head : Option ℕ) (k i n : ℕ) (ks : List ℕ)
      → Chain c prev head (k ∷ ks)
      → contains i (k ∷ ks) ≡ true
      → (c i).keepalive_next ≡ some n
      → contains n ks ≡ true
  unfolding contains
  next_inside prev head k i n [] (h, p, t) m e =
      let z : i ≡ k = ground arith in absurd (ground (arith, rw z at e))
  next_inside prev head k i n (k' ∷ ks) (h, p, t) m e = elim (Bool-cases (i == k)) [
    | inl s ↦
        let z : i ≡ k = ground arith in
        let e' : (c k).keepalive_next ≡ some n = rw z at e in
        let same = sym e' ∙ t.0 in ground arith
    | inr s ↦
        let later = next_inside (some k) (c k).keepalive_next k' i n ks t (ground arith) e in
        ground arith
  ]

  -- A slot behind the first has a predecessor in the chain.
  pub prev_inside :
      (prev head : Option ℕ) (k i : ℕ) (ks : List ℕ)
      → Chain c prev head (k ∷ ks)
      → contains i ks ≡ true
      → (q : ℕ) × ((c i).keepalive_prev ≡ some q) × (contains q (k ∷ ks) ≡ true)
  unfolding contains
  prev_inside prev head k i [] (h, p, t) m = absurd (ground arith)
  prev_inside prev head k i (k' ∷ ks) (h, p, t) m = elim (Bool-cases (i == k')) [
    | inl s ↦
        let z : i ≡ k' = ground arith in (k, ap (λ x. (c x).keepalive_prev) z ∙ t.1, ground arith)
    | inr s ↦
        let (q, e, inside) = prev_inside (some k) (c k).keepalive_next k' i ks t (ground arith) in
        (q, e, ground arith)
  ]

pub points-eq : (o : Option ℕ) (j : ℕ) → points o j ≡ true → o ≡ some j
points-eq none j h = cc
points-eq (some p) j h = ground arith

pub apart : (n j : ℕ) (ks : List ℕ) → contains n ks ≡ false → contains j ks ≡ true → n == j ≡ false
apart n j ks out within = elim (Bool-cases (n == j)) [
  | inr e ↦ e
  | inl e ↦
      let z : n ≡ j = ground arith in
      let out' : contains j ks ≡ false = rw z at out in absurd (ground arith)
]
