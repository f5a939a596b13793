-- ===== src/Core/Pool/Ownership.antt =====
-- The pool against its specification: a set of indices, each either free or lent.
use mathlib.Core.List.{
  Perm, Nodup, perm_middle, Nodup-cons, Mem, mem-cons, mem-cons_self, mem-append_right, not-mem-nil,
  Nodup-nil,
}
use mathlib.Core.Logic.Or
use mathlib.Core.HLevel.{×_prop}
use native.Mathlib.Bridge.{le_prop}
use mathlib.Core.List.Perm
use file_web_server.Base.{
  ℕ, zero, suc, ◌+◌, ◌-◌, ◌≤◌, ◌<◌, ◌≡◌, refl, ap, ◌∙◌, ◌⊎◌, inl, inr, List, [], ◌∷◌, ◌++◌, none,
  some, arith, length, drop, get_or, set, length-set, length-append, drop-get_or, drop-set, leb,
  append-nil, Bool-cases, false,
}
use file_web_server.Core.Pool.{Pool, max_connections, iota, new, acquire, release, decrement}

-- `lent` is what the clients hold: with what is free it is the whole array, each index once.
pub record Owns (p : Pool) (lent : List ℕ) : Type 0 where
  pub full : length p.free_list ≡ max_connections
  pub head_le : p.free_head ≤ max_connections
  pub counted : p.active_count ≡ p.free_head
  pub lent_count : length lent ≡ p.free_head
  pub partition : Perm (drop p.free_head p.free_list ++ lent) (iota 0 max_connections)

length-iota : (a n : ℕ) → length (iota a n) ≡ n
unfolding iota
length-iota a zero = refl
length-iota a (suc n) = ap suc (length-iota (a + 1) n)

-- A new pool has lent nothing.
pub new-Owns : Owns new []
unfolding new
new-Owns = record {
  full = length-iota 0 max_connections;
  head_le = omega arith;
  counted = refl;
  lent_count = refl;
  partition = rw (append-nil (iota 0 max_connections)) (Perm.refl (iota 0 max_connections));
}

mem-iota : (i a n : ℕ) → Mem i (iota a n) → (a ≤ i) × (i < a + n)
unfolding iota
mem-iota i a zero m = absurd (not-mem-nil m)
mem-iota i a (suc n) m =
    Or.elim (λ x y. ap₂_pair x y) (mem-cons.0 m) (λ e. omega arith)
      (λ t. let h = mem-iota i (a + 1) n t in omega arith)
  where
    ap₂_pair : (x y : (a ≤ i) × (i < a + suc n)) → x ≡ y
    ap₂_pair x y = ×_prop le_prop le_prop x y

iota-Nodup : (a n : ℕ) → Nodup (iota a n)
unfolding iota
iota-Nodup a zero = Nodup-nil
iota-Nodup a (suc n) =
    Nodup-cons.1
      ((λ m. let h = mem-iota a (a + 1) n m in absurd (omega arith)), iota-Nodup (a + 1) n)

-- No index is at once free and lent, or lent twice.
Owns-Nodup : (p : Pool) (lent : List ℕ) → Owns p lent → Nodup (drop p.free_head p.free_list ++ lent)
Owns-Nodup p lent o = Perm.nodup (Perm.symm o.partition) (iota-Nodup 0 max_connections)

lent-lt :
    (p : Pool) (before after : List ℕ) (i : ℕ) → Owns p (before ++ i ∷ after) → i < max_connections
lent-lt p before after i o = (mem-iota i 0 max_connections (Perm.subset o.partition i held)).1
  where
    held : Mem i (drop p.free_head p.free_list ++ (before ++ i ∷ after))
    held = mem-append_right (drop p.free_head p.free_list) (mem-append_right before mem-cons_self)

module _ (p : Pool) (lent : List ℕ) (o : Owns p lent) (room : p.free_head < max_connections) where
  next_free : ℕ
  next_free = get_or p.free_list p.free_head 0

  free-split : drop p.free_head p.free_list ≡ next_free ∷ drop (p.free_head + 1) p.free_list
  unfolding next_free
  free-split =
      let e : p.free_head + 1 ≡ suc p.free_head = omega arith in
      rw e (drop-get_or p.free_head p.free_list 0 (omega (arith, o.full)))

  next_free-Nodup : Nodup (next_free ∷ (drop (p.free_head + 1) p.free_list ++ lent))
  next_free-Nodup = rw free-split at (Owns-Nodup p lent o)

  next_free_fresh : ¬ Mem next_free lent
  next_free_fresh m =
      (Nodup-cons.0 next_free-Nodup).0 (mem-append_right (drop (p.free_head + 1) p.free_list) m)

  taken-Owns :
      Owns
        (record p { free_head = p.free_head + 1; active_count = p.active_count + 1 })
        (next_free ∷ lent)
  taken-Owns = record {
    full = o.full;
    head_le = omega arith;
    counted = omega (arith, o.counted);
    lent_count = omega (arith, o.lent_count);
    partition =
        Perm.trans (perm_middle (drop (p.free_head + 1) p.free_list) lent)
          (rw free-split at o.partition);
  }

-- If the free indices of the pool and the lent ones are together the whole array, acquire either
-- fails, with all slots lent, and changes nothing, or it hands out an index that was not lent and
-- keeps this.
pub acquire-Owns :
    (p : Pool) (lent : List ℕ)
    → Owns p lent
    → ((length lent ≡ max_connections) × (acquire p ≡ (none, p)))
      ⊎ ((i : ℕ) × (¬ Mem i lent) × ((acquire p).0 ≡ some i) × Owns (acquire p).1 (i ∷ lent))
unfolding acquire next_free
acquire-Owns p lent o = elim (Bool-cases (leb max_connections p.free_head)) [
  | inl all_lent ↦ inl (ground (arith, o.lent_count, o.head_le), rw all_lent)
  | inr room ↦
      let h : p.free_head < max_connections = ground arith in
      rw room (inr (next_free p lent o h, next_free_fresh p lent o h, refl, taken-Owns p lent o h))
]

-- If the free indices of the pool and the lent ones are together the whole array, releasing a lent
-- index keeps this, with that index no longer lent.
pub release-Owns :
    (p : Pool) (before after : List ℕ) (i : ℕ)
    → Owns p (before ++ i ∷ after)
    → Owns (release p i) (before ++ after)
unfolding release
release-Owns p before after i o =
    let h = lent-lt p before after i o in
    let n = length-append before (i ∷ after) in
    let e : decrement p.free_head ≡ p.free_head - 1 = omega (arith, o.lent_count, n, o.head_le) in
    let s : suc (p.free_head - 1) ≡ p.free_head = omega (arith, o.lent_count, n) in
    let f : leb max_connections i ≡ false = ground arith in
    let d : drop (p.free_head - 1) (set p.free_list (p.free_head - 1) i)
        ≡ i ∷ drop p.free_head p.free_list =
      rw (drop-set (p.free_head - 1) p.free_list i (omega (arith, o.full, o.head_le)), s) in
    rw f (record {
      full = length-set p.free_list (decrement p.free_head) i ∙ o.full;
      head_le = rw e (omega (arith, o.head_le));
      counted = rw o.counted;
      lent_count = rw e (omega (arith, o.lent_count, n, length-append before after));
      partition =
          rw (e, d)
            (Perm.trans
              (Perm.trans (Perm.symm (perm_middle (drop p.free_head p.free_list) (before ++ after)))
                (Perm.append_left (drop p.free_head p.free_list)
                  (Perm.symm (perm_middle before after))))
              o.partition);
    })
