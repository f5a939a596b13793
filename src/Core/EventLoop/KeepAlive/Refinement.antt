-- ===== src/Core/EventLoop/KeepAlive/Refinement.antt =====
-- The intrusive list of idle connections against a list of slots.
use file_web_server.Base.{
  ℕ, true, false, ◌≡◌, refl, sym, ap, ◌∙◌, inl, inr, List, [], ◌∷◌, Option, none, some, arith, ◌==◌,
  if◌then◌else◌, Bool-cases,
}
use file_web_server.Core.Connection.{Connection}
use file_web_server.Core.EventLoop.Fields.{set_prev-keeps}
use file_web_server.Core.EventLoop.KeepAlive.Operations.{
  KeepList, remove-marked, set_prev-prev, taken_out, taken_out-Bridged, taken_out-head,
  taken_out-marks,
}
use file_web_server.Core.EventLoop.KeepAlive.Bridge.{Chain-without}
use file_web_server.Core.EventLoop.KeepAlive.{Chain, Chain-frame, Distinct, apart, points, without}
use file_web_server.Core.EventLoop.Slots.{contains}
use file_web_server.Core.EventLoop.{
  EventLoop, add_to_keepalive_list, put, remove_from_keepalive_list, set_prev,
}

pub without-absent : (i : ℕ) (ks : List ℕ) → contains i ks ≡ false → without i ks ≡ ks
unfolding contains
without-absent i [] h = refl
without-absent i (k ∷ ks) h =
    let e : i == k ≡ false = ground arith in
    rw e (ap (λ z. k ∷ z) (without-absent i ks (ground arith)))

pub contains-without :
    (i j : ℕ) (ks : List ℕ)
    → Distinct ks
    → contains j (without i ks) ≡ (if i == j then false else contains j ks)
unfolding contains
contains-without i j [] u = ground arith
contains-without i j (k ∷ ks) u =
    let rest = contains-without i j ks u.1 in
    elim (Bool-cases (i == k)) [
      | inr e ↦ elim (Bool-cases (i == j)) [
        | inl s ↦
            let y : i ≡ j = ground arith in
            let other : j == k ≡ false = ground arith in rw (e, s, other) ((rw s at rest))
        | inr s ↦ rw (e, s) (rw (rw s at rest) refl)
      ]
      | inl e ↦
          let z : i ≡ k = ground arith in
          let gone : contains i ks ≡ false = rw z u.0 in
          elim (Bool-cases (i == j)) [
            | inl s ↦
                let y : i ≡ j = ground arith in
                let gone' : contains j ks ≡ false = rw y at gone in ground arith
            | inr s ↦ ground arith
          ]
    ]

pub without-Distinct : (i : ℕ) (ks : List ℕ) → Distinct ks → Distinct (without i ks)
without-Distinct i [] u = u
without-Distinct i (k ∷ ks) u = elim (Bool-cases (i == k)) [
  | inl e ↦ rw e u.1
  | inr e ↦
      let m = contains-without i k ks u.1 in rw e ((rw (e, u.0) at m), without-Distinct i ks u.1)
]

-- If the links of the keep-alive list stand for a list of distinct slots, after
-- remove_from_keepalive_list they stand for that list without the slot, whether it was in it or
-- not.
pub remove-KeepList :
    (i : ℕ) (l : EventLoop) (ks : List ℕ)
    → KeepList l ks
    → KeepList (remove_from_keepalive_list i l) (without i ks)
unfolding remove_from_keepalive_list
remove-KeepList i l ks h = elim (Bool-cases (l.conns i).in_keepalive_list) [
  | inr e ↦
      let absent : contains i ks ≡ false = sym (h.marked i) ∙ e in
      rw (e, without-absent i ks absent) h
  | inl e ↦
      let inside : contains i ks ≡ true = sym (h.marked i) ∙ e in
      let head = taken_out-head i l ks inside h.distinct h.chain in
      rw (remove-marked i l e) (record {
        chain = rw head (
            Chain-without l.conns (taken_out i l).conns i (taken_out-Bridged i l) none
              l.keepalive_head ks h.distinct inside (λ j m. refl) h.chain);
        distinct = without-Distinct i ks h.distinct;
        marked =
            λ j. taken_out-marks i l j ∙ rw (h.marked j) (sym (contains-without i j ks h.distinct));
      })
]

-- The slot put in front of the list.
abbrev pub with_first : ℕ → List ℕ → List ℕ
with_first i ks = if contains i ks then ks else i ∷ ks

put-reads {ℓ} :
    {A : Type ℓ} (f : Connection → A) (i : ℕ) (c : Connection) (l : EventLoop) (j : ℕ)
    → f ((put i c l).conns j) ≡ (if i == j then f c else f (l.conns j))
put-reads f i c l j = elim (Bool-cases (i == j)) [ inl e ↦ rw e refl | inr e ↦ rw e refl ]

module _ (i : ℕ) (l : EventLoop) where
  abbrev first : Connection
  first = record (l.conns i) {
    in_keepalive_list = true;
    keepalive_prev = none;
    keepalive_next = l.keepalive_head;
  }

  abbrev linked : EventLoop
  linked = put i first l

  abbrev added : EventLoop
  added = record (set_prev l.keepalive_head (some i) linked) { keepalive_head = some i }

  added-next :
      (j : ℕ)
      → (added.conns j).keepalive_next
        ≡ (if i == j then l.keepalive_head else (l.conns j).keepalive_next)
  added-next j =
      set_prev-keeps (λ c. c.keepalive_next) l.keepalive_head (some i) linked j (λ c. refl)
      ∙ put-reads (λ c. c.keepalive_next) i first l j

  added-prev :
      (j : ℕ)
      → (added.conns j).keepalive_prev ≡ (
          if points l.keepalive_head j
          then some i
          else if i == j
          then none
          else (l.conns j).keepalive_prev)
  added-prev j =
      set_prev-prev l.keepalive_head (some i) linked j
      ∙ ap (λ z. if points l.keepalive_head j then some i else z)
          (put-reads (λ c. c.keepalive_prev) i first l j)

  added-marks :
      (j : ℕ)
      → (added.conns j).in_keepalive_list ≡ (if i == j then true else (l.conns j).in_keepalive_list)
  added-marks j =
      set_prev-keeps (λ c. c.in_keepalive_list) l.keepalive_head (some i) linked j (λ c. refl)
      ∙ put-reads (λ c. c.in_keepalive_list) i first l j

  head_outside :
      (prev : Option ℕ) (ks : List ℕ)
      → contains i ks ≡ false
      → Chain l.conns prev l.keepalive_head ks
      → points l.keepalive_head i ≡ false
  unfolding contains
  head_outside prev [] out h = rw h refl
  head_outside prev (k ∷ ks) out h = rw h.0 (ground arith)

  -- The old list stands behind the new slot.
  added-Chain :
      (ks : List ℕ)
      → contains i ks ≡ false
      → Distinct ks
      → Chain l.conns none l.keepalive_head ks
      → Chain added.conns (some i) l.keepalive_head ks
  unfolding contains
  added-Chain [] out u h = h
  added-Chain (k ∷ ks) out u (h, p, t) =
      let other : i == k ≡ false = ground arith in
      let here : points l.keepalive_head k ≡ true = rw h (ground arith) in
      (
        h,
        rw here at (added-prev k),
        rw (added-next k, other)
            (Chain-frame l.conns added.conns (some k) (l.conns k).keepalive_next ks
              (λ j m.
                let far : points l.keepalive_head j ≡ false = rw h (apart k j ks u.0 m) in
                let next : i == j ≡ false = apart i j ks (ground arith) m in
                (rw (far, next) at (added-prev j), rw next at (added-next j)))
              t),
      )

pub contains-cons :
    (i j : ℕ) (ks : List ℕ) → (if i == j then true else contains j ks) ≡ contains j (i ∷ ks)
unfolding contains
contains-cons i j ks = ground arith

-- If the links of the keep-alive list stand for a list of distinct slots, after
-- add_to_keepalive_list they stand for that list with the slot in front, or for the same list if
-- the slot was in it.
pub add-KeepList :
    (i : ℕ) (l : EventLoop) (ks : List ℕ)
    → KeepList l ks
    → KeepList (add_to_keepalive_list i l) (with_first i ks)
unfolding add_to_keepalive_list
add-KeepList i l ks h = elim (Bool-cases (l.conns i).in_keepalive_list) [
  | inl e ↦ let inside : contains i ks ≡ true = sym (h.marked i) ∙ e in rw (e, inside) h
  | inr e ↦
      let out : contains i ks ≡ false = sym (h.marked i) ∙ e in
      let self : i == i ≡ true = ground arith in
      rw (e, out)
        (record {
          chain = (
            refl,
            rw (head_outside i l none ks out h.chain, self) at (added-prev i l i),
            rw (rw self at (added-next i l i)) (added-Chain i l ks out h.distinct h.chain),
          );
          distinct = (out, h.distinct);
          marked = λ j. added-marks i l j ∙ rw (h.marked j) (contains-cons i j ks);
        })
]
