-- ===== src/Core/EventLoop/KeepAlive/Bridge.antt =====
-- A slot of the list of idle connections is bridged over.
use file_web_server.Base.{
  ℕ, true, false, ◌≡◌, ap, ◌∙◌, inl, inr, List, [], ◌∷◌, Option, some, arith, ◌==◌, if◌then◌else◌,
  Bool-cases,
}
use file_web_server.Core.Connection.{Connection}
use file_web_server.Core.EventLoop.Slots.{contains}
use file_web_server.Core.EventLoop.KeepAlive.{
  Chain, Chain-frame, Distinct, SameLinks, apart, next_inside, points, points-eq, prev_inside,
  without,
}

-- `d` is `c` with slot `i` bridged over.
abbrev pub Bridged : (ℕ → Connection) → (ℕ → Connection) → ℕ → Type 0
Bridged c d i =
    (j : ℕ)
    → i == j ≡ false
    → ((d j).keepalive_prev
        ≡ (if points (c i).keepalive_next j then (c i).keepalive_prev else (c j).keepalive_prev))
      × ((d j).keepalive_next
          ≡ (if points (c i).keepalive_prev j then (c i).keepalive_next else (c j).keepalive_next))

module _ (c d : ℕ → Connection) (i : ℕ) (bridged : Bridged c d i) where
  abbrev Outside : Option ℕ → List ℕ → Type 0
  Outside prev ks = (j : ℕ) → contains j ks ≡ true → points prev j ≡ false

  untouched :
      (j : ℕ)
      → i == j ≡ false
      → points (c i).keepalive_next j ≡ false
      → points (c i).keepalive_prev j ≡ false
      → SameLinks c d j
  untouched j e a b = let (p, q) = bridged j e in (rw a at p, rw b at q)

  -- The first slot goes.
  Chain-tail :
      (prev : Option ℕ) (ks : List ℕ)
      → Distinct (i ∷ ks)
      → Outside prev ks
      → (c i).keepalive_prev ≡ prev
      → Chain c (some i) (c i).keepalive_next ks
      → Chain d prev (c i).keepalive_next ks
  unfolding contains
  Chain-tail prev [] u o p t = t
  Chain-tail prev (n ∷ ks) u o p (e, q, t) =
      let other : i == n ≡ false = ground arith in
      let b = bridged n other in
      let here : points (c i).keepalive_next n ≡ true = rw e (ground arith) in
      let off : points (c i).keepalive_prev n ≡ false = rw p (o n (ground arith)) in
      let back : (d n).keepalive_prev ≡ prev = rw here at b.0 ∙ p in
      let on : (d n).keepalive_next ≡ (c n).keepalive_next = rw off at b.1 in
      (
        e,
        back,
        rw on (
            Chain-frame c d (some n) (c n).keepalive_next ks
              (λ j m.
                let far : points (c i).keepalive_next j ≡ false = rw e (apart n j ks u.1.0 m) in
                let behind : points (c i).keepalive_prev j ≡ false = rw p (o j (ground arith)) in
                untouched j (apart i j ks (ground arith) m) far behind)
              t),
      )

  -- A slot in front of the one that goes.
  bridge_before :
      (k : ℕ) (prev head : Option ℕ) (ks : List ℕ)
      → Distinct (k ∷ ks)
      → i == k ≡ false
      → contains i ks ≡ true
      → Chain c prev head (k ∷ ks)
      → ((d k).keepalive_prev ≡ prev)
        × ((d k).keepalive_next ≡ (
            if points (c k).keepalive_next i then (c i).keepalive_next else (c k).keepalive_next))
  unfolding contains
  bridge_before k prev head [] u s m t = absurd (ground arith)
  bridge_before k prev head (k' ∷ ks) u s m t =
      let b = bridged k s in
      let ahead : points (c i).keepalive_next k ≡ false =
        elim (Bool-cases (points (c i).keepalive_next k)) [
          | inr e ↦ e
          | inl e ↦
              let inside =
                next_inside c prev head k i k (k' ∷ ks) t (ground arith)
                  (points-eq (c i).keepalive_next k e) in
              absurd (ground arith)
        ] in
      let agree : points (c i).keepalive_prev k ≡ points (c k).keepalive_next i =
        elim (Bool-cases (i == k')) [
          | inl e ↦
              let z : i ≡ k' = ground arith in
              let back : (c i).keepalive_prev ≡ some k = ap (λ x. (c x).keepalive_prev) z ∙ t.2.1 in
              rw (back, t.2.0) (ground arith)
          | inr e ↦
              let (q, back, inside) =
                prev_inside c (some k) (c k).keepalive_next k' i ks t.2 (ground arith) in
              let distant = apart k q (k' ∷ ks) u.0 inside in
              let off : q == k ≡ false = ground arith in rw (back, t.2.0) (ground arith)
        ] in
      ((rw ahead at b.0) ∙ t.1, rw agree at b.1)

  pub Chain-without :
      (prev head : Option ℕ) (ks : List ℕ)
      → Distinct ks
      → contains i ks ≡ true
      → Outside prev ks
      → Chain c prev head ks
      → Chain d prev (if points head i then (c i).keepalive_next else head) (without i ks)
  unfolding contains
  Chain-without prev head [] u m o t = absurd (ground arith)
  Chain-without prev head (k ∷ ks) u m o (h, p, t) = elim (Bool-cases (i == k)) [
    | inl e ↦
        let z : k ≡ i = ground arith in
        let here : points head i ≡ true = rw h (ground arith) in
        rw (e, here)
          (Chain-tail prev ks (rw z at u) (λ j w. o j (ground arith)) (rw z at p) (rw z at t))
    | inr e ↦
        let off : points head i ≡ false = rw h (ground arith) in
        let (a, b) = bridge_before k prev head ks u e (ground arith) (h, p, t) in
        rw (e, off)
          (
            h,
            a,
            rw b (
                Chain-without (some k) (c k).keepalive_next ks u.1 (ground arith)
                  (λ j w. apart k j ks u.0 w) t),
          )
  ]
