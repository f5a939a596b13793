-- ===== src/Core/EventLoop/KeepAlive/Operations.antt =====
-- `add_to_keepalive_list` and `remove_from_keepalive_list` on the list of slots.
use file_web_server.Base.{
  ℕ, Bool, true, false, ◌≡◌, refl, ap, ◌∙◌, inl, inr, List, [], ◌∷◌, Option, none, some, arith,
  ◌==◌, if◌then◌else◌, Bool-cases,
}
use file_web_server.Core.Connection.{Connection}
use file_web_server.Core.EventLoop.KeepAlive.Bridge.{Bridged}
use file_web_server.Core.EventLoop.KeepAlive.{Chain, Distinct, points, prev_inside}
use file_web_server.Core.EventLoop.Fields.{put-keeps, set_next-keeps, set_prev-keeps}
use file_web_server.Core.EventLoop.Slots.{contains}
use file_web_server.Core.EventLoop.{EventLoop, put, remove_from_keepalive_list, set_next, set_prev}

module _ (p n : Option ℕ) (l : EventLoop) (j : ℕ) where
  set_next-next :
      ((set_next p n l).conns j).keepalive_next
      ≡ (if points p j then n else (l.conns j).keepalive_next)
  unfolding set_next
  set_next-next = ground arith

  pub set_prev-prev :
      ((set_prev p n l).conns j).keepalive_prev
      ≡ (if points p j then n else (l.conns j).keepalive_prev)
  unfolding set_prev
  set_prev-prev = ground arith

-- The list of the loop stands for `ks`: its links lead through `ks` and back, no slot stands in it
-- twice, and exactly its slots are marked.
pub record KeepList (l : EventLoop) (ks : List ℕ) : Type 0 where
  pub chain : Chain l.conns none l.keepalive_head ks
  pub distinct : Distinct ks
  pub marked : (i : ℕ) → (l.conns i).in_keepalive_list ≡ contains i ks

module _ (i : ℕ) (l : EventLoop) where
  abbrev unmarked : EventLoop
  unmarked = put i (record (l.conns i) { in_keepalive_list = false }) l

  abbrev skipped : EventLoop
  skipped = set_next (l.conns i).keepalive_prev (l.conns i).keepalive_next unmarked

  abbrev bridged : EventLoop
  bridged = set_prev (l.conns i).keepalive_next (l.conns i).keepalive_prev skipped

  abbrev pub taken_out : EventLoop
  taken_out =
      put i (record (bridged.conns i) { keepalive_prev = none; keepalive_next = none }) bridged

  skipped-next :
      (j : ℕ)
      → (skipped.conns j).keepalive_next ≡ (
          if points (l.conns i).keepalive_prev j
          then (l.conns i).keepalive_next
          else (l.conns j).keepalive_next)
  skipped-next j =
      set_next-next (l.conns i).keepalive_prev (l.conns i).keepalive_next unmarked j
      ∙ ap (λ z. if points (l.conns i).keepalive_prev j then (l.conns i).keepalive_next else z)
          (put-keeps (λ c. c.keepalive_next) i (record (l.conns i) { in_keepalive_list = false }) l
            j refl)

  pub remove-marked :
      (l.conns i).in_keepalive_list ≡ true → remove_from_keepalive_list i l ≡ taken_out
  unfolding remove_from_keepalive_list
  remove-marked m =
      let same : (skipped.conns i).keepalive_next ≡ (l.conns i).keepalive_next =
        elim (Bool-cases (points (l.conns i).keepalive_prev i)) [
          | inl e ↦ rw e at (skipped-next i)
          | inr e ↦ rw e at (skipped-next i)
        ] in
      rw m (
        ap
          (λ n.
            let b : EventLoop = set_prev n (l.conns i).keepalive_prev skipped in
            put i (record (b.conns i) { keepalive_prev = none; keepalive_next = none }) b)
          same)

  pub taken_out-Bridged : Bridged l.conns taken_out.conns i
  taken_out-Bridged j e = (
    rw e (
        set_prev-prev (l.conns i).keepalive_next (l.conns i).keepalive_prev skipped j
        ∙ ap (λ z. if points (l.conns i).keepalive_next j then (l.conns i).keepalive_prev else z)
            (set_next-keeps (λ c. c.keepalive_prev) (l.conns i).keepalive_prev
                (l.conns i).keepalive_next unmarked j (λ c. refl)
              ∙ put-keeps (λ c. c.keepalive_prev) i
                  (record (l.conns i) { in_keepalive_list = false }) l j refl)),
    rw e (
        set_prev-keeps (λ c. c.keepalive_next) (l.conns i).keepalive_next (l.conns i).keepalive_prev
          skipped j (λ c. refl)
        ∙ skipped-next j),
  )

  pub taken_out-marks :
      (j : ℕ)
      → (taken_out.conns j).in_keepalive_list
        ≡ (if i == j then false else (l.conns j).in_keepalive_list)
  taken_out-marks j =
      let field : Connection → Bool = λ c. c.in_keepalive_list in
      put-keeps field i (record (bridged.conns i) { keepalive_prev = none; keepalive_next = none })
        bridged j refl
      ∙ set_prev-keeps field (l.conns i).keepalive_next (l.conns i).keepalive_prev skipped j
          (λ c. refl)
      ∙ set_next-keeps field (l.conns i).keepalive_prev (l.conns i).keepalive_next unmarked j
          (λ c. refl)
      ∙ marks
    where
      marks :
          (unmarked.conns j).in_keepalive_list
          ≡ (if i == j then false else (l.conns j).in_keepalive_list)
      marks = ground arith

  set_prev-head :
      (p n : Option ℕ) (m : EventLoop) → (set_prev p n m).keepalive_head ≡ m.keepalive_head
  unfolding set_prev
  set_prev-head none n m = refl
  set_prev-head (some p) n m = refl

  -- In a chain the first slot is the one with no predecessor.
  pub taken_out-head :
      (ks : List ℕ)
      → contains i ks ≡ true
      → Distinct ks
      → Chain l.conns none l.keepalive_head ks
      → taken_out.keepalive_head
        ≡ (if points l.keepalive_head i then (l.conns i).keepalive_next else l.keepalive_head)
  unfolding contains set_next
  taken_out-head [] m u t = absurd (ground arith)
  taken_out-head (k ∷ ks) m u (h, p, t) = elim (Bool-cases (i == k)) [
    | inl e ↦
        let z : k ≡ i = ground arith in
        let first : (l.conns i).keepalive_prev ≡ none = rw z at p in
        let here : points l.keepalive_head i ≡ true = rw h (ground arith) in
        rw here (
          set_prev-head (l.conns i).keepalive_next (l.conns i).keepalive_prev skipped
          ∙ rw first refl)
    | inr e ↦
        let (q, back, _) =
          prev_inside l.conns none l.keepalive_head k i ks (h, p, t) (ground arith) in
        let off : points l.keepalive_head i ≡ false = rw h (ground arith) in
        rw off (
          set_prev-head (l.conns i).keepalive_next (l.conns i).keepalive_prev skipped
          ∙ rw back refl)
  ]
