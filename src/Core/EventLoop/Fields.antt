-- ===== src/Core/EventLoop/Fields.antt =====
-- What the keep-alive list leaves alone: every field of a connection but its links.
use file_web_server.Base.{
  ℕ, Bool, true, false, ◌≡◌, refl, ap, ◌∙◌, inl, inr, Option, none, some, arith, ◌==◌, Bool-cases,
}
use file_web_server.Core.Connection.{Connection}
use file_web_server.Core.EventLoop.{
  EventLoop, put, add_to_keepalive_list, remove_from_keepalive_list, set_next, set_prev,
}

-- A write that keeps what `f` reads.
pub put-keeps {ℓ} :
    {A : Type ℓ} (f : Connection → A) (i : ℕ) (c : Connection) (l : EventLoop) (j : ℕ)
    → f c ≡ f (l.conns i)
    → f ((put i c l).conns j) ≡ f (l.conns j)
put-keeps f i c l j h = elim (Bool-cases (i == j)) [
  | inl e ↦ let k : i ≡ j = ground arith in rw e (h ∙ ap (λ z. f (l.conns z)) k)
  | inr e ↦ rw e refl
]

pub set_next-keeps {ℓ} :
    {A : Type ℓ} (f : Connection → A) (p n : Option ℕ) (l : EventLoop) (j : ℕ)
    → ((c : Connection) → f (record c { keepalive_next = n }) ≡ f c)
    → f ((set_next p n l).conns j) ≡ f (l.conns j)
unfolding set_next
set_next-keeps f none n l j h = refl
set_next-keeps f (some p) n l j h =
    put-keeps f p (record (l.conns p) { keepalive_next = n }) l j (h (l.conns p))

pub set_prev-keeps {ℓ} :
    {A : Type ℓ} (f : Connection → A) (p n : Option ℕ) (l : EventLoop) (j : ℕ)
    → ((c : Connection) → f (record c { keepalive_prev = n }) ≡ f c)
    → f ((set_prev p n l).conns j) ≡ f (l.conns j)
unfolding set_prev
set_prev-keeps f none n l j h = refl
set_prev-keeps f (some p) n l j h =
    put-keeps f p (record (l.conns p) { keepalive_prev = n }) l j (h (l.conns p))

-- `f` reads no link.
abbrev pub IgnoresLinks {ℓ} : {A : Type ℓ} → (Connection → A) → Type ℓ
IgnoresLinks f =
    (c : Connection) (b : Bool) (p n : Option ℕ)
    → f (record c { in_keepalive_list = b; keepalive_prev = p; keepalive_next = n }) ≡ f c

pub remove-keeps {ℓ} :
    {A : Type ℓ} (f : Connection → A) (i j : ℕ) (l : EventLoop)
    → IgnoresLinks f
    → f ((remove_from_keepalive_list i l).conns j) ≡ f (l.conns j)
unfolding remove_from_keepalive_list
remove-keeps f i j l h = elim (Bool-cases (l.conns i).in_keepalive_list) [
  | inr e ↦ rw e refl
  | inl e ↦
      let c : Connection = record (l.conns i) { in_keepalive_list = false } in
      let prev = (l.conns i).keepalive_prev in
      let a = put i c l in
      let b = set_next prev (l.conns i).keepalive_next a in
      let d = set_prev (b.conns i).keepalive_next prev b in
      rw e (
        put-keeps f i (record (d.conns i) { keepalive_prev = none; keepalive_next = none }) d j
          (h (d.conns i) (d.conns i).in_keepalive_list none none)
        ∙ set_prev-keeps f (b.conns i).keepalive_next prev b j
            (λ z. h z z.in_keepalive_list prev z.keepalive_next)
        ∙ set_next-keeps f prev (l.conns i).keepalive_next a j
            (λ z. h z z.in_keepalive_list z.keepalive_prev (l.conns i).keepalive_next)
        ∙ put-keeps f i c l j
            (h (l.conns i) false (l.conns i).keepalive_prev (l.conns i).keepalive_next))
]

pub add-keeps {ℓ} :
    {A : Type ℓ} (f : Connection → A) (i j : ℕ) (l : EventLoop)
    → IgnoresLinks f
    → f ((add_to_keepalive_list i l).conns j) ≡ f (l.conns j)
unfolding add_to_keepalive_list
add-keeps f i j l h = elim (Bool-cases (l.conns i).in_keepalive_list) [
  | inl e ↦ rw e refl
  | inr e ↦
      let c : Connection = record (l.conns i) {
        in_keepalive_list = true;
        keepalive_prev = none;
        keepalive_next = l.keepalive_head;
      } in
      rw e (
        set_prev-keeps f l.keepalive_head (some i) (put i c l) j
          (λ z. h z z.in_keepalive_list (some i) z.keepalive_next)
        ∙ put-keeps f i c l j (h (l.conns i) true none l.keepalive_head))
]
