-- ===== src/Core/EventLoop/Slots.antt =====
-- The event loop and its pool: what destroying, creating and processing a connection do to the slots
-- that are lent.
pub mod Steps
mod Tests
use file_web_server.Base.{
  ℕ, Bool, true, false, not, ◌||◌, ◌≡◌, ◌≢◌, ◌⊎◌, refl, sym, ap, ◌∙◌, inl, inr, List, [], ◌∷◌, ◌++◌,
  Option, none, some, arith, ◌==◌, if◌then◌else◌, Bool-cases, Option-cases,
}
use file_web_server.Core.Connection.{Connection, State, Want, closed, is_closed, close}
use file_web_server.Core.Connection.Delivery.{close-closed}
use file_web_server.Core.EventLoop.Fields.{add-keeps, remove-keeps}
use file_web_server.Core.EventLoop.{
  EventLoop, put, add_event, set_next, set_prev, add_to_keepalive_list, remove_from_keepalive_list,
  update_events, delete_events, destroy_connection, create_connection,
}
use file_web_server.Core.Pool.Ownership.{Owns, release-Owns}

unfoldable pub contains : ℕ → List ℕ → Bool
contains i [] = false
contains i (j ∷ js) = i == j || contains i js

pub contains-split :
    (i : ℕ) (js : List ℕ)
    → contains i js ≡ true
    → (before : List ℕ) × (after : List ℕ) × (js ≡ before ++ i ∷ after)
unfolding contains
contains-split i [] h = absurd (ground arith)
contains-split i (j ∷ js) h = elim (Bool-cases (i == j)) [
  | inl e ↦ let k : i ≡ j = ground arith in ([], js, rw k refl)
  | inr e ↦
      let (before, after, s) = contains-split i js (rw e at h) in
      (j ∷ before, after, ap (λ z. j ∷ z) s)
]

pub contains-without :
    (i j : ℕ) (before after : List ℕ)
    → contains j (before ++ after) ≡ false
    → i == j ≡ false
    → contains j (before ++ i ∷ after) ≡ false
unfolding contains
contains-without i j [] after h k = ground arith
contains-without i j (b ∷ bs) after h k =
    let later = contains-without i j bs after (ground arith) k in ground arith

-- The pool has lent `lent`, and a slot that is not lent has a closed connection.
pub record Slots (l : EventLoop) (lent : List ℕ) : Type 0 where
  pub owns : Owns l.pool lent
  pub unlent_closed : (i : ℕ) → contains i lent ≡ false → (l.conns i).state ≡ closed

pub remove-state :
    (i j : ℕ) (l : EventLoop) → ((remove_from_keepalive_list i l).conns j).state ≡ (l.conns j).state
remove-state i j l = remove-keeps (λ c. c.state) i j l (λ c b p n. refl)

pub add-state :
    (i j : ℕ) (l : EventLoop) → ((add_to_keepalive_list i l).conns j).state ≡ (l.conns j).state
add-state i j l = add-keeps (λ c. c.state) i j l (λ c b p n. refl)

pub remove-pool : (i : ℕ) (l : EventLoop) → (remove_from_keepalive_list i l).pool ≡ l.pool
unfolding remove_from_keepalive_list set_next set_prev
remove-pool i l = ground arith

pub add-pool : (i : ℕ) (l : EventLoop) → (add_to_keepalive_list i l).pool ≡ l.pool
unfolding add_to_keepalive_list set_prev
add-pool i l = ground arith
