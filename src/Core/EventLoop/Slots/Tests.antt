-- ===== src/Core/EventLoop/Slots/Tests.antt =====
-- A loop with one connection.
use file_web_server.Base.{
  ℕ, ◌⊎◌, ◌≡◌, ◌∙◌, refl, sym, ap, inl, inr, [], ◌∷◌, arith, none, some, false,
}
use file_web_server.Base.Int.{pos}
use file_web_server.Core.EventLoop.Slots.Steps.{
  SlotsAfter, create_connection-Slots, process_connection-Slots,
}
use file_web_server.Core.EventLoop.Process.{process_connection}
use file_web_server.Core.EventLoop.Slots.{Slots, contains}
use file_web_server.Core.EventLoop.{EventLoop, create_connection, destroy_connection}
use file_web_server.Core.EventLoop
use file_web_server.Core.Pool.Ownership.{new-Owns}
use file_web_server.Core.Pool.{acquire, iota}
use file_web_server.Core.Pool
use file_web_server.Core.Samples.{empty_disk, socket, world}

abbrev at_start : EventLoop
at_start = EventLoop.new (some 4) empty_disk [] (pos 75)

abbrev one_client : EventLoop
one_client = (create_connection 0 7 at_start).1

at_start-Slots : Slots at_start []
unfolding EventLoop.new
at_start-Slots = record { owns = new-Owns; unlent_closed = λ _ _. refl }

made :
    (create_connection 0 7 at_start ≡ (none, at_start))
    ⊎ ((i : ℕ) × (contains i [] ≡ false)
        × ((create_connection 0 7 at_start).0 ≡ some i)
        × Slots (create_connection 0 7 at_start).1 (i ∷ []))
made = create_connection-Slots 0 7 at_start [] at_start-Slots

first_client : (create_connection 0 7 at_start).0 ≡ some 0
unfolding create_connection acquire EventLoop.new Pool.new iota
first_client = refl

one_client-Slots : Slots one_client (0 ∷ [])
one_client-Slots = elim made [
  | inl e ↦ let clash = sym (ap (λ x. x.0) e) ∙ first_client in absurd (ground arith)
  | inr (i, _, e, s) ↦ let z : i ≡ 0 = cc (sym e ∙ first_client) in rw z at s
]

process_connection-Slots_example :
    SlotsAfter 0 (0 ∷ []) (process_connection (world (socket 0 0)) 0 one_client)
process_connection-Slots_example =
    process_connection-Slots (world (socket 0 0)) 0 one_client (0 ∷ []) one_client-Slots
