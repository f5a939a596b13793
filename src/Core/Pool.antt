-- ===== src/Core/Pool.antt =====
-- src/core/connection_pool.h: an index stack. A pointer to a connection is its index in the array;
-- the array itself is a field of the event loop.
pub mod Ownership
mod Tests
use file_web_server.Base.{
  ℕ, zero, suc, ◌+◌, ◌-◌, ◌≤◌, ◌<◌, ◌%◌, ◌^◌, Bool, List, [], ◌∷◌, Option, none, some, leb,
  if◌then◌else◌, get_or, set,
}

-- MAX_CONNECTIONS
abbrev pub max_connections : ℕ
max_connections = 16384

pub record Pool : Type 0 where
  pub free_list : List ℕ
  pub free_head : ℕ
  pub active_count : ℕ

-- start, start + 1, …, `n` numbers
unfoldable pub iota : ℕ → ℕ → List ℕ
iota start zero = []
iota start (suc n) = start ∷ iota (start + 1) n

-- The constructor: every slot is free, free_list_[i] = i.
unfoldable pub new : Pool
unfolding iota
new = record { free_list = iota 0 max_connections; free_head = 0; active_count = 0 }

unfoldable pub acquire : Pool → Option ℕ × Pool
acquire p = if leb max_connections p.free_head then (none, p) else (
  some (get_or p.free_list p.free_head 0),
  record p { free_head = p.free_head + 1; active_count = p.active_count + 1 },
)

-- free_head_ and active_count_ are size_t: a decrement of 0 wraps, and the write is then far out of
-- the array.
abbrev pub size_mod : ℕ
size_mod = 2 ^ 64

abbrev pub decrement : ℕ → ℕ
decrement n = (n + (size_mod - 1)) % size_mod

unfoldable pub release : Pool → ℕ → Pool
release p idx = if leb max_connections idx then p else record p {
  free_list = set p.free_list (decrement p.free_head) idx;
  free_head = decrement p.free_head;
  active_count = decrement p.active_count;
}
