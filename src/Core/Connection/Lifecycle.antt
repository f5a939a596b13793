-- ===== src/Core/Connection/Lifecycle.antt =====
-- What opening, resetting and closing a connection do to its descriptors.
use file_web_server.Base.{
  ℕ, List, [], ◌∷◌, ◌++◌, append-nil, Option, none, some, ◌≡◌, ◌≢◌, arith, inl, inr, Bool-cases,
}
use file_web_server.Core.Io.{Effect, shut_down, closed_fd, ssl_shut_down, ssl_freed}
use file_web_server.Core.Connection.{Connection, closed, is_closed, close, close_file}

-- What releasing one resource does.
abbrev pub socket_effects : Option ℕ → List Effect
socket_effects none = []
socket_effects (some f) = shut_down f ∷ closed_fd f ∷ []

abbrev pub ssl_effects : Option ℕ → List Effect
ssl_effects none = []
ssl_effects (some s) = ssl_shut_down s ∷ ssl_freed s ∷ []

abbrev pub file_effects : Option ℕ → List Effect
file_effects none = []
file_effects (some f) = closed_fd f ∷ []

close_file-effects : (c : Connection) → (close_file c).effects ≡ c.effects ++ file_effects c.file_fd
unfolding close_file
close_file-effects c = ground (arith, append-nil c.effects)

-- Closing an open connection shuts down and closes the socket, frees the SSL object and closes the
-- file, each once, in this order and where there is one, and leaves none behind.
pub close_releases :
    (c : Connection)
    → c.state ≢ closed
    → ((close c).effects
        ≡ ((c.effects ++ socket_effects c.fd) ++ ssl_effects c.ssl) ++ file_effects c.file_fd)
      × ((close c).fd ≡ none)
      × ((close c).ssl ≡ none)
      × ((close c).file_fd ≡ none)
      × ((close c).state ≡ closed)
unfolding close
close_releases c h = (
  ground (
    arith,
    append-nil c.effects,
    append-nil (c.effects ++ socket_effects c.fd),
    append-nil ((c.effects ++ socket_effects c.fd) ++ ssl_effects c.ssl),
  ),
  ground arith,
  ground arith,
  ground arith,
  ground arith,
)

-- Closing a connection a second time does nothing.
pub close_idem : (c : Connection) → close (close c) ≡ close c
unfolding close
close_idem c = elim (Bool-cases (is_closed c.state)) [ inl e ↦ rw e (rw e) | inr e ↦ rw e ]
