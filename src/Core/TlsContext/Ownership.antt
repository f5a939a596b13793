-- ===== src/Core/TlsContext/Ownership.antt =====
-- Who owns an SSL_CTX.
use file_web_server.Base.{◌≡◌, ◌++◌, arith, false}
use file_web_server.Core.TlsContext.{TlsContext, destroy, move, move_assign}

-- Moving a TLS context into a new object or another one, and destroying both, frees each SSL_CTX
-- exactly as often as without the move; the object made by the move is never marked as loaded.
pub move-destroy :
    (t other : TlsContext)
    → (destroy (move other).0 ++ destroy (move other).1 ≡ destroy other)
      × ((move_assign t other).2
            ++ (destroy (move_assign t other).0 ++ destroy (move_assign t other).1)
          ≡ destroy t ++ destroy other)
      × ((move other).0.loaded ≡ false)
unfolding move move_assign destroy
move-destroy t other = ground arith
