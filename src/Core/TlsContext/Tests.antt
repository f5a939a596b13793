-- ===== src/Core/TlsContext/Tests.antt =====
-- Two contexts, of which one has a certificate.
use file_web_server.Base.{◌++◌, ◌≡◌, false, some, true}
use file_web_server.Core.TlsContext.Ownership.{move-destroy}
use file_web_server.Core.TlsContext.{TlsContext, destroy, move, move_assign}

abbrev bare : TlsContext
bare = record { ctx = some 1; loaded = false }

abbrev certified : TlsContext
certified = record { ctx = some 2; loaded = true }

move-destroy_example :
    (destroy (move certified).0 ++ destroy (move certified).1 ≡ destroy certified)
    × ((move_assign bare certified).2
          ++ (destroy (move_assign bare certified).0 ++ destroy (move_assign bare certified).1)
        ≡ destroy bare ++ destroy certified)
    × ((move certified).0.loaded ≡ false)
move-destroy_example = move-destroy bare certified
