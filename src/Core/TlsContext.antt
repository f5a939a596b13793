-- ===== src/Core/TlsContext.antt =====
-- src/core/tls_context.h: the owner of an SSL_CTX.
pub mod Ownership
mod Tests
use file_web_server.Base.{
  ℕ, Bool, true, false, not, List, [], ◌∷◌, Option, none, some, if◌then◌else◌, Bytes, codes,
}

-- What OpenSSL answers: a context or null, whether the files are taken, whether the key fits, and an
-- SSL object or null.
pub record OpenSsl : Type 0 where
  pub ctx_new : Option ℕ
  pub use_certificate_file : Bytes → Bool
  pub use_private_key_file : Bytes → Bool
  pub check_private_key : Bool
  pub ssl_new : Option ℕ

pub data Mode : Type 0 where
  enable_partial_write accept_moving_write_buffer : Mode

pub data CtxOption : Type 0 where
  no_compression no_session_resumption_on_renegotiation cipher_server_preference : CtxOption

-- The calls that change a context or an SSL object.
pub data TlsEffect : Type 0 where
  ctx_created : ℕ → TlsEffect
  min_proto_tls1_2 : ℕ → TlsEffect
  mode_set : ℕ → List Mode → TlsEffect
  options_set : ℕ → List CtxOption → TlsEffect
  cipher_list_set : ℕ → Bytes → TlsEffect
  ctx_freed : ℕ → TlsEffect
  accept_state_set : ℕ → TlsEffect

pub record TlsContext : Type 0 where
  pub ctx : Option ℕ
  pub loaded : Bool

-- The constructor.
unfoldable pub new : OpenSsl → TlsContext × List TlsEffect
new lib = (
  record { ctx = lib.ctx_new; loaded = false },
  elim lib.ctx_new [
    | none ↦ []
    | some ctx ↦
        ctx_created ctx
        ∷ min_proto_tls1_2 ctx
        ∷ mode_set ctx (enable_partial_write ∷ accept_moving_write_buffer ∷ [])
        ∷ options_set ctx (
            no_compression ∷ no_session_resumption_on_renegotiation ∷ cipher_server_preference ∷ [])
        ∷ cipher_list_set ctx (codes "HIGH:!aNULL:!eNULL:!MD5:!PSK:!SRP")
        ∷ []
  ],
)

abbrev pub freed : Option ℕ → List TlsEffect
freed none = []
freed (some ctx) = ctx_freed ctx ∷ []

-- The destructor.
unfoldable pub destroy : TlsContext → List TlsEffect
destroy t = freed t.ctx

-- The move constructor: the new object, and what is left of the other. `loaded_` is not moved.
unfoldable pub move : TlsContext → TlsContext × TlsContext
move other = (record { ctx = other.ctx; loaded = false }, record other { ctx = none })

-- The move assignment between two objects: the first, the other, and what is freed.
unfoldable pub move_assign : TlsContext → TlsContext → TlsContext × TlsContext × List TlsEffect
move_assign t other = (record t { ctx = other.ctx }, record other { ctx = none }, freed t.ctx)

unfoldable pub load_certificate : OpenSsl → Bytes → Bytes → TlsContext → Bool × TlsContext
load_certificate lib cert_file key_file t = elim t.ctx [
  | none ↦ (false, t)
  | some ctx ↦
      if not (lib.use_certificate_file cert_file)
      then (false, t)
      else if not (lib.use_private_key_file key_file)
      then (false, t)
      else if not lib.check_private_key
      then (false, t)
      else (true, record t { loaded = true })
]

unfoldable pub new_ssl : OpenSsl → TlsContext → Option ℕ × List TlsEffect
new_ssl lib t = elim t.ctx [
  | none ↦ (none, [])
  | some ctx ↦ elim lib.ssl_new [
    | none ↦ (none, [])
    | some ssl ↦ (some ssl, accept_state_set ssl ∷ [])
  ]
]
