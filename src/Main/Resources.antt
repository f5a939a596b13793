-- ===== src/Main/Resources.antt =====
-- What `main` takes and gives back: its listening socket, the event queue and the TLS context.
use file_web_server.Base.{
  ℕ, Bool, true, false, ◌≡◌, refl, sym, ap, ◌∙◌, List, [], ◌∷◌, ◌++◌, append-nil, append_assoc, map,
  Option, none, some, Bytes, Option-cases, inl, inr,
}
use file_web_server.Core.TlsContext.{
  OpenSsl, TlsContext, TlsEffect, ctx_created, ctx_freed, destroy,
}
use file_web_server.Core.TlsContext
use file_web_server.Main.{
  StartEffect, context_dropped, error_printed, listen_on, on_tls, printed, queue_closed, queue_of,
  queue_opened, socket_closed, socket_opened,
}

pub data Kind : Type 0 where
  listening queue context : Kind

abbrev pub takes : Kind → StartEffect → List ℕ
takes listening (socket_opened fd) = fd ∷ []
takes queue (queue_opened kq) = kq ∷ []
takes context (on_tls (ctx_created ctx)) = ctx ∷ []
takes _ _ = []

abbrev pub gives : Kind → StartEffect → List ℕ
gives listening (socket_closed fd) = fd ∷ []
gives queue (queue_closed kq) = kq ∷ []
gives context (on_tls (ctx_freed ctx)) = ctx ∷ []
gives _ _ = []

-- Those of a kind that are taken, and those that are given back, in order.
abbrev pub taken : Kind → List StartEffect → List ℕ
taken k [] = []
taken k (e ∷ es) = takes k e ++ taken k es

abbrev pub given : Kind → List StartEffect → List ℕ
given k [] = []
given k (e ∷ es) = gives k e ++ given k es

pub taken-append :
    (k : Kind) (es fs : List StartEffect) → taken k (es ++ fs) ≡ taken k es ++ taken k fs
taken-append k [] fs = refl
taken-append k (e ∷ es) fs =
    ap (λ z. takes k e ++ z) (taken-append k es fs)
    ∙ sym (append_assoc (takes k e) (taken k es) (taken k fs))

pub given-append :
    (k : Kind) (es fs : List StartEffect) → given k (es ++ fs) ≡ given k es ++ given k fs
given-append k [] fs = refl
given-append k (e ∷ es) fs =
    ap (λ z. gives k e ++ z) (given-append k es fs)
    ∙ sym (append_assoc (gives k e) (given k es) (given k fs))

-- What is held: a socket, a queue, a context.
abbrev pub holding : Option ℕ → Option ℕ → Option ℕ → Kind → List ℕ
holding fd kq ctx listening = queue_of fd
holding fd kq ctx queue = queue_of kq
holding fd kq ctx context = queue_of ctx

-- What is held in front of some effects, and behind them.
abbrev MovesOf : Kind → (Kind → List ℕ) → List StartEffect → (Kind → List ℕ) → Type 0
MovesOf k h es h' = h k ++ taken k es ≡ given k es ++ h' k

pub record Moves (h : Kind → List ℕ) (es : List StartEffect) (h' : Kind → List ℕ) : Type 0 where
  pub sockets : h listening ++ taken listening es ≡ given listening es ++ h' listening
  pub queues : h queue ++ taken queue es ≡ given queue es ++ h' queue
  pub contexts : h context ++ taken context es ≡ given context es ++ h' context

MovesOf-append :
    (k : Kind) (h h' h'' : Kind → List ℕ) (es fs : List StartEffect)
    → MovesOf k h es h'
    → MovesOf k h' fs h''
    → MovesOf k h (es ++ fs) h''
MovesOf-append k h h' h'' es fs a b =
    ap (λ z. h k ++ z) (taken-append k es fs)
    ∙ sym (append_assoc (h k) (taken k es) (taken k fs))
    ∙ ap (λ z. z ++ taken k fs) a
    ∙ append_assoc (given k es) (h' k) (taken k fs)
    ∙ ap (λ z. given k es ++ z) b
    ∙ sym (append_assoc (given k es) (given k fs) (h'' k))
    ∙ ap (λ z. z ++ h'' k) (sym (given-append k es fs))

pub Moves-append :
    (h h' h'' : Kind → List ℕ) (es fs : List StartEffect)
    → Moves h es h'
    → Moves h' fs h''
    → Moves h (es ++ fs) h''
Moves-append h h' h'' es fs a b = record {
  sockets = MovesOf-append listening h h' h'' es fs a.sockets b.sockets;
  queues = MovesOf-append queue h h' h'' es fs a.queues b.queues;
  contexts = MovesOf-append context h h' h'' es fs a.contexts b.contexts;
}

-- All that is taken is given back.
abbrev pub Balanced : List StartEffect → Type 0
Balanced es = (k : Kind) → taken k es ≡ given k es

pub Moves-Balanced :
    (es : List StartEffect)
    → Moves (holding none none none) es (holding none none none)
    → Balanced es
Moves-Balanced es m listening = m.sockets ∙ append-nil (given listening es)
Moves-Balanced es m queue = m.queues ∙ append-nil (given queue es)
Moves-Balanced es m context = m.contexts ∙ append-nil (given context es)

pub printed-Moves : (h : Kind → List ℕ) (text : Bytes) → Moves h (printed text ∷ []) h
printed-Moves h text = record {
  sockets = append-nil (h listening);
  queues = append-nil (h queue);
  contexts = append-nil (h context);
}

-- A listener that cannot be made is closed where it was opened.
pub listen_on-Moves :
    (fd : Option ℕ) (bind listen : Bool) (port : ℕ)
    → Moves
        (holding none none none)
        (listen_on fd bind listen port).1
        (holding (listen_on fd bind listen port).0 none none)
unfolding listen_on
listen_on-Moves none bind listen port = record { sockets = refl; queues = refl; contexts = refl }
listen_on-Moves (some fd) false listen port = record {
  sockets = refl;
  queues = refl;
  contexts = refl;
}
listen_on-Moves (some fd) true false port = record {
  sockets = refl;
  queues = refl;
  contexts = refl;
}
listen_on-Moves (some fd) true true port = record { sockets = refl; queues = refl; contexts = refl }

pub new-Moves :
    (fd : ℕ) (lib : OpenSsl)
    → Moves
        (holding (some fd) none none)
        (map on_tls (TlsContext.new lib).1)
        (holding (some fd) none (TlsContext.new lib).0.ctx)
unfolding TlsContext.new
new-Moves fd lib = elim (Option-cases lib.ctx_new) [
  | inl e ↦ rw e (record { sockets = refl; queues = refl; contexts = refl })
  | inr (ctx, e) ↦ rw e (record { sockets = refl; queues = refl; contexts = refl })
]

-- The end of main, with the certificate refused, and after the loop.
pub refused-Moves :
    (fd : ℕ) (text : Bytes) (t : TlsContext)
    → Moves
        (holding (some fd) none t.ctx)
        (error_printed text ∷ socket_closed fd ∷ context_dropped t)
        (holding none none none)
unfolding destroy
refused-Moves fd text t = elim (Option-cases t.ctx) [
  | inl e ↦ rw e (record { sockets = refl; queues = refl; contexts = refl })
  | inr (ctx, e) ↦ rw e (record { sockets = refl; queues = refl; contexts = refl })
]

pub ended-Moves :
    (fd : ℕ) (kq : Option ℕ) (text : Bytes) (t : TlsContext)
    → Moves
        (holding (some fd) none t.ctx)
        (map queue_opened (queue_of kq)
          ++ (socket_closed fd
              ∷ printed text
              ∷ (map queue_closed (queue_of kq) ++ context_dropped t)))
        (holding none none none)
unfolding destroy
ended-Moves fd none text t = elim (Option-cases t.ctx) [
  | inl e ↦ rw e (record { sockets = refl; queues = refl; contexts = refl })
  | inr (ctx, e) ↦ rw e (record { sockets = refl; queues = refl; contexts = refl })
]
ended-Moves fd (some kq) text t = elim (Option-cases t.ctx) [
  | inl e ↦ rw e (record { sockets = refl; queues = refl; contexts = refl })
  | inr (ctx, e) ↦ rw e (record { sockets = refl; queues = refl; contexts = refl })
]

pub printed-Balanced : (text : Bytes) → Balanced (printed text ∷ [])
printed-Balanced text listening = refl
printed-Balanced text queue = refl
printed-Balanced text context = refl

pub error_printed-Balanced : (text : Bytes) → Balanced (error_printed text ∷ [])
error_printed-Balanced text listening = refl
error_printed-Balanced text queue = refl
error_printed-Balanced text context = refl
