-- ===== src/Core/EventLoop/Invariant/Timer.antt =====
-- `handle_timer`: the walk along the list of idle connections.
use file_web_server.Base.{
  ℕ, zero, suc, Bool, true, false, ◌≡◌, refl, sym, ap, ◌∙◌, inl, inr, List, [], ◌∷◌, ◌++◌, Option,
  none, some, arith, ◌==◌, if◌then◌else◌, Bool-cases, length, ◌≤◌,
}
use file_web_server.Base.Int.{ℤ}
use file_web_server.Core.Connection.{Connection, is_expired}
use file_web_server.Core.EventLoop.Dispatch.{expire_from, handle_timer, seconds}
use file_web_server.Core.EventLoop.Invariant.Loop.{LoopOk, destroy-LoopOk, idle-lent}
use file_web_server.Core.EventLoop.Invariant.Expiry.{destroy-is_expired}
use file_web_server.Core.EventLoop.KeepAlive.{Chain, Distinct, apart, without}
use file_web_server.Core.EventLoop.Slots.{contains}
use file_web_server.Core.EventLoop.{Env, EventLoop, destroy_connection}
use file_web_server.Core.Pool.{max_connections}

push_back : (k : ℕ) (after before : List ℕ) → (before ++ k ∷ []) ++ after ≡ before ++ k ∷ after
push_back k after [] = refl
push_back k after (b ∷ bs) = ap (λ z. b ∷ z) (push_back k after bs)

-- The link that leads to a list of slots.
abbrev first : List ℕ → Option ℕ
first [] = none
first (k ∷ ks) = some k

Chain-head :
    (c : ℕ → Connection) (prev head : Option ℕ) (ks : List ℕ)
    → Chain c prev head ks
    → head ≡ first ks
Chain-head c prev head [] h = h
Chain-head c prev head (k ∷ ks) h = h.0

Chain-next :
    (c : ℕ → Connection) (k : ℕ) (after before : List ℕ) (prev head : Option ℕ)
    → Chain c prev head (before ++ k ∷ after)
    → (c k).keepalive_next ≡ first after
Chain-next c k after [] prev head (_, _, t) = Chain-head c (some k) (c k).keepalive_next after t
Chain-next c k after (b ∷ bs) prev head (_, _, t) =
    Chain-next c k after bs (some b) (c b).keepalive_next t

contains-middle : (k : ℕ) (after before : List ℕ) → contains k (before ++ k ∷ after) ≡ true
unfolding contains
contains-middle k after [] = ground arith
contains-middle k after (b ∷ bs) = let later = contains-middle k after bs in ground arith

without-middle :
    (k : ℕ) (after before : List ℕ)
    → Distinct (before ++ k ∷ after)
    → without k (before ++ k ∷ after) ≡ before ++ after
unfolding contains
without-middle k after [] u = let e : k == k ≡ true = ground arith in rw e refl
without-middle k after (b ∷ bs) u =
    let inside = contains-middle k after bs in
    let other : k == b ≡ false = elim (Bool-cases (k == b)) [
      | inr e ↦ e
      | inl e ↦
          let z : b ≡ k = ground arith in
          let out : contains k (bs ++ k ∷ after) ≡ false = rw z at u.0 in absurd (ground arith)
    ] in
    rw other (ap (λ z. b ∷ z) (without-middle k after bs u.1))

-- The slots of a list that are not expired, and the lent ones without those that are.
abbrev pub survivors : (ℕ → Bool) → List ℕ → List ℕ
survivors p [] = []
survivors p (k ∷ ks) = if p k then survivors p ks else k ∷ survivors p ks

abbrev pub dismiss : (ℕ → Bool) → List ℕ → List ℕ → List ℕ
dismiss p [] lent = lent
dismiss p (k ∷ ks) lent = dismiss p ks (if p k then without k lent else lent)

abbrev pub expired : EventLoop → ℕ → ℕ → Bool
expired l now i = is_expired (seconds l.keep_alive_timeout) now (l.conns i)

-- The walk from the slots `todo` on, with `passed` behind it.
expire_from-LoopOk :
    (timeout : ℤ) (now : ℕ) (p : ℕ → Bool) (todo passed : List ℕ) (fuel : ℕ) (l : EventLoop)
    (lent : List ℕ)
    → length todo ≤ fuel
    → ((j : ℕ) → is_expired timeout now (l.conns j) ≡ p j)
    → LoopOk l lent (passed ++ todo)
    → LoopOk
        (expire_from fuel timeout now (first todo) l)
        (dismiss p todo lent)
        (passed ++ survivors p todo)
unfolding expire_from
expire_from-LoopOk timeout now p [] passed zero l lent enough same h = h
expire_from-LoopOk timeout now p [] passed (suc fuel) l lent enough same h = h
expire_from-LoopOk timeout now p (k ∷ ks) passed zero l lent enough same h = absurd (omega arith)
expire_from-LoopOk timeout now p (k ∷ ks) passed (suc fuel) l lent enough same h =
    let next = Chain-next l.conns k ks passed none l.keepalive_head h.idle.list.chain in
    elim (Bool-cases (p k)) [
      | inl e ↦
          let inside = idle-lent k l lent (passed ++ k ∷ ks) h (contains-middle k ks passed) in
          let gone = destroy-LoopOk k l lent (passed ++ k ∷ ks) inside h in
          let shorter = without-middle k ks passed h.idle.list.distinct in
          rw (same k, next, e)
            (expire_from-LoopOk timeout now p ks passed fuel (destroy_connection k l)
              (without k lent) (omega arith) (λ j. destroy-is_expired timeout now k j l ∙ same j)
              (rw shorter at gone))
      | inr e ↦
          rw (same k, next, e)
            (rw (push_back k (survivors p ks) passed) at (
              expire_from-LoopOk timeout now p ks (passed ++ k ∷ []) fuel l lent (omega arith) same
                (rw (sym (push_back k ks passed)) at h)))
    ]

without-length :
    (i : ℕ) (js : List ℕ) → contains i js ≡ true → suc (length (without i js)) ≡ length js
unfolding contains
without-length i [] m = absurd (ground arith)
without-length i (j ∷ js) m = elim (Bool-cases (i == j)) [
  | inl e ↦ rw e refl
  | inr e ↦ rw e (ap suc (without-length i js (ground arith)))
]

without-other :
    (i j : ℕ) (js : List ℕ)
    → i == j ≡ false
    → contains j js ≡ true
    → contains j (without i js) ≡ true
unfolding contains
without-other i j [] e m = m
without-other i j (k ∷ js) e m = elim (Bool-cases (i == k)) [
  | inl f ↦ rw f (ground arith)
  | inr f ↦ elim (Bool-cases (j == k)) [
    | inl g ↦ rw f (ground arith)
    | inr g ↦ rw (f, g) (without-other i j js e (ground arith))
  ]
]

-- Distinct slots among others are no more than these.
Distinct-length :
    (ks lent : List ℕ)
    → Distinct ks
    → ((j : ℕ) → contains j ks ≡ true → contains j lent ≡ true)
    → length ks ≤ length lent
unfolding contains
Distinct-length [] lent u h = omega arith
Distinct-length (k ∷ ks) lent u h =
    let shorter = without-length k lent (h k (ground arith)) in
    let rest =
      Distinct-length ks (without k lent) u.1
        (λ j m. without-other k j lent (apart k j ks u.0 m) (h j (ground arith))) in
    omega arith

-- If the pool has lent some slots, every other slot has a closed connection, and the keep-alive
-- list stands for the slots in KEEP_ALIVE: handle_timer, whose walk reaches the end of the list,
-- gives back exactly those slots of the list that are expired, and leaves the others in the list
-- in their order.
pub handle_timer-LoopOk :
    (env : Env) (l : EventLoop) (lent ks : List ℕ)
    → LoopOk l lent ks
    → LoopOk
        (handle_timer env l)
        (dismiss (expired l env.io.clock) ks lent)
        (survivors (expired l env.io.clock) ks)
unfolding handle_timer
handle_timer-LoopOk env l lent ks h =
    let few = Distinct-length ks lent h.idle.list.distinct (λ j. idle-lent j l lent ks h) in
    let owns = h.slots.owns in
    let enough : length ks ≤ max_connections =
      let a = owns.lent_count in let b = owns.head_le in omega arith in
    walk_from l.keepalive_head (Chain-head l.conns none l.keepalive_head ks h.idle.list.chain) (
      expire_from-LoopOk (seconds l.keep_alive_timeout) env.io.clock (expired l env.io.clock) ks []
        max_connections l lent enough (λ j. refl) h)
  where
    walk_from :
        (o : Option ℕ)
        → o ≡ first ks
        → LoopOk
            (expire_from max_connections (seconds l.keep_alive_timeout) env.io.clock (first ks) l)
            (dismiss (expired l env.io.clock) ks lent)
            (survivors (expired l env.io.clock) ks)
        → LoopOk
            (expire_from max_connections (seconds l.keep_alive_timeout) env.io.clock o l)
            (dismiss (expired l env.io.clock) ks lent)
            (survivors (expired l env.io.clock) ks)
    walk_from o e done = rw e done
