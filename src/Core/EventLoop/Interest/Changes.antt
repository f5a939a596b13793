-- ===== src/Core/EventLoop/Interest/Changes.antt =====
-- A change of one filter of a socket, and of both.
use file_web_server.Base.{ℕ, true, false, ◌&&◌, ◌≡◌, refl, ◌∙◌, arith, ◌==◌}
use file_web_server.Core.EventLoop.Interest.{outcome, registered, registered-add_event, same_filter}
use file_web_server.Core.EventLoop.{
  Action, EventLoop, Filter, Udata, add_event, evfilt_read, evfilt_timer, evfilt_write,
}

pub add-elsewhere :
    (fd : ℕ) (filter : Filter) (a : Action) (u : Udata) (l : EventLoop) (id : ℕ) (fl : Filter)
    → fd == id ≡ false
    → registered (add_event fd filter a u l) id fl ≡ registered l id fl
add-elsewhere fd filter a u l id fl k =
    let off : same_filter filter fl && fd == id ≡ false = ground arith in
    registered-add_event fd filter a u l id fl ∙ rw off refl

pub add-timer :
    (fd : ℕ) (filter : Filter) (a : Action) (u : Udata) (l : EventLoop) (id : ℕ)
    → same_filter filter evfilt_timer ≡ false
    → registered (add_event fd filter a u l) id evfilt_timer ≡ registered l id evfilt_timer
add-timer fd filter a u l id k = registered-add_event fd filter a u l id evfilt_timer ∙ rw k refl

-- The change of both filters of a socket.
abbrev pub both : ℕ → Action → Udata → Action → Udata → EventLoop → EventLoop
both fd a u b v l = add_event fd evfilt_write b v (add_event fd evfilt_read a u l)

pub both-elsewhere :
    (fd : ℕ) (a : Action) (u : Udata) (b : Action) (v : Udata) (l : EventLoop) (id : ℕ)
    (fl : Filter)
    → fd == id ≡ false
    → registered (both fd a u b v l) id fl ≡ registered l id fl
both-elsewhere fd a u b v l id fl k =
    add-elsewhere fd evfilt_write b v (add_event fd evfilt_read a u l) id fl k
    ∙ add-elsewhere fd evfilt_read a u l id fl k

pub both-timer :
    (fd : ℕ) (a : Action) (u : Udata) (b : Action) (v : Udata) (l : EventLoop) (id : ℕ)
    → registered (both fd a u b v l) id evfilt_timer ≡ registered l id evfilt_timer
both-timer fd a u b v l id =
    add-timer fd evfilt_write b v (add_event fd evfilt_read a u l) id refl
    ∙ add-timer fd evfilt_read a u l id refl

pub both-read :
    (fd : ℕ) (a : Action) (u : Udata) (b : Action) (v : Udata) (l : EventLoop)
    → registered (both fd a u b v l) fd evfilt_read ≡ outcome a u
both-read fd a u b v l =
    let here : fd == fd ≡ true = ground arith in
    registered-add_event fd evfilt_write b v (add_event fd evfilt_read a u l) fd evfilt_read
    ∙ registered-add_event fd evfilt_read a u l fd evfilt_read
    ∙ rw here refl

pub both-write :
    (fd : ℕ) (a : Action) (u : Udata) (b : Action) (v : Udata) (l : EventLoop)
    → registered (both fd a u b v l) fd evfilt_write ≡ outcome b v
both-write fd a u b v l =
    let here : fd == fd ≡ true = ground arith in
    registered-add_event fd evfilt_write b v (add_event fd evfilt_read a u l) fd evfilt_write
    ∙ rw here refl
