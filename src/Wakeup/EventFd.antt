-- ===== src/Wakeup/EventFd.antt =====
-- What torrent/system/ipc/wakeup_fd.cc does otherwise with USE_EVENT_FD: one eventfd in place of a pair
-- of sockets, and eight bytes in place of one.
use shm_ipc.Base.{
  ℕ, ◌≡◌, refl, Bool, true, false, ◌==◌, ==_true, if◌then◌else◌, Option, none, some, List, [], ◌∷◌,
  arith,
}
use shm_ipc.Base.Outcome.{Outcome, returns, throws, internal_error}
use shm_ipc.Fd.{Os, Sys, ◌>>=◌, pure, throw_sys, call_open, eventfd}
use shm_ipc.Fd.Leaks.{call_open-Opens}
use shm_ipc.Wakeup.{WakeupFd, Answer, bytes, interrupted, again, failed, close}

abbrev pub same_end : Option ℕ → Sys (ℕ × ℕ)
same_end none = throw_sys "WakeupFd::create_fd_pair() eventfd failed: "
same_end (some fd) = pure (fd, fd)

unfoldable pub create_event_fd : Sys (ℕ × ℕ)
create_event_fd = call_open eventfd >>= same_end

-- `fd_set_close_on_exec` succeeds if `marked`.
unfoldable pub open_event_fd : Bool → WakeupFd → ℕ × ℕ → WakeupFd × Outcome (Unit {0})
open_event_fd marked w (first, second) =
    if first == second
    then (if marked then (record w { fd = some first }, returns tt) else (
      record w { fd = some first },
      throws (internal_error "WakeupFd::add_to_poll() fd_set_close_on_exec() failed: "),
    ))
    else (
      w,
      throws
          (internal_error "WakeupFd::add_to_poll() eventfd should have the same fd for both ends"),
    )

-- One answer of `write` that is not an interruption, and one of `read`.
abbrev pub written : ℕ → Outcome (Unit {0})
written n =
    if n == 8
    then returns tt
    else if n == 0
    then throws (internal_error "WakeupFd::send_signal() write returned 0: ")
    else throws (internal_error "WakeupFd::send_signal() write returned unexpected value: ")

unfoldable pub send_event_loop : List Answer → Option (Outcome (Unit {0}))
send_event_loop [] = none
send_event_loop (bytes n ∷ rest) = some (written n)
send_event_loop (interrupted ∷ rest) = send_event_loop rest
send_event_loop (again ∷ rest) = some (returns tt)
send_event_loop (failed ∷ rest) =
    some (throws (internal_error "WakeupFd::send_signal() write failed: "))

unfoldable pub send_interrupt_event : List Answer → WakeupFd → Option (Outcome (Unit {0}))
send_interrupt_event answers w = elim w.fd [
  | none ↦ some (returns tt)
  | some n ↦ send_event_loop answers
]

-- `close` behind the end of the stream, and the flag for the end of the process.
abbrev pub ended : WakeupFd × Outcome (Unit {0}) → WakeupFd × Outcome (Unit {0}) × Bool
ended (w, throws e) = (w, throws e, false)
ended (w, returns _) = (w, returns tt, true)

abbrev pub read_answer : Outcome (Unit {0}) → ℕ → WakeupFd → WakeupFd × Outcome (Unit {0}) × Bool
read_answer removed n w =
    if n == 8 then (w, returns tt, false) else if n == 0 then ended (close removed w) else (
      w,
      throws (internal_error "WakeupFd::event_read() read returned unexpected value: "),
      false,
    )

unfoldable pub read_event :
    Outcome (Unit {0}) → List Answer → WakeupFd → Option (WakeupFd × Outcome (Unit {0}) × Bool)
read_event removed [] w = none
read_event removed (bytes n ∷ rest) w = some (read_answer removed n w)
read_event removed (interrupted ∷ rest) w = read_event removed rest w
read_event removed (again ∷ rest) w = some (w, returns tt, false)
read_event removed (failed ∷ rest) w =
    some (w, throws (internal_error "WakeupFd::event_read() read failed: "), false)

same_end-ends :
    (r : Option ℕ) (os : Os) (fds : ℕ × ℕ) → (same_end r os).1 ≡ returns fds → fds.0 ≡ fds.1
same_end-ends none os fds e = ground arith
same_end-ends (some fd) os (a, b) e = ground arith

create_event_fd-ends :
    (os : Os) (fds : ℕ × ℕ) → (create_event_fd os).1 ≡ returns fds → fds.0 ≡ fds.1
unfolding create_event_fd
create_event_fd-ends os fds e =
    let (os', r, same, _) = call_open-Opens eventfd os in same_end-ends r os' fds (rw same at e)

-- The parent and the child that open what create_fd_pair has made, whatever the system answers, hold
-- one and the same descriptor, and neither of them closes one.
pub open_event_fd-shared :
    (os : Os) (fds : ℕ × ℕ) (parent child : WakeupFd)
    → (create_event_fd os).1 ≡ returns fds
    → let p = open_event_fd true parent fds in
      let c = open_event_fd true child fds in
      (p.1 ≡ returns tt)
      × (c.1 ≡ returns tt)
      × (p.0.fd ≡ c.0.fd)
      × (p.0.closed ≡ parent.closed)
      × (c.0.closed ≡ child.closed)
unfolding open_event_fd
open_event_fd-shared os fds parent child e =
    rw (==_true fds.0 fds.1 (create_event_fd-ends os fds e)) (refl, refl, refl, refl, refl)
