-- ===== src/Wakeup.antt =====
-- torrent/system/ipc/wakeup_fd.h and wakeup_fd.cc, built without USE_EVENT_FD: one byte on a pair of
-- sockets wakes the other process. Wakeup/EventFd has the build with it. What `read` and `write`
-- answer, call by call, is a list, and the calls of `fd_close`, `fd_set_close_on_exec` and the poll are
-- parameters or values. An exception's text is without its variable part.
pub mod Interrupt
pub mod EventFd
mod Tests
use shm_ipc.Base.{
  ℕ, zero, suc, Bool, true, false, not, ◌==◌, if◌then◌else◌, Option, none, some, List, [], ◌∷◌,
  String,
}
use shm_ipc.Base.Outcome.{Outcome, returns, throws, internal_error}

-- One answer of `read` or `write` for one byte: how many bytes, or an error.
pub data Answer : Type 0 where
  bytes : ℕ → Answer
  interrupted : Answer
  again : Answer
  failed : Answer

-- `m_fileDesc`, `none` for -1, and whether `m_poll_event` is set; `closed` has the descriptors that
-- were handed to `fd_close`.
pub record WakeupFd : Type 0 where
  pub fd : Option ℕ
  pub polling : Bool
  pub closed : List ℕ

-- The descriptors of the two ends; `fd_set_close_on_exec` succeeds if `marked`.
unfoldable pub open_pair : Bool → WakeupFd → ℕ × ℕ → Bool → WakeupFd × Outcome (Unit {0})
open_pair marked w (first, second) is_parent =
    let w' : WakeupFd =
      if is_parent
      then record w { fd = some first; closed = second ∷ w.closed }
      else record w { fd = some second; closed = first ∷ w.closed } in
    if marked
    then (w', returns tt)
    else (w', throws (internal_error "WakeupFd::add_to_poll() fd_set_close_on_exec() failed: "))

-- `removed` is what `remove_and_close` of the poll does.
unfoldable pub close : Outcome (Unit {0}) → WakeupFd → WakeupFd × Outcome (Unit {0})
close removed w = elim w.fd [
  | none ↦ (w, returns tt)
  | some n ↦
      if w.polling
      then elim removed [
        | throws e ↦ (w, throws e)
        | returns _ ↦ (record { fd = none; polling = false; closed = n ∷ w.closed }, returns tt)
      ]
      else (record w { fd = none; closed = n ∷ w.closed }, returns tt)
]

-- The loop of `send_interrupt`; `none` means that the answers ran out.
unfoldable pub send_loop : List Answer → Option (Outcome (Unit {0}))
send_loop [] = none
send_loop (bytes zero ∷ rest) =
    some (throws (internal_error "WakeupFd::send_signal() write returned 0: "))
send_loop (bytes (suc zero) ∷ rest) = some (returns tt)
send_loop (bytes (suc (suc n)) ∷ rest) =
    some (throws (internal_error "WakeupFd::send_signal() write returned unexpected value: "))
send_loop (interrupted ∷ rest) = send_loop rest
send_loop (again ∷ rest) = some (returns tt)
send_loop (failed ∷ rest) = some (throws (internal_error "WakeupFd::send_signal() write failed: "))

unfoldable pub send_interrupt : List Answer → WakeupFd → Option (Outcome (Unit {0}))
send_interrupt answers w = elim w.fd [ none ↦ some (returns tt) | some n ↦ send_loop answers ]

-- At the end of the stream it closes itself and then waits in the destructor of the future, for a task
-- that ends the process after five seconds: the flag says whether it does.
unfoldable pub event_read :
    Outcome (Unit {0}) → List Answer → WakeupFd → Option (WakeupFd × Outcome (Unit {0}) × Bool)
event_read removed [] w = none
event_read removed (bytes zero ∷ rest) w =
    let (w', result) = close removed w in
    elim result [ throws e ↦ some (w', throws e, false) | returns _ ↦ some (w', returns tt, true) ]
event_read removed (bytes (suc zero) ∷ rest) w = some (w, returns tt, false)
event_read removed (bytes (suc (suc n)) ∷ rest) w =
    some
      (w, throws (internal_error "WakeupFd::event_read() read returned unexpected value: "), false)
event_read removed (interrupted ∷ rest) w = event_read removed rest w
event_read removed (again ∷ rest) w = some (w, returns tt, false)
event_read removed (failed ∷ rest) w =
    some (w, throws (internal_error "WakeupFd::event_read() read failed: "), false)

unfoldable pub event_write : Outcome (Unit {0})
event_write =
    throws (internal_error "WakeupFd::event_write() called but WakeupFd does not support writing.")

unfoldable pub event_error : Outcome (Unit {0})
event_error =
    throws
      (internal_error "WakeupFd::event_error() called but WakeupFd does not support error events.")
