-- ===== src/Wakeup/Interrupt.antt =====
-- What `WakeupFd` of torrent/system/ipc/wakeup_fd.cc does with its descriptors and answers.
use shm_ipc.Base.{
  ℕ, zero, suc, ◌≡◌, refl, Bool, true, false, if◌then◌else◌, none, some, List, ◌∷◌, ◌++◌, replicate,
  arith,
}
use shm_ipc.Base.Outcome.{Outcome, returns}
use shm_ipc.Wakeup.{
  WakeupFd, Answer, bytes, interrupted, again, open_pair, close, send_loop, send_interrupt,
}

send_loop-interrupted :
    (n : ℕ) (answers : List Answer)
    → send_loop (replicate n interrupted ++ answers) ≡ send_loop answers
unfolding send_loop
send_loop-interrupted zero answers = refl
send_loop-interrupted (suc n) answers = send_loop-interrupted n answers

-- `send_interrupt` never throws and comes to an end, after any number of interruptions, if the
-- socket takes the byte or is full.
pub send_interrupt-returns :
    (n : ℕ) (full : Bool) (rest : List Answer) (w : WakeupFd)
    → send_interrupt (replicate n interrupted ++ ((if full then again else bytes 1) ∷ rest)) w
      ≡ some (returns tt)
unfolding send_interrupt send_loop
send_interrupt-returns n true rest w = ground (arith, send_loop-interrupted n (again ∷ rest))
send_interrupt-returns n false rest w = ground (arith, send_loop-interrupted n (bytes 1 ∷ rest))

-- The parent and the child that open one pair keep opposite ends, and each closes the end that the
-- other keeps.
pub open_pair-ends :
    (parent child : WakeupFd) (first second : ℕ)
    → let p = (open_pair true parent (first, second) true).0 in
      let c = (open_pair true child (first, second) false).0 in
      (p.fd ≡ some first)
      × (c.fd ≡ some second)
      × (p.closed ≡ second ∷ parent.closed)
      × (c.closed ≡ first ∷ child.closed)
unfolding open_pair
open_pair-ends parent child first second = (refl, refl, refl, refl)

-- `close` hands a descriptor to `fd_close` once: a second call changes nothing and returns.
pub close-close :
    (w : WakeupFd) (removed : Outcome (Unit {0}))
    → (close (returns tt) w).1 ≡ returns tt
    → let closed_one = (close (returns tt) w).0 in
      (closed_one.fd ≡ none) × (close removed closed_one ≡ (closed_one, returns tt))
unfolding close
close-close w removed e = ground arith
