-- ===== src/Control/Life.antt =====
-- `ControlFd::wait_is_alive` of torrent/system/ipc/control_fd.cc.
use shm_ipc.Base.{ℕ, zero, suc, ◌++◌, replicate, ◌≡◌, refl, Option, none, some, List, [], ◌∷◌}
use shm_ipc.Base.Outcome.{Outcome, returns, throws, internal_error}

-- One answer of `recv` to a peek: a byte, the end, or an error by whether the loop tries again, or
-- takes it for the end.
pub data Peek : Type 0 where
  byte_waits at_end tries_again is_gone fails : Peek

-- `none` means that the answers ran out: the loop goes on.
unfoldable pub wait_is_alive : List Peek → Option (Outcome (Unit {0}))
wait_is_alive [] = none
wait_is_alive (byte_waits ∷ rest) = wait_is_alive rest
wait_is_alive (at_end ∷ rest) = some (returns tt)
wait_is_alive (tries_again ∷ rest) = wait_is_alive rest
wait_is_alive (is_gone ∷ rest) = some (returns tt)
wait_is_alive (fails ∷ rest) =
    some (throws (internal_error "ControlFd::wait_is_alive() recv() failed: "))

-- While the descriptor has bytes to read, the loop goes on without waiting: a peek takes none.
pub wait_is_alive-busy :
    (n : ℕ) (rest : List Peek) → wait_is_alive (replicate n byte_waits ++ rest) ≡ wait_is_alive rest
unfolding wait_is_alive
wait_is_alive-busy zero rest = refl
wait_is_alive-busy (suc n) rest = wait_is_alive-busy n rest
