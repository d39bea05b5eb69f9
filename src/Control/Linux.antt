-- ===== src/Control/Linux.antt =====
-- `ControlFd::event_read` of torrent/system/ipc/control_fd.cc with the code under `#ifdef __linux__`: the
-- socket does not block, and where it has nothing yet in the middle of a part, `read_fn` sleeps and
-- tries again.
use shm_ipc.Base.{
  ℕ, zero, suc, ◌+◌, ◌-◌, ◌*◌, ◌/◌, ◌%◌, ◌^◌, ◌≤◌, ◌≡◌, refl, Bool, true, false, Option, none, some,
  List, [], ◌∷◌, ◌++◌, length, arith, if◌then◌else◌, ltb, ltb-false,
}
use shm_ipc.Base.Outcome.{Outcome, returns}
use shm_ipc.Control.{
  Recv, got, recv_interrupted, recv_again, recv_failed, Slot, closed, ReadResult, complete, stopped,
  waiting, behind, dispatch, max_message_size, size_of_header,
}
use shm_ipc.Control.Receive.{rest_size}

unfoldable pub read_fn_linux : List Recv → ℕ → Bool → ReadResult
read_fn_linux answers zero started = complete [] answers
read_fn_linux [] (suc n) started = waiting
read_fn_linux (got [] ∷ rest) (suc n) started = stopped (some (closed "EPIPE")) rest
read_fn_linux (got (b ∷ bs) ∷ rest) (suc n) started =
    behind (b ∷ bs) (read_fn_linux rest (suc n - length (b ∷ bs)) true)
read_fn_linux (recv_interrupted ∷ rest) (suc n) started = read_fn_linux rest (suc n) started
read_fn_linux (recv_again ∷ rest) (suc n) false = stopped none rest
read_fn_linux (recv_again ∷ rest) (suc n) true = read_fn_linux rest (suc n) true
read_fn_linux (recv_failed errno ∷ rest) (suc n) started = stopped (some (closed errno)) rest

unfoldable pub read_payload_linux : ℕ → List Recv → Option (Outcome (Option Slot) × List Recv)
read_payload_linux message_size answers =
    if ltb max_message_size message_size
    then some (returns (some (closed "EIO")), answers)
    else elim (read_fn_linux answers message_size false) [
      | waiting ↦ none
      | stopped slot rest ↦ some (returns slot, rest)
      | complete buffer rest ↦ some (dispatch buffer, rest)
    ]

unfoldable pub event_read_linux : List Recv → Option (Outcome (Option Slot) × List Recv)
event_read_linux answers = elim (read_fn_linux answers 2 false) [
  | waiting ↦ none
  | stopped slot rest ↦ some (returns slot, rest)
  | complete header rest ↦ read_payload_linux (size_of_header header) rest
]

-- Answers that hand over some bytes in pieces, with interruptions, and with nothing to read yet any
-- number of times once the first piece is there.
pub data Trickles (rest : List Recv) : Bool → List Recv → List ℕ → Type 0 where
  finished : (started : Bool) → Trickles rest started rest []
  interrupted :
      {started : Bool} {later : List Recv} {b : ℕ} {bs : List ℕ}
      → Trickles rest started later (b ∷ bs)
      → Trickles rest started (recv_interrupted ∷ later) (b ∷ bs)
  not_yet :
      {later : List Recv} {b : ℕ} {bs : List ℕ}
      → Trickles rest true later (b ∷ bs)
      → Trickles rest true (recv_again ∷ later) (b ∷ bs)
  piece :
      {later : List Recv} {more : List ℕ} (started : Bool) (c : ℕ) (chunk : List ℕ)
      → Trickles rest true later more
      → Trickles rest started (got (c ∷ chunk) ∷ later) ((c ∷ chunk) ++ more)

read_fn_linux-Trickles :
    {rest : List Recv} {started : Bool} {answers : List Recv} {bytes : List ℕ}
    → Trickles rest started answers bytes
    → read_fn_linux answers (length bytes) started ≡ complete bytes rest
unfolding read_fn_linux
read_fn_linux-Trickles (finished started) = refl
read_fn_linux-Trickles (interrupted d) = read_fn_linux-Trickles d
read_fn_linux-Trickles (not_yet d) = read_fn_linux-Trickles d
read_fn_linux-Trickles (piece {more = more} started c chunk d) =
    rw (rest_size chunk more, read_fn_linux-Trickles d) refl

-- On Linux, a message of at most 1024 bytes whose size and bytes trickle in, each from its first piece
-- on, is read as a whole, and nothing behind it.
pub event_read_linux-frame :
    {answers after rest : List Recv} (msg : List ℕ)
    → length msg ≤ max_message_size
    → Trickles after false answers ((length msg / 2 ^ 8 % 2 ^ 8) ∷ (length msg % 2 ^ 8) ∷ [])
    → Trickles rest false after msg
    → event_read_linux answers ≡ some (dispatch msg, rest)
unfolding event_read_linux read_payload_linux
event_read_linux-frame msg small d e =
    let size : length msg / 2 ^ 8 % 2 ^ 8 * 2 ^ 8 + length msg % 2 ^ 8 ≡ length msg = omega arith in
    rw
      (
        read_fn_linux-Trickles d,
        event_read_linux,
        size,
        ltb-false max_message_size (length msg) small,
        read_payload_linux,
        read_fn_linux-Trickles e,
      )
      refl

-- There too, a message of which only the size has come loses it: event_read calls no slot, and takes
-- what comes next for a size.
pub event_read_linux-loses-size :
    {answers after : List Recv} (m : ℕ) (ms : List ℕ)
    → suc (length ms) ≤ max_message_size
    → Trickles
        (recv_again ∷ after)
        false
        answers
        ((suc (length ms) / 2 ^ 8 % 2 ^ 8) ∷ (suc (length ms) % 2 ^ 8) ∷ [])
    → event_read_linux answers ≡ some (returns none, after)
unfolding event_read_linux read_payload_linux read_fn_linux
event_read_linux-loses-size m ms small d =
    let size : suc (length ms) / 2 ^ 8 % 2 ^ 8 * 2 ^ 8 + suc (length ms) % 2 ^ 8 ≡ suc (length ms) =
      omega arith in
    rw
      (
        read_fn_linux-Trickles d,
        event_read_linux,
        size,
        ltb-false max_message_size (suc (length ms)) small,
        read_payload_linux,
      )
      refl
