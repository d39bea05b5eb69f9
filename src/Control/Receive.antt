-- ===== src/Control/Receive.antt =====
-- `ControlFd::event_read` of torrent/system/ipc/control_fd.cc on messages that arrive in pieces.
use shm_ipc.Base.{
  ℕ, suc, ◌+◌, ◌-◌, ◌*◌, ◌/◌, ◌%◌, ◌^◌, ◌≤◌, ◌<◌, ◌≡◌, refl, Bool, true, false, none, some, List,
  [], ◌∷◌, ◌++◌, length, length-append, arith, if◌then◌else◌, ltb-false,
}
use shm_ipc.Base.Outcome.{returns}
use shm_ipc.Net.ByteOrder.{equal}
use shm_ipc.Control.{
  Recv, got, recv_interrupted, recv_again, shutdown, complete, read_fn, read_payload, event_read,
  dispatch, max_message_size, shutdown_prefix, graceful_text, forceful_text,
}

-- Answers that hand over some bytes, in pieces of any size and with interruptions, and then leave
-- `rest`.
pub data Delivers (rest : List Recv) : List Recv → List ℕ → Type 0 where
  finished : Delivers rest rest []
  interrupted :
      {later : List Recv} {b : ℕ} {bs : List ℕ}
      → Delivers rest later (b ∷ bs)
      → Delivers rest (recv_interrupted ∷ later) (b ∷ bs)
  piece :
      {later : List Recv} {more : List ℕ} (c : ℕ) (chunk : List ℕ)
      → Delivers rest later more
      → Delivers rest (got (c ∷ chunk) ∷ later) ((c ∷ chunk) ++ more)

pub rest_size : (xs ys : List ℕ) → suc (length (xs ++ ys)) - suc (length xs) ≡ length ys
rest_size xs ys = omega (arith, length-append xs ys)

-- `read_fn` puts the pieces together.
pub read_fn-Delivers :
    {rest : List Recv} {answers : List Recv} {bytes : List ℕ} (started : Bool)
    → Delivers rest answers bytes
    → read_fn answers (length bytes) started ≡ complete bytes rest
unfolding read_fn
read_fn-Delivers {rest = rest} started finished = refl
read_fn-Delivers started (interrupted d) = read_fn-Delivers started d
read_fn-Delivers started (piece {more = more} c chunk d) =
    rw (rest_size chunk more, read_fn-Delivers true d) refl

-- A message of at most 1024 bytes that arrives in pieces, its size and its bytes each cut up in any
-- way and with interruptions, is read as a whole, and nothing behind it.
pub event_read-frame :
    {answers after rest : List Recv} (msg : List ℕ)
    → length msg ≤ max_message_size
    → Delivers after answers ((length msg / 2 ^ 8 % 2 ^ 8) ∷ (length msg % 2 ^ 8) ∷ [])
    → Delivers rest after msg
    → event_read answers ≡ some (dispatch msg, rest)
unfolding event_read read_payload
event_read-frame msg small d e =
    let size : length msg / 2 ^ 8 % 2 ^ 8 * 2 ^ 8 + length msg % 2 ^ 8 ≡ length msg = omega arith in
    rw
      (
        read_fn-Delivers false d,
        event_read,
        size,
        ltb-false max_message_size (length msg) small,
        read_payload,
        read_fn-Delivers false e,
      )
      refl

-- Each shutdown message is read as that shutdown, however it is cut up.
pub event_read-shutdown :
    {answers after rest : List Recv} (graceful : Bool)
    → let msg = shutdown_prefix ++ (if graceful then graceful_text else forceful_text) in
      Delivers after answers (0 ∷ 17 ∷ [])
      → Delivers rest after msg
      → event_read answers ≡ some (returns (some (shutdown graceful)), rest)
unfolding dispatch equal
event_read-shutdown true d e = event_read-frame (shutdown_prefix ++ graceful_text) (omega arith) d e
event_read-shutdown false d e =
    event_read-frame (shutdown_prefix ++ forceful_text) (omega arith) d e

-- A time-out between a message's size and its bytes loses the size: `event_read` returns with no
-- slot called, and leaves what comes behind the time-out, without its size, to the next call.
pub event_read-loses-size :
    {answers after : List Recv} (msg : List ℕ)
    → 0 < length msg
    → length msg ≤ max_message_size
    → Delivers
        (recv_again ∷ after)
        answers
        ((length msg / 2 ^ 8 % 2 ^ 8) ∷ (length msg % 2 ^ 8) ∷ [])
    → event_read answers ≡ some (returns none, after)
unfolding event_read read_payload read_fn
event_read-loses-size [] pos small d = absurd (omega arith)
event_read-loses-size (m ∷ ms) pos small d =
    let size : length (m ∷ ms) / 2 ^ 8 % 2 ^ 8 * 2 ^ 8 + length (m ∷ ms) % 2 ^ 8 ≡ suc (length ms) =
      omega arith in
    rw
      (
        read_fn-Delivers false d,
        event_read,
        size,
        ltb-false max_message_size (length (m ∷ ms)) small,
        read_payload,
      )
      refl
