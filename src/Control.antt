-- ===== src/Control.antt =====
-- torrent/system/ipc/control_fd.h and control_fd.cc: messages on a socket, a 16-bit size in network
-- order in front of each. What `recv` and `send` answer, call by call, is a list; the code under
-- `#ifdef __linux__` stands in Control/Linux. An exception's text is without its variable part, and a slot that
-- is called is a value.
pub mod Receive
pub mod Send
pub mod Life
pub mod Linux
mod Tests
use shm_ipc.Base.{
  ℕ, zero, suc, ◌+◌, ◌-◌, ◌*◌, ◌/◌, ◌%◌, ◌^◌, Bool, true, false, ◌&&◌, Option, none, some, List, [],
  ◌∷◌, ◌++◌, if◌then◌else◌, ltb, leb, ◌==◌, take, drop, length, String,
}
use shm_ipc.Base.Outcome.{Outcome, returns, throws, internal_error}
use shm_ipc.Net.ByteOrder.{equal}
use shm_ipc.Net.Address.{byte}

abbrev pub max_message_size : ℕ
max_message_size = 1024

-- One answer of `recv`: some bytes, none at the end of the stream, or an error.
pub data Recv : Type 0 where
  got : List ℕ → Recv
  recv_interrupted : Recv
  recv_again : Recv
  recv_failed : String → Recv

-- One answer of `send`: how many bytes it took, or an error.
pub data Sent : Type 0 where
  sent : ℕ → Sent
  send_interrupted : Sent
  send_again : Sent
  send_failed : Sent

-- A call of `m_slot_message`, `m_slot_closed` or `m_slot_shutdown`.
pub data Slot : Type 0 where
  message : List ℕ → Slot
  closed : String → Slot
  shutdown : Bool → Slot

-- What `read_fn` comes to: the bytes, or false with the slot that it called; and the answers that
-- are left. `waiting` means that the answers ran out.
pub data ReadResult : Type 0 where
  complete : List ℕ → List Recv → ReadResult
  stopped : Option Slot → List Recv → ReadResult
  waiting : ReadResult

abbrev pub behind : List ℕ → ReadResult → ReadResult
behind chunk (complete bytes rest) = complete (chunk ++ bytes) rest
behind chunk (stopped slot rest) = stopped slot rest
behind chunk waiting = waiting

-- `read_fn` with `remaining` bytes to go; `started` is `total_read != 0`.
unfoldable pub read_fn : List Recv → ℕ → Bool → ReadResult
read_fn answers zero started = complete [] answers
read_fn [] (suc n) started = waiting
read_fn (got [] ∷ rest) (suc n) started = stopped (some (closed "EPIPE")) rest
read_fn (got (b ∷ bs) ∷ rest) (suc n) started =
    behind (b ∷ bs) (read_fn rest (suc n - length (b ∷ bs)) true)
read_fn (recv_interrupted ∷ rest) (suc n) started = read_fn rest (suc n) started
read_fn (recv_again ∷ rest) (suc n) started =
    stopped (if started then some (closed "EIO") else none) rest
read_fn (recv_failed errno ∷ rest) (suc n) started = stopped (some (closed errno)) rest

-- "SHUTDOWN:", "GRACEFUL" and "FORCEFUL".
abbrev pub shutdown_prefix : List ℕ
shutdown_prefix = 83 ∷ 72 ∷ 85 ∷ 84 ∷ 68 ∷ 79 ∷ 87 ∷ 78 ∷ 58 ∷ []

abbrev pub graceful_text : List ℕ
graceful_text = 71 ∷ 82 ∷ 65 ∷ 67 ∷ 69 ∷ 70 ∷ 85 ∷ 76 ∷ []

abbrev pub forceful_text : List ℕ
forceful_text = 70 ∷ 79 ∷ 82 ∷ 67 ∷ 69 ∷ 70 ∷ 85 ∷ 76 ∷ []

-- The end of `event_read`: the slot for a whole message.
unfoldable pub dispatch : List ℕ → Outcome (Option Slot)
dispatch buffer =
    if leb 9 (length buffer) && equal (take 9 buffer) shutdown_prefix
    then (if (length buffer == 17) && equal (take 8 (drop 9 buffer)) graceful_text
        then returns (some (shutdown true))
        else if (length buffer == 17) && equal (take 8 (drop 9 buffer)) forceful_text
        then returns (some (shutdown false))
        else throws (internal_error "ControlFd::event_read() received invalid shutdown message: "))
    else returns (some (message buffer))

-- `ntohs` of the two bytes.
abbrev pub size_of_header : List ℕ → ℕ
size_of_header header = byte header 0 * 2 ^ 8 + byte header 1

unfoldable pub read_payload : ℕ → List Recv → Option (Outcome (Option Slot) × List Recv)
read_payload message_size answers =
    if ltb max_message_size message_size
    then some (returns (some (closed "EIO")), answers)
    else elim (read_fn answers message_size false) [
      | waiting ↦ none
      | stopped slot rest ↦ some (returns slot, rest)
      | complete buffer rest ↦ some (dispatch buffer, rest)
    ]

unfoldable pub event_read : List Recv → Option (Outcome (Option Slot) × List Recv)
event_read answers = elim (read_fn answers 2 false) [
  | waiting ↦ none
  | stopped slot rest ↦ some (returns slot, rest)
  | complete header rest ↦ read_payload (size_of_header header) rest
]

-- `send_buf`.
abbrev pub frame : List ℕ → List ℕ
frame msg = (length msg / 2 ^ 8 % 2 ^ 8) ∷ (length msg % 2 ^ 8) ∷ msg

abbrev pub also_sent :
    List ℕ → Option (Outcome (Unit {0}) × List ℕ) → Option (Outcome (Unit {0}) × List ℕ)
also_sent bytes none = none
also_sent bytes (some (result, more)) = some (result, bytes ++ more)

-- The loop of `send_message_internal` on the bytes that are left, with the bytes that `send` took.
unfoldable pub send_loop : List Sent → List ℕ → Option (Outcome (Unit {0}) × List ℕ)
send_loop answers [] = some (returns tt, [])
send_loop [] (b ∷ bs) = none
send_loop (sent n ∷ rest) (b ∷ bs) = also_sent (take n (b ∷ bs)) (send_loop rest (drop n (b ∷ bs)))
send_loop (send_interrupted ∷ rest) (b ∷ bs) = send_loop rest (b ∷ bs)
send_loop (send_again ∷ rest) (b ∷ bs) = some (
  throws (internal_error "ControlFd::send_message_internal(): timed out while sending message."),
  [],
)
send_loop (send_failed ∷ rest) (b ∷ bs) =
    some
      (throws (internal_error "ControlFd::send_message_internal(): failed to send message: "), [])

unfoldable pub send_message_internal :
    List Sent → Bool → List ℕ → Option (Outcome (Unit {0}) × List ℕ)
send_message_internal answers is_open msg =
    if is_open
    then (if ltb max_message_size (length msg)
        then some (
          throws
              (internal_error "ControlFd::send_message_internal() message size exceeds maximum: "),
          [],
        )
        else send_loop answers (frame msg))
    else some (
      throws (internal_error "ControlFd::send_message_internal() called on closed control fd."),
      [],
    )

unfoldable pub send_shutdown_message :
    List Sent → Bool → Bool → Option (Outcome (Unit {0}) × List ℕ)
send_shutdown_message answers is_open graceful =
    send_message_internal answers is_open
      (shutdown_prefix ++ (if graceful then graceful_text else forceful_text))

-- `check_is_alive`: what a peek of one byte says.
unfoldable pub check_is_alive : Recv → Bool
check_is_alive (got []) = false
check_is_alive (got (b ∷ bs)) = true
check_is_alive recv_interrupted = true
check_is_alive recv_again = true
check_is_alive (recv_failed errno) = false
