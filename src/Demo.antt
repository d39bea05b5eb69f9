-- ===== src/Demo.antt =====
-- parent.cc, child.cc and main.cc: the handlers of the two processes, and the channels that they
-- open. A `std::function` is a number that names it; a TestHandler is one that prints what it reads.
pub mod Announce
pub mod Handshake
pub mod Arrival
pub mod Loop
pub mod Wire
pub mod Refine
pub mod Moves
pub mod Simulate
pub mod Both
pub mod Behind
pub mod Turning
pub mod Ending
pub mod Linked
pub mod Emptied
pub mod Main
pub mod Signals
pub mod Startup
mod Tests
use shm_ipc.Base.{
  ℕ, ◌+◌, ◌*◌, ◌%◌, ◌==◌, Bool, not, if◌then◌else◌, length, Option, none, some, List, [], ◌∷◌, ◌++◌,
}
use shm_ipc.Base.Outcome.{Outcome, returns, throws, runtime_error}
use shm_ipc.Memory.{load32, write_bytes, bytes32}
use shm_ipc.Channel.{WriteResult, wrote, again}
use shm_ipc.Router.{Router, register_handler_at, register_handler, write}
use shm_ipc.Router.Reading.{Delivery, Invoke}

-- The functions of the handler with id 1, a ParentHandler or a ChildHandler, and those of the
-- TestHandler `k`.
abbrev pub own_read : ℕ
own_read = 0

abbrev pub own_error : ℕ
own_error = 1

abbrev pub test_read : ℕ → ℕ
test_read k = 2 * k + 2

abbrev pub test_error : ℕ → ℕ
test_error k = 2 * k + 3

abbrev pub parent_on_read : List ℕ → Outcome (Unit {0})
parent_on_read [] = throws (runtime_error "PARENT:HANDLER: received close message")
parent_on_read (b ∷ bytes) = throws (runtime_error "PARENT:HANDLER: throwing error as test")

abbrev pub parent_on_error : List ℕ → Outcome (Unit {0})
parent_on_error bytes = throws (runtime_error "PARENT:HANDLER: throwing error as test")

-- A TestHandler only prints.
abbrev pub test_on_read : List ℕ → Outcome (Unit {0})
test_on_read bytes = returns tt

abbrev pub test_on_error : List ℕ → Outcome (Unit {0})
test_on_error bytes = returns tt

abbrev pub is_test_read : ℕ → Bool
is_test_read f = f % 2 == 0

-- The call of a function of a TestHandler.
abbrev pub test_call : Delivery → Outcome (Unit {0})
test_call d = if is_test_read d.handler then test_on_read d.payload else test_on_error d.payload

-- What the functions of the parent do.
unfoldable pub parent_invoke : Invoke
parent_invoke d r =
    if d.handler == own_read
    then (r, parent_on_read d.payload)
    else if d.handler == own_error
    then (r, parent_on_error d.payload)
    else (r, test_call d)

-- The bytes of a NewChannelMessage, and the id that is read from such bytes.
abbrev pub new_channel_message : ℕ → List ℕ
new_channel_message id = bytes32 id

unfoldable pub message_id : List ℕ → ℕ
message_id bytes = load32 (write_bytes (λ _. 0) 0 bytes) 0

-- `channels` are the ids of the TestHandlers in the vector.
pub record ChildHandler : Type 0 where
  pub id : ℕ
  pub channels : List ℕ

-- A TestHandler of the child is named by its id.
unfoldable pub child_on_read :
    ChildHandler → List ℕ → Router → ChildHandler × Router × Outcome (Unit {0})
child_on_read h bytes r =
    if length bytes == 0
    then (h, r, returns tt)
    else if not (length bytes == 4)
    then (
      h,
      r,
      throws (
          runtime_error
            "CHILD:HANDLER: received message with invalid size for new channel message"),
    )
    else (let id = message_id bytes in
        let (r', result) = register_handler_at r id (some (test_read id)) (some (test_error id)) in
        (record h { channels = h.channels ++ id ∷ [] }, r', result))

abbrev pub child_on_error : List ℕ → Outcome (Unit {0})
child_on_error bytes = throws (runtime_error "CHILD:HANDLER throwing error as test")

-- What the functions of the child do to its router, which the vector of channels has no part in.
unfoldable pub child_invoke : ChildHandler → Invoke
unfolding child_on_read
child_invoke h d r =
    if d.handler == own_read
    then (let (h', r', result) = child_on_read h d.payload r in (r', result))
    else if d.handler == own_error
    then (r, child_on_error d.payload)
    else (r, test_call d)

-- What those calls do to the ChildHandler, to which the router has no part.
unfoldable pub child_calls : Router → List Delivery → ChildHandler → ChildHandler
child_calls r [] h = h
child_calls r (d ∷ ds) h =
    child_calls r ds (if d.handler == own_read then (child_on_read h d.payload r).0 else h)

-- The write of `create_new_channel`: `id` is the ParentHandler's.
abbrev pub announced : ℕ → Router × Outcome WriteResult × Bool → Router × Outcome ℕ
announced new_id (r, throws e, woken) = (r, throws e)
announced new_id (r, returns again, woken) =
    (r, throws (runtime_error "PARENT:HANDLER: failed to send new channel message"))
announced new_id (r, returns (wrote n), woken) =
    if n == 4
    then (r, returns new_id)
    else (r, throws (runtime_error "PARENT:HANDLER: failed to send new channel message"))

-- The new TestHandler is `k`; its id is the result. `none` means that the search for an id ran out of
-- fuel.
unfoldable pub create_new_channel :
    Outcome (Unit {0}) → Router → ℕ → ℕ → Option (Router × Outcome ℕ)
create_new_channel interrupt r id k =
    elim (register_handler r (some (test_read k)) (some (test_error k))) [
      | none ↦ none
      | some (r', throws e) ↦ some (r', throws e)
      | some (r', returns new_id) ↦
          some (announced new_id (write interrupt r' id 4 (some (new_channel_message new_id))))
    ]

-- The handlers of `parent_process`: its own, and two TestHandlers.
unfoldable pub open_channels : Outcome (Unit {0}) → Router → Option (Router × Outcome (ℕ × ℕ))
open_channels interrupt r =
    let (r0, own) = register_handler_at r 1 (some own_read) (some own_error) in
    elim own [
      | throws e ↦ some (r0, throws e)
      | returns _ ↦ elim (create_new_channel interrupt r0 1 1) [
        | none ↦ none
        | some (r1, throws e) ↦ some (r1, throws e)
        | some (r1, returns id_1) ↦ elim (create_new_channel interrupt r1 1 2) [
          | none ↦ none
          | some (r2, throws e) ↦ some (r2, throws e)
          | some (r2, returns id_2) ↦ some (r2, returns (id_1, id_2))
        ]
      ]
    ]

-- The handler of `child_process`.
unfoldable pub open_child : Router → Router × Outcome (Unit {0})
open_child r = register_handler_at r 1 (some own_read) (some own_error)
