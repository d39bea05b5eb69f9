-- ===== src/Demo/Loop.antt =====
-- `parent_process` of parent.cc and `child_process` of child.cc: one turn of the loop, the loop, and
-- what stands around it. What the system does in a turn is given; `none` means that the reads of the
-- router, or the answers of `send`, did not come to an end. Output and `sleep_for` are left out.
use shm_ipc.Base.{
  ℕ, Bool, true, false, Option, none, some, List, [], ◌∷◌, ◌++◌, length, ltb, if◌then◌else◌,
}
use shm_ipc.Base.Outcome.{Outcome, returns, throws, Exception}
use shm_ipc.Event.{is_open}
use shm_ipc.Channel.{WriteResult, wrote, again}
use shm_ipc.Control.{Sent, send_shutdown_message}
use shm_ipc.Poll.{Change, Poll}
use shm_ipc.Poll.Process.{Handlers, process}
use shm_ipc.Poll.Waiting.{Timespec, Waited, PollingState, do_poll}
use shm_ipc.Thread.{has_any_callbacks}
use shm_ipc.Router.{Router, write}
use shm_ipc.Router.Reading.{
  Delivery, Invoke, Round, process_reads_pre_polling, process_reads_post_polling,
}
use shm_ipc.Router.Fds.{Fds, open_fds, close_fds}
use shm_ipc.Shutdown.{
  Globals, handle_control_closed, handle_control_shutdown, Verdict, announces, leaves,
  leaves_forcefully, goes_on, Loop, is_due, sent_at, skipped, parent_target, child_target,
  parent_interval, child_interval, poll_timeout,
}
use shm_ipc.Shutdown.Protocol.{Who, parent, child, Note, shutdown, closed, verdict}
use shm_ipc.Demo.{ChildHandler, child_invoke, child_calls, parent_invoke, open_channels, open_child}

-- The variables of the function, the global flags, and what it works on. For the parent, the vector of
-- `handler` has the ids of handler_1 and handler_2. `outgoing` are the bytes that `send` has taken on the
-- control descriptor, from the start of the loop on.
pub record Process : Type 0 where
  pub globals : Globals
  pub shutdown_timestamp : Option ℕ
  pub loop : Loop
  pub handler : ChildHandler
  pub router : Router
  pub poll : Poll
  pub fds : Fds
  pub outgoing : List ℕ

-- What the system does in a turn: the times that the clock gives, one behind the other; the answers
-- of `send` and of the poll; the fuel of the reads; and the messages that the handlers of the control
-- descriptor read.
pub record Env : Type 0 where
  pub now : ℕ
  pub now_due : ℕ
  pub now_written : ℕ
  pub now_timeout : ℕ
  pub sends : List Sent
  pub interrupt : Outcome (Unit {0})
  pub fuel : ℕ
  pub kevent : List Change → Timespec → Waited
  pub handlers : Handlers
  pub polling : PollingState
  pub notes : List Note

abbrev pub M : Type 0 → Type 0
M A = Process → Option (Process × Outcome A)

infixl 5 ◌>>=◌ ◌>>◌
abbrev pub ◌>>=◌ : {A B : Type 0} → M A → (A → M B) → M B
◌>>=◌ m f p = elim (m p) [
  | none ↦ none
  | some (p', throws e) ↦ some (p', throws e)
  | some (p', returns a) ↦ f a p'
]

abbrev pub ◌>>◌ : {A B : Type 0} → M A → M B → M B
m >> k = m >>= λ _. k

abbrev pub pure : {A : Type 0} → A → M A
pure a p = some (p, returns a)

-- `is_open` of the ControlFd.
abbrev pub control_is_open : Process → Bool
control_is_open p = is_open (p.poll.events p.fds.control_fd)

unfoldable pub send_shutdown : List Sent → Bool → M (Unit {0})
send_shutdown sends graceful p = elim (send_shutdown_message sends (control_is_open p) graceful) [
  | none ↦ none
  | some (result, bytes) ↦ some (record p { outgoing = p.outgoing ++ bytes }, result)
]

abbrev pub target : Who → List ℕ → ℕ → Option ℕ
target parent = parent_target
target child = child_target

abbrev pub interval : Who → ℕ
interval parent = parent_interval
interval child = child_interval

-- "Hello from PARENT process!" and "Hello from CHILD process!"
abbrev pub text : Who → List ℕ
text parent =
    b'H' ∷ b'e' ∷ b'l' ∷ b'l' ∷ b'o' ∷ b' ' ∷ b'f' ∷ b'r' ∷ b'o' ∷ b'm' ∷ b' ' ∷ b'P' ∷ b'A' ∷ b'R'
    ∷ b'E' ∷ b'N' ∷ b'T' ∷ b' ' ∷ b'p' ∷ b'r' ∷ b'o' ∷ b'c' ∷ b'e' ∷ b's' ∷ b's' ∷ b'!' ∷ []
text child =
    b'H' ∷ b'e' ∷ b'l' ∷ b'l' ∷ b'o' ∷ b' ' ∷ b'f' ∷ b'r' ∷ b'o' ∷ b'm' ∷ b' ' ∷ b'C' ∷ b'H' ∷ b'I'
    ∷ b'L' ∷ b'D' ∷ b' ' ∷ b'p' ∷ b'r' ∷ b'o' ∷ b'c' ∷ b'e' ∷ b's' ∷ b's' ∷ b'!' ∷ []

-- A write that is refused is tried again with the same `i`.
abbrev pub behind_write :
    Env → Process → Router × Outcome WriteResult × Bool → Option (Process × Outcome (Unit {0}))
behind_write env p (r, throws e, woken) = some (record p { router = r }, throws e)
behind_write env p (r, returns again, woken) = some (record p { router = r }, returns tt)
behind_write env p (r, returns (wrote n), woken) =
    some (record p { router = r; loop = sent_at p.loop env.now_written }, returns tt)

unfoldable pub message : Who → Env → M (Unit {0})
message w env p =
    if is_due (interval w) p.loop env.now_due
    then elim (target w p.handler.channels p.loop.i) [
      | none ↦ some (record p { loop = sent_at p.loop env.now_written }, returns tt)
      | some id ↦
          behind_write env p (write env.interrupt p.router id (length (text w)) (some (text w)))
    ]
    else some (record p { loop = skipped p.loop }, returns tt)

abbrev pub invoke : Who → Process → Invoke
invoke parent p = parent_invoke
invoke child p = child_invoke p.handler

-- What the calls of a read leave of the handler.
abbrev pub called : Who → Router → List Delivery → ChildHandler → ChildHandler
called parent r calls h = h
called child r calls h = child_calls r calls h

unfoldable pub reads : Who → (Invoke → Router → Option Round) → M (Unit {0})
reads w f p = elim (f (invoke w p) p.router) [
  | none ↦ none
  | some (r, result, calls) ↦
      some (record p { router = r; handler = called w r calls p.handler }, result)
]

abbrev pub hear : Note → Globals → Globals
hear (shutdown graceful) g = handle_control_shutdown g graceful
hear closed g = handle_control_closed g

abbrev pub hear_all : List Note → Globals → Globals
hear_all [] g = g
hear_all (n ∷ ns) g = hear_all ns (hear n g)

unfoldable pub poll_events : Who → Env → M ℕ
poll_events w env p =
    let (poll', result) =
      do_poll env.kevent env.handlers has_any_callbacks env.polling p.poll
        (poll_timeout (interval w) p.loop env.now_timeout) in
    some (record p { poll = poll'; globals = hear_all env.notes p.globals }, result)

-- The second `process` finds nothing that waits.
unfoldable pub process_again : Env → ℕ → M (Unit {0})
process_again env count p =
    if ltb 0 count
    then (let (poll', result) = process env.handlers p.poll [] in
        some
          (record p { poll = poll' }, elim result [ throws e ↦ throws e | returns _ ↦ returns tt ]))
    else some (p, returns tt)

-- The rest of a turn that goes on.
unfoldable pub go_on : Who → Env → M Bool
go_on w env = do
  message w env
  reads w (process_reads_pre_polling env.fuel)
  count ← poll_events w env
  reads w (process_reads_post_polling env.fuel)
  process_again env count
  pure false

abbrev pub stamp : ℕ → M (Unit {0})
stamp now p = some (record p { shutdown_timestamp = some now; loop = skipped p.loop }, returns tt)

abbrev pub act : Who → Env → Verdict → M Bool
act w env leaves = pure true
act w env announces = do stamp env.now; send_shutdown env.sends true; pure false
act w env leaves_forcefully = do send_shutdown env.sends false; pure true
act w env goes_on = go_on w env

-- One turn: whether it leaves the loop.
unfoldable pub turn : Who → Env → M Bool
turn w env p = act w env (verdict w p.globals p.shutdown_timestamp env.now) p

-- Where some turns lead.
pub data Ended : Type 0 where
  running : Process → Ended
  left : Process → Ended
  thrown : Process → Exception → Ended

unfoldable pub run : Who → List Env → Process → Option Ended
run w [] p = some (running p)
run w (env ∷ envs) p = elim (turn w env p) [
  | none ↦ none
  | some (p', throws e) ↦ some (thrown p' e)
  | some (p', returns true) ↦ some (left p')
  | some (p', returns false) ↦ run w envs p'
]

-- The end of the function and its `catch`: an exception goes on, unless another one replaces it.
abbrev pub closing :
    Process → Option Exception → Poll × Outcome (Unit {0}) → Process × Outcome (Unit {0})
closing p held (poll', throws e) = (record p { poll = poll' }, throws e)
closing p none (poll', returns _) = (record p { poll = poll' }, returns tt)
closing p (some e) (poll', returns _) = (record p { poll = poll' }, throws e)

-- A process that is still in its loop, or the end of its function.
pub data Exit : Type 0 where
  still : Process → Exit
  exits : Process × Outcome (Unit {0}) → Exit

abbrev pub finish : (List Change → Bool) → Outcome (Unit {0}) → Option Ended → Option Exit
finish kevent fd_closed none = none
finish kevent fd_closed (some (running p)) = some (still p)
finish kevent fd_closed (some (left p)) =
    some (exits (closing p none (close_fds kevent fd_closed p.poll p.fds)))
finish kevent fd_closed (some (thrown p e)) =
    some (exits (closing p (some e) (close_fds kevent fd_closed p.poll p.fds)))

-- The `try` behind `open_fds`, which stands in front of it.
abbrev pub run_open :
    Who
    → (List Change → Bool)
    → Outcome (Unit {0})
    → List Env
    → Process
    → Poll × Outcome (Unit {0})
    → Option Exit
run_open w kevent fd_closed envs p (poll', throws e) =
    some (exits (record p { poll = poll' }, throws e))
run_open w kevent fd_closed envs p (poll', returns _) =
    finish kevent fd_closed (run w envs (record p { poll = poll' }))

abbrev pub with_handler : Process → Router → List ℕ → Process
with_handler p r channels = record p {
  router = r;
  handler = record { id = 1; channels = channels };
}

unfoldable pub parent_process :
    (List Change → Bool)
    → Outcome (Unit {0})
    → Outcome (Unit {0})
    → List Env
    → Process
    → Option Exit
parent_process kevent fd_closed interrupt envs p = elim (open_channels interrupt p.router) [
  | none ↦ none
  | some (r, throws e) ↦ some (exits (record p { router = r }, throws e))
  | some (r, returns (id_1, id_2)) ↦
      let p' : Process = with_handler p r (id_1 ∷ id_2 ∷ []) in
      run_open parent kevent fd_closed envs p' (open_fds kevent p'.poll p'.fds)
]

unfoldable pub child_process :
    (List Change → Bool) → Outcome (Unit {0}) → List Env → Process → Option Exit
child_process kevent fd_closed envs p =
    let (r, result) = open_child p.router in
    elim result [
      | throws e ↦ some (exits (record p { router = r }, throws e))
      | returns _ ↦
          let p' : Process = with_handler p r [] in
          run_open child kevent fd_closed envs p' (open_fds kevent p'.poll p'.fds)
    ]
