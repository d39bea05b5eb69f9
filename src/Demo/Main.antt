-- ===== src/Demo/Main.antt =====
-- main.cc: the start of both processes, the end of them, and what a fatal signal does. The answer of
-- fork is a parameter: each process goes on from the factory and the memory in front of it. The lines
-- that only print are left out, and `abort`; Demo/Signals has the calls of `signal`.
use shm_ipc.Base.{ℕ, ◌*◌, ◌≡◌, refl, ap, ◌∙◌, Option, none, some, List, [], Bool, true, false}
use shm_ipc.Base.Outcome.{Outcome, returns, throws, runtime_error}
use shm_ipc.Channel.{Channel}
use shm_ipc.Control.{Recv, got, recv_interrupted, recv_again, recv_failed}
use shm_ipc.Factory.{RouterFactory, CreateArgs, create_parent_router, create_child_router}
use shm_ipc.Factory.Initialize.{Host, initialize}
use shm_ipc.Poll.{Change, Poll}
use shm_ipc.Router.{Router}
use shm_ipc.Router.Fds.{Fds, send_fatal_error}
use shm_ipc.Segment.{Mmap, page_size}
use shm_ipc.Shutdown.Protocol.{Who, parent, child}
use shm_ipc.Demo.Loop.{Process, Exit, still, exits}

-- The factory of `main`, from the answers of `mmap`.
unfoldable pub start : Mmap → Mmap → Host → Host × Outcome RouterFactory
start answer_1 answer_2 h = initialize answer_1 answer_2 (1 * page_size) h

abbrev pub create_router : Who → (ℕ → Bool) → RouterFactory → RouterFactory × Outcome CreateArgs
create_router parent = create_parent_router
create_router child = create_child_router

-- The channels of a router stand at the addresses of its segments; `none` is a null pointer.
unfoldable pub attach : (ℕ → Channel) → CreateArgs → Option Router
attach channels args = elim args.read_segment [
  | none ↦ none
  | some r ↦ elim args.write_segment [
    | none ↦ none
    | some w ↦ some (record {
      read_channel = channels r;
      write_channel = channels w;
      next_id = 1;
      handlers = [];
    })
  ]
]

-- The status of a process: an exception of its function is caught and printed. `none` while it runs.
unfoldable pub exit_status : Exit → Option ℕ
exit_status (still p) = none
exit_status (exits (p, throws e)) = some 0
exit_status (exits (p, returns _)) = some 0

abbrev pub returned : Option ℕ → Option (Outcome ℕ)
returned none = none
returned (some n) = some (returns n)

abbrev pub status_of : Option Exit → Option (Outcome ℕ)
status_of none = none
status_of (some x) = returned (exit_status x)

abbrev pub by_args : Outcome CreateArgs → (CreateArgs → Option Exit) → Option (Outcome ℕ)
by_args (throws e) body = some (throws e)
by_args (returns args) body = status_of (body args)

-- `main` in the process that is `forked`, or where fork fails, with `made` from `start`. `marked` says
-- for which descriptors fd_set_close_on_exec succeeds, and `body` is parent_process or child_process
-- with the router of these arguments. What it throws leaves `main`; it is `none` while `body` runs.
unfoldable pub main :
    Outcome RouterFactory
    → Option Who
    → (ℕ → Bool)
    → (CreateArgs → Option Exit)
    → Option (Outcome ℕ)
main (throws e) forked marked body = some (throws e)
main (returns f) none marked body = some (throws (runtime_error "fork() failed: "))
main (returns f) (some w) marked body = by_args (create_router w marked f).1 body

exits-status :
    (p : Process) (result : Outcome (Unit {0}))
    → status_of (some (exits (p, result))) ≡ some (returns 0)
unfolding exit_status
exits-status p (throws e) = refl
exits-status p (returns _) = refl

-- Where the factory is made and fork and the making of the router succeed, main never throws: once the
-- function of the process has ended, also by an exception, the process exits with 0.
pub main-exits :
    (f : RouterFactory) (w : Who) (marked : ℕ → Bool) (body : CreateArgs → Option Exit)
    (args : CreateArgs) (p : Process) (result : Outcome (Unit {0}))
    → (create_router w marked f).1 ≡ returns args
    → body args ≡ some (exits (p, result))
    → main (returns f) (some w) marked body ≡ some (returns 0)
unfolding main
main-exits f w marked body args p result made ended =
    ap (λ o. by_args o body) made ∙ (ap status_of ended ∙ exits-status p result)

-- `g_router`, which only the child sets.
abbrev pub g_router : Who → Fds → Option Fds
g_router parent fds = none
g_router child fds = some fds

-- `sent` is what the message comes to, and `fd_closed` what `fd_close` does.
unfoldable pub do_panic :
    (List Change → Bool)
    → Outcome (Unit {0})
    → Outcome (Unit {0})
    → Who
    → Poll
    → Fds
    → Poll × Outcome (Unit {0})
do_panic kevent sent fd_closed w p fds = elim (g_router w fds) [
  | none ↦ (p, returns tt)
  | some r ↦ send_fatal_error kevent sent fd_closed p r
]

-- Nothing calls it.
unfoldable pub check_socket_closed : Recv → Bool
check_socket_closed (got bytes) = true
check_socket_closed recv_interrupted = true
check_socket_closed recv_again = false
check_socket_closed (recv_failed errno) = true
