-- ===== src/Router/Fds.antt =====
-- The descriptors of a router in torrent/system/ipc/router.cc: its ControlFd and its WakeupFd as
-- events of the poll, which are numbers that name them.
use shm_ipc.Base.{ℕ, Bool, if◌then◌else◌, Option, none, some, List}
use shm_ipc.Base.Outcome.{Outcome, returns, throws}
use shm_ipc.Factory.{CreateArgs}
use shm_ipc.Poll.{Change, Poll, update, then_do, remove_and_close, open_and_insert_read}

pub record Fds : Type 0 where
  pub control_fd : ℕ
  pub wakeup_fd : ℕ
  pub keepalive_fd : ℕ
  pub read_segment : Option ℕ
  pub write_segment : Option ℕ

abbrev pub set_fd : Poll → ℕ → Option ℕ → Poll
set_fd p e fd = record p { events = update p.events e (record (p.events e) { fd = fd }) }

-- The constructor, for the events `c` and `w`, up to the end of the pair that `WakeupFd::open` closes.
unfoldable pub construct : Poll → ℕ → ℕ → CreateArgs → Poll × Fds
construct p c w args = (
  set_fd (set_fd p c (some args.control_fd)) w
      (some (if args.is_parent then args.wakeup_fds.0 else args.wakeup_fds.1)),
  record {
    control_fd = c;
    wakeup_fd = w;
    keepalive_fd = args.keepalive_fd;
    read_segment = args.read_segment;
    write_segment = args.write_segment;
  },
)

unfoldable pub open_fds : (List Change → Bool) → Poll → Fds → Poll × Outcome (Unit {0})
open_fds kevent p fds =
    then_do (open_and_insert_read kevent p fds.control_fd)
      (λ _ p1. open_and_insert_read kevent p1 fds.wakeup_fd)

-- The end of `close` of an event: `fd_closed` is what `fd_close` does.
abbrev pub close_descriptor : Outcome (Unit {0}) → ℕ → Poll → Poll × Outcome (Unit {0})
close_descriptor (throws x) e p = (p, throws x)
close_descriptor (returns _) e p = (set_fd p e none, returns tt)

-- `ControlFd::close` and `WakeupFd::close`.
unfoldable pub close_event :
    (List Change → Bool) → Outcome (Unit {0}) → Poll → ℕ → Poll × Outcome (Unit {0})
close_event kevent fd_closed p e = elim (p.events e).fd [
  | none ↦ (p, returns tt)
  | some n ↦ elim (p.events e).poll_event [
    | none ↦ close_descriptor fd_closed e p
    | some ref ↦ then_do (remove_and_close kevent p e) (λ _ p1. close_descriptor fd_closed e p1)
  ]
]

unfoldable pub close_fds :
    (List Change → Bool) → Outcome (Unit {0}) → Poll → Fds → Poll × Outcome (Unit {0})
close_fds kevent fd_closed p fds =
    then_do (close_event kevent fd_closed p fds.control_fd)
      (λ _ p1. close_event kevent fd_closed p1 fds.wakeup_fd)

-- `sent` is what the message comes to.
unfoldable pub send_fatal_error :
    (List Change → Bool)
    → Outcome (Unit {0})
    → Outcome (Unit {0})
    → Poll
    → Fds
    → Poll × Outcome (Unit {0})
send_fatal_error kevent sent fd_closed p fds =
    then_do (p, sent)
      (λ _ p1.
        then_do (remove_and_close kevent p1 fds.control_fd)
          (λ _ p2. close_event kevent fd_closed p2 fds.control_fd))
