-- ===== src/Poll/Create.antt =====
-- `Poll::create` and the user event of torrent/system/poll_kqueue.cc, and the functions that open an
-- event and insert it for writing.
use shm_ipc.Base.{
  ℕ, ◌≡◌, refl, ap, subst, Bool, true, false, Option, none, some, List, [], if◌then◌else◌, arith,
}
use shm_ipc.Base.Outcome.{Outcome, returns, throws, internal_error}
use shm_ipc.Poll.{
  no_flags, evfilt_read, evfilt_write, Change, Poll, open_and_insert_read_write,
  open_and_insert_write, open_event, insert_filter,
}
use shm_ipc.Poll.Links.{IsLinked, IsSound, then_do-IsSound}
use shm_ipc.Poll.Sound.{open_event-IsSound, insert_filter-IsSound}

-- The poll on the events as they are: `events` gives their descriptors.
abbrev pub empty_poll : (ℕ → Option ℕ) → Poll
empty_poll fds = record {
  events = λ e. record { fd = fds e; poll_event = none };
  poll_events = λ ref. record { mask = no_flags; event = none };
  next_poll_event = 0;
  table = λ n. none;
  changes = [];
  max_events = 1024;
  processing = false;
  closed_events = [];
  applied = [];
}

-- `triggered` is whether `kevent` succeeds.
unfoldable pub create_user_event : Bool → Outcome (Unit {0})
create_user_event added =
    if added
    then returns tt
    else throws (internal_error "PollInternal::create_user_event() error: ")

-- It is silent where the poll is closed.
unfoldable pub poke_user_event : Bool → Bool → Outcome (Unit {0})
poke_user_event triggered is_open =
    if triggered
    then returns tt
    else if is_open
    then throws (internal_error "PollInternal::poke_user_event() error: ")
    else returns tt

-- The limit that `sysconf` gives and the poll, for events none of which is open.
unfoldable pub create_poll : Option ℕ → Option ℕ → Bool → (ℕ → Option ℕ) → Outcome (ℕ × Poll)
create_poll sysconf kqueue added fds = elim sysconf [
  | none ↦ throws (internal_error "Poll::create() : sysconf(_SC_OPEN_MAX) failed : ")
  | some max_sockets ↦ elim kqueue [
    | none ↦ throws (internal_error "Poll::create() : kqueue() failed : ")
    | some fd ↦ elim (create_user_event added) [
      | throws e ↦ throws e
      | returns _ ↦ returns (max_sockets, empty_poll fds)
    ]
  ]
]

-- m_max_sockets stands beside the poll.
abbrev pub open_max : ℕ × Poll → ℕ
open_max (max_sockets, p) = max_sockets

empty_poll-IsLinked : (fds : ℕ → Option ℕ) → IsLinked (empty_poll fds)
empty_poll-IsLinked fds = record {
  named = λ ref h. absurd (ground (arith, h));
  back = λ ref e h. absurd (ground (arith, h));
  fresh = λ ref h. refl;
}

abbrev made : Poll → Outcome (ℕ × Poll) → Poll
made p (throws e) = p
made p (returns (max, q)) = q

-- A poll that `create` returns has its events and PollEvents linked.
pub create_poll-IsLinked :
    (sysconf kqueue : Option ℕ) (added : Bool) (fds : ℕ → Option ℕ) (max : ℕ) (p : Poll)
    → create_poll sysconf kqueue added fds ≡ returns (max, p)
    → IsLinked p
unfolding create_poll create_user_event
create_poll-IsLinked none kqueue added fds max p e = absurd (ground (arith, e))
create_poll-IsLinked (some m) none added fds max p e = absurd (ground (arith, e))
create_poll-IsLinked (some m) (some k) false fds max p e = absurd (ground (arith, e))
create_poll-IsLinked (some m) (some k) true fds max p e =
    subst IsLinked (ap (made (empty_poll fds)) e) (empty_poll-IsLinked fds)

pub open_and_insert_read_write-IsSound :
    (kevent : List Change → Bool) (p : Poll) (e : ℕ)
    → IsLinked p
    → IsSound p (open_and_insert_read_write kevent p e)
unfolding open_and_insert_read_write
open_and_insert_read_write-IsSound kevent p e l =
    let s = open_event-IsSound p e l in
    then_do-IsSound (open_event p e) _ s (λ _ _.
      let s1 = insert_filter-IsSound kevent evfilt_read _ e s.linked in
      then_do-IsSound (insert_filter kevent evfilt_read _ e) _ s1
        (λ _ _. insert_filter-IsSound kevent evfilt_write _ e s1.linked))

pub open_and_insert_write-IsSound :
    (kevent : List Change → Bool) (p : Poll) (e : ℕ)
    → IsLinked p
    → IsSound p (open_and_insert_write kevent p e)
unfolding open_and_insert_write
open_and_insert_write-IsSound kevent p e l =
    let s = open_event-IsSound p e l in
    then_do-IsSound (open_event p e) _ s
      (λ _ _. insert_filter-IsSound kevent evfilt_write _ e s.linked)
