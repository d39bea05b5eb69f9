-- ===== src/Shutdown.antt =====
-- parent.cc, child.cc and main.cc: the loops of the two processes, and how they shut each other
-- down over the control descriptors. A time is in microseconds, of a clock that never goes back;
-- the output is left out.
pub mod Protocol
pub mod Leaving
pub mod Deadline
mod Tests
use shm_ipc.Base.{
  ℕ, zero, suc, ◌+◌, ◌-◌, ◌*◌, ◌%◌, [], ◌∷◌, length, Bool, true, false, not, ◌==◌, if◌then◌else◌,
  ltb, Option, none, some, List,
}
use shm_ipc.Channel.{WriteResult, wrote, again}

-- The four global flags of main.cc.
pub record Globals : Type 0 where
  pub should_shutdown : Bool
  pub should_graceful_shutdown : Bool
  pub should_forced_shutdown : Bool
  pub control_fd_closed : Bool

unfoldable pub do_signal_shutdown : Globals → Globals
do_signal_shutdown g = record g { should_shutdown = true }

unfoldable pub handle_control_closed : Globals → Globals
handle_control_closed g = record g { should_shutdown = true; control_fd_closed = true }

unfoldable pub handle_control_shutdown : Globals → Bool → Globals
handle_control_shutdown g graceful = record g {
  should_shutdown = true;
  should_graceful_shutdown = graceful;
  should_forced_shutdown = not graceful;
}

-- What the top of a loop comes to: it sends a graceful shutdown and starts the loop again; it leaves
-- the loop, having sent a forceful shutdown or not; or it goes on.
pub data Verdict : Type 0 where
  announces leaves leaves_forcefully goes_on : Verdict

abbrev pub second : ℕ
second = 1000000

-- The end of both, from the time of the announcement.
abbrev pub wait_for_shutdown : Option ℕ → ℕ → Verdict
wait_for_shutdown none now = announces
wait_for_shutdown (some t) now = if ltb (5 * second) (now - t) then leaves_forcefully else goes_on

unfoldable pub parent_verdict : Globals → Option ℕ → ℕ → Verdict
parent_verdict g shutdown_timestamp now =
    if g.should_shutdown
    then (if g.control_fd_closed then leaves else wait_for_shutdown shutdown_timestamp now)
    else goes_on

unfoldable pub child_verdict : Globals → Option ℕ → ℕ → Verdict
child_verdict g shutdown_timestamp now =
    if g.should_shutdown
    then (if g.control_fd_closed
        then leaves
        else if g.should_graceful_shutdown
        then leaves
        else if g.should_forced_shutdown
        then leaves
        else wait_for_shutdown shutdown_timestamp now)
    else goes_on

-- `message_interval` of each file.
abbrev pub parent_interval : ℕ
parent_interval = 1 * second

abbrev pub child_interval : ℕ
child_interval = 5 * second

-- `i` and `last_write`. A write that is refused is tried again with the same `i`.
pub record Loop : Type 0 where
  pub i : ℕ
  pub last_write : ℕ

abbrev pub is_due : ℕ → Loop → ℕ → Bool
is_due interval l now = ltb interval (now - l.last_write)

-- Behind a message at `now`. `i` stands for its value in the next turn, and -1 in the code is 0 there.
abbrev pub sent_at : Loop → ℕ → Loop
sent_at l now = record { i = l.i + 1; last_write = now }

abbrev pub skipped : Loop → Loop
skipped l = record l { i = l.i + 1 }

abbrev pub nth : List ℕ → ℕ → ℕ
nth [] n = 0
nth (x ∷ xs) zero = x
nth (x ∷ xs) (suc n) = nth xs n

-- The id under which the next message is written; the child may have none.
unfoldable pub parent_target : List ℕ → ℕ → Option ℕ
parent_target channels i = some (if i % 2 == 0 then nth channels 0 else nth channels 1)

unfoldable pub child_target : List ℕ → ℕ → Option ℕ
child_target [] i = none
child_target (id ∷ ids) i = some (nth (id ∷ ids) (i % length (id ∷ ids)))

-- What is given to do_poll; below 0 it is 0.
unfoldable pub poll_timeout : ℕ → Loop → ℕ → ℕ
poll_timeout interval l now = interval - (now - l.last_write)
