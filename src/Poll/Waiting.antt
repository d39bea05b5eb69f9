-- ===== src/Poll/Waiting.antt =====
-- `Poll::do_poll`, `poll` and `do_interrupt` of torrent/system/poll_kqueue.cc: the state that the
-- polling thread and the ones that interrupt it share, and the time to wait. `kevent` stands for
-- the system call that takes the changes, waits and gives the events, or fails.
use shm_ipc.Base.{
  ℕ, zero, suc, ◌+◌, ◌-◌, ◌*◌, ◌/◌, ◌%◌, ◌^◌, Bool, true, false, not, ◌&&◌, ◌||◌, if◌then◌else◌,
  List, [], ltb, ◌++◌,
}
use shm_ipc.Base.Outcome.{Outcome, returns}
use shm_ipc.Poll.{Change, Poll, throw_error}
use shm_ipc.Poll.Process.{Kevent, Handlers, process}

-- flag_polling and flag_interrupted of m_polling_state.
pub record PollingState : Type 0 where
  pub polling : Bool
  pub interrupted : Bool

abbrev pub idle_state : PollingState
idle_state = record { polling = false; interrupted = false }

-- fetch_or(flag_polling), and fetch_and(~flag_state_mask)
unfoldable pub begin_polling : PollingState → PollingState
begin_polling s = record s { polling = true }

unfoldable pub end_polling : PollingState → PollingState
end_polling s = idle_state

-- Whether the user event is poked stands behind the state. The exchange is for exactly flag_polling.
unfoldable pub do_interrupt : PollingState → PollingState × Bool
do_interrupt s =
    if s.polling && not s.interrupted then (record s { interrupted = true }, true) else (s, false)

-- int, by its sign: `negsuc n` is - (n + 1).
pub data ℤ : Type 0 where
  pos : ℕ → ℤ
  negsuc : ℕ → ℤ

abbrev pub neg : ℕ → ℤ
neg zero = pos zero
neg (suc n) = negsuc n

-- The int that an int64_t from 0 on is cut down to.
unfoldable pub narrow : ℕ → ℤ
narrow t = let low = t % 2 ^ 32 in if ltb low (2 ^ 31) then pos low else neg (2 ^ 32 - low)

pub record Timespec : Type 0 where
  pub sec : ℤ
  pub nsec : ℤ

-- Division and remainder of C++ go towards zero.
unfoldable pub timespec : ℤ → Timespec
timespec (pos t) = record { sec = pos (t / 1000000); nsec = pos ((t % 1000000) * 1000) }
timespec (negsuc t) = record {
  sec = neg ((t + 1) / 1000000);
  nsec = neg (((t + 1) % 1000000) * 1000);
}

abbrev pub zero_timespec : Timespec
zero_timespec = record { sec = pos 0; nsec = pos 0 }

-- What `kevent` returns: the events, or -1, then with EINTR or another error.
pub data Waited : Type 0 where
  got : List Kevent → Waited
  failed : Bool → Waited

-- The time that `poll` gives to `kevent`, from the state before; `callbacks` is has_any_callbacks.
unfoldable pub time_to_wait : PollingState → Bool → ℤ → Timespec
time_to_wait previous callbacks timeout =
    if previous.interrupted || callbacks then zero_timespec else timespec timeout

-- The changes count as taken also where `kevent` fails, as the comment there says.
unfoldable pub poll :
    (List Change → Timespec → Waited)
    → Bool
    → PollingState
    → Poll
    → ℤ
    → (PollingState × Poll) × Waited
poll kevent callbacks s p timeout = (
  (end_polling (begin_polling s), record p { changes = []; applied = p.applied ++ p.changes }),
  kevent p.changes (time_to_wait s callbacks timeout),
)

unfoldable pub do_poll :
    (List Change → Timespec → Waited) → Handlers → Bool → PollingState → Poll → ℕ → Poll × Outcome ℕ
do_poll kevent handlers callbacks s p timeout =
    let ((s1, p1), waited) = poll kevent callbacks s p (narrow timeout) in
    elim waited [
      | got ks ↦ process handlers p1 ks
      | failed interrupted ↦
          if interrupted then (p1, returns 0) else throw_error p1 "Poll::do_poll() error: "
    ]
