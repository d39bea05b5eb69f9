-- ===== src/Poll.antt =====
-- torrent/system/poll.h, poll_kqueue.cc and the fields of torrent/system/event.h that it uses: the
-- table of polled events, their masks, and the buffer of changes for the kernel. An event and a
-- PollEvent are numbers that name them, a mask is its three flags, and `kevent` says whether the
-- kernel takes the changes that it is given. An exception's text is without its variable part.
pub mod Told
pub mod Listening
pub mod Closing
pub mod Process
pub mod Links
pub mod Sound
pub mod Dispatch
pub mod Uses
pub mod Holding
pub mod Waiting
pub mod Keeping
pub mod Interrupts
pub mod Create
mod Tests
use shm_ipc.Base.{
  ℕ, zero, suc, ◌+◌, ◌≡◌, Bool, true, false, not, ◌&&◌, ◌||◌, ◌==◌, if◌then◌else◌, Option, none,
  some, List, [], ◌∷◌, ◌++◌, length, String,
}
use shm_ipc.Base.Outcome.{Outcome, returns, throws, internal_error, undefined, assertion}

pub record Mask : Type 0 where
  pub read : Bool
  pub write : Bool
  pub error : Bool

abbrev pub no_flags : Mask
no_flags = record { read = false; write = false; error = false }

-- `event` is `none` for a null pointer.
pub record PollEvent : Type 0 where
  pub mask : Mask
  pub event : Option ℕ

-- `m_fileDesc`, `none` for -1, and `m_poll_event`.
pub record Event : Type 0 where
  pub fd : Option ℕ
  pub poll_event : Option ℕ

pub data Filter : Type 0 where
  evfilt_read : Filter
  evfilt_write : Filter

-- A change for the kernel: EV_ADD or EV_DELETE of a filter.
pub record Change : Type 0 where
  pub ident : ℕ
  pub filter : Filter
  pub add : Bool
  pub udata : Option ℕ

-- `changes` are the first m_changed_events of m_changes, oldest first, and `applied` the changes
-- that the kernel has taken.
pub record Poll : Type 0 where
  pub events : ℕ → Event
  pub poll_events : ℕ → PollEvent
  pub next_poll_event : ℕ
  pub table : ℕ → Option ℕ
  pub changes : List Change
  pub max_events : ℕ
  pub processing : Bool
  pub closed_events : List ℕ
  pub applied : List Change

abbrev pub IsEmptyTable : Poll → Type 0
IsEmptyTable p = (n : ℕ) → p.table n ≡ none

-- The destructor; whether `m_table` is empty is given as a decision.
unfoldable pub destructor : (p : Poll) → Dec (IsEmptyTable p) → Outcome (Unit {0})
destructor p (yes empty) = returns tt
destructor p (no more) = throws (assertion "Poll::~Poll() called with non-empty event table.")

abbrev pub update {ℓ} : {A : Type ℓ} → (ℕ → A) → ℕ → A → ℕ → A
update f k v j = if j == k then v else f j

abbrev pub is_event : ℕ → Option ℕ → Bool
is_event e none = false
is_event e (some x) = x == e

abbrev pub throw_error {ℓ} : {A : Type ℓ} → Poll → String → Poll × Outcome A
throw_error p msg = (p, throws (internal_error msg))

-- Goes on with a result, unless there is an exception.
abbrev pub then_do {ℓ ℓ'} :
    {A : Type ℓ} {B : Type ℓ'} → Poll × Outcome A → (A → Poll → Poll × Outcome B) → Poll × Outcome B
then_do (p, throws e) k = (p, throws e)
then_do (p, returns a) k = k a p

unfoldable pub event_mask : Poll → ℕ → Poll × Outcome Mask
event_mask p e = elim (p.events e).fd [
  | none ↦ throw_error p "PollInternal::event_mask() invalid file descriptor for event: "
  | some n ↦ elim (p.table n) [
    | none ↦ throw_error p "PollInternal::event_mask() event not found: "
    | some ref ↦
        if is_event e (p.poll_events ref).event
        then (p, returns (p.poll_events ref).mask)
        else throw_error p "PollInternal::event_mask() event mismatch: "
  ]
]

unfoldable pub set_event_mask : Poll → ℕ → Mask → Poll × Outcome (Unit {0})
set_event_mask p e mask = elim (p.events e).fd [
  | none ↦ throw_error p "PollInternal::set_event_mask() invalid file descriptor for event: "
  | some n ↦ elim (p.events e).poll_event [
    | none ↦ (p, throws (undefined "m_poll_event is null"))
    | some ref ↦ (
      record p {
        poll_events = update p.poll_events ref (record (p.poll_events ref) { mask = mask });
      },
      returns tt,
    )
  ]
]

unfoldable pub flush : (List Change → Bool) → Poll → Poll × Outcome (Unit {0})
flush kevent p =
    if length p.changes == 0
    then (p, returns tt)
    else if kevent p.changes
    then (record p { changes = []; applied = p.applied ++ p.changes }, returns tt)
    else throw_error p "PollInternal::flush() error: "

abbrev pub push : Poll → Change → Poll
push p c = record p { changes = p.changes ++ (c ∷ []) }

abbrev pub change_for : Poll → ℕ → Bool → Filter → Poll × Outcome (Unit {0})
change_for p e add filter = elim (p.events e).fd [
  | none ↦ (p, throws (undefined "ident is -1"))
  | some n ↦ (
    push p (record { ident = n; filter = filter; add = add; udata = (p.events e).poll_event }),
    returns tt,
  )
]

unfoldable pub modify : (List Change → Bool) → Poll → ℕ → Bool → Filter → Poll × Outcome (Unit {0})
modify kevent p e add filter =
    if length p.changes == p.max_events
    then then_do (flush kevent p) (λ _ p'. change_for p' e add filter)
    else change_for p e add filter

unfoldable pub open_event : Poll → ℕ → Poll × Outcome (Unit {0})
open_event p e = elim (p.events e).fd [
  | none ↦ throw_error p "Poll::open() invalid file descriptor for event: "
  | some n ↦ elim (p.events e).poll_event [
    | some ref ↦
        throw_error p "Poll::open() called but the event is already associated with a poll: "
    | none ↦ elim (p.table n) [
      | some ref ↦ throw_error p "Poll::open() event already exists: "
      | none ↦ (
        record p {
          poll_events =
              update p.poll_events p.next_poll_event (record { mask = no_flags; event = some e });
          next_poll_event = p.next_poll_event + 1;
          events = update p.events e (record (p.events e) { poll_event = some p.next_poll_event });
          table = update p.table n (some p.next_poll_event);
        },
        returns tt,
      )
    ]
  ]
]

abbrev pub has : Filter → Mask → Bool
has evfilt_read m = m.read
has evfilt_write m = m.write

abbrev pub set_flag : Filter → Bool → Mask → Mask
set_flag evfilt_read b m = record m { read = b }
set_flag evfilt_write b m = record m { write = b }

-- `insert_read` and `insert_write` are this at their filters, and so below.
unfoldable pub insert_filter : (List Change → Bool) → Filter → Poll → ℕ → Poll × Outcome (Unit {0})
insert_filter kevent filter p e = then_do (event_mask p e) (λ mask p1.
    if has filter mask
    then (p1, returns tt)
    else then_do (set_event_mask p1 e (set_flag filter true mask))
        (λ _ p2. modify kevent p2 e true filter))

unfoldable pub remove_filter : (List Change → Bool) → Filter → Poll → ℕ → Poll × Outcome (Unit {0})
remove_filter kevent filter p e = then_do (event_mask p e) (λ mask p1.
    if has filter mask
    then then_do (set_event_mask p1 e (set_flag filter false mask))
        (λ _ p2. modify kevent p2 e false filter)
    else (p1, returns tt))

unfoldable pub insert_error : Poll → ℕ → Poll × Outcome (Unit {0})
insert_error p e = then_do (event_mask p e) (λ mask p1.
    if mask.error then (p1, returns tt) else set_event_mask p1 e (record mask { error = true }))

unfoldable pub remove_error : Poll → ℕ → Poll × Outcome (Unit {0})
remove_error p e = then_do (event_mask p e) (λ mask p1.
    if mask.error then set_event_mask p1 e (record mask { error = false }) else (p1, returns tt))

-- The end of `close`, behind `flush`.
abbrev pub forget : ℕ → ℕ → Poll → Poll
forget e ref p = record p {
  closed_events = if p.processing then p.closed_events ++ (ref ∷ []) else p.closed_events;
  poll_events = update p.poll_events ref (record (p.poll_events ref) { event = none });
  events = update p.events e (record (p.events e) { poll_event = none });
}

abbrev pub is_empty : Mask → Bool
is_empty m = not (m.read || (m.write || m.error))

unfoldable pub close : (List Change → Bool) → Poll → ℕ → Poll × Outcome (Unit {0})
close kevent p e = elim (p.events e).poll_event [
  | none ↦ (p, returns tt)
  | some ref ↦
      if not (is_event e (p.poll_events ref).event)
      then throw_error p "Poll::close() event mismatch: "
      else then_do (event_mask p e) (λ mask p1.
        if not (is_empty mask)
        then throw_error p1 "Poll::close() called but the file descriptor is active: "
        else elim (p1.events e).fd [
          | none ↦ throw_error p1 "Poll::close() event not found: "
          | some n ↦
              then_do (flush kevent (record p1 { table = update p1.table n none }))
                (λ _ p2. (forget e ref p2, returns tt))
        ])
]

unfoldable pub remove_and_close : (List Change → Bool) → Poll → ℕ → Poll × Outcome (Unit {0})
remove_and_close kevent p e = then_do (remove_filter kevent evfilt_read p e) (λ _ p1.
    then_do (remove_filter kevent evfilt_write p1 e)
      (λ _ p2. then_do (remove_error p2 e) (λ _ p3. close kevent p3 e)))

unfoldable pub open_and_insert_read : (List Change → Bool) → Poll → ℕ → Poll × Outcome (Unit {0})
open_and_insert_read kevent p e =
    then_do (open_event p e) (λ _ p1. insert_filter kevent evfilt_read p1 e)

unfoldable pub open_and_insert_read_write :
    (List Change → Bool) → Poll → ℕ → Poll × Outcome (Unit {0})
open_and_insert_read_write kevent p e = then_do (open_event p e) (λ _ p1.
    then_do (insert_filter kevent evfilt_read p1 e)
      (λ _ p2. insert_filter kevent evfilt_write p2 e))

unfoldable pub open_and_insert_write : (List Change → Bool) → Poll → ℕ → Poll × Outcome (Unit {0})
open_and_insert_write kevent p e =
    then_do (open_event p e) (λ _ p1. insert_filter kevent evfilt_write p1 e)

-- `in_read` and `in_write` are this at their filters.
unfoldable pub in_filter : Filter → Poll → ℕ → Poll × Outcome Bool
in_filter filter p e = then_do (event_mask p e) (λ mask p1. (p1, returns (has filter mask)))

unfoldable pub in_error : Poll → ℕ → Poll × Outcome Bool
in_error p e = then_do (event_mask p e) (λ mask p1. (p1, returns mask.error))
