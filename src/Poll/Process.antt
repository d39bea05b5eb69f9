-- ===== src/Poll/Process.antt =====
-- `Poll::process` of torrent/system/poll_kqueue.cc: the events that the kernel has reported go to
-- their handlers. A handler is a parameter that may use the poll; the two hooks of the Thread that
-- it calls do nothing in torrent/system/thread.h.
use shm_ipc.Base.{ℕ, ◌+◌, Bool, true, false, not, Option, none, some, List, [], ◌∷◌, if◌then◌else◌}
use shm_ipc.Base.Outcome.{Outcome, returns, throws, undefined}
use shm_ipc.Poll.{Poll, Filter, evfilt_read, evfilt_write, has, is_empty, throw_error, then_do}

-- The filters that `kevent` reports, with that of `create_user_event`.
pub data Reported : Type 0 where
  ready : Filter → Reported
  evfilt_user : Reported

-- A `struct kevent` in m_events: `error` is EV_ERROR in its flags.
pub record Kevent : Type 0 where
  pub reported : Reported
  pub error : Bool
  pub udata : Option ℕ

pub data Kind : Type 0 where
  event_read event_write event_error : Kind

-- What the virtual functions of the events do.
abbrev pub Handlers : Type 0
Handlers = Kind → ℕ → Poll → Poll × Outcome (Unit {0})

abbrev pub kind_of : Filter → Kind
kind_of evfilt_read = event_read
kind_of evfilt_write = event_write

abbrev pub null_pointer {ℓ} : {A : Type ℓ} → Poll → Poll × Outcome A
null_pointer p = (p, throws (undefined "null pointer"))

-- A reported error, for the PollEvent `ref`; the number is what it adds to the count.
unfoldable pub process_error : Handlers → Poll → ℕ → Poll × Outcome ℕ
process_error handlers p ref = elim (p.poll_events ref).event [
  | none ↦ (p, returns 1)
  | some e ↦
      if not (p.poll_events ref).mask.error
      then throw_error p "Poll::process() received error event for event not in error: "
      else then_do (handlers event_error e p) (λ _ p1.
        if not (is_empty (p1.poll_events ref).mask)
        then throw_error p1 "Poll::process() event_error called but event mask not cleared: "
        else (p1, returns 1))
]

-- A readable or writable descriptor; without the flag it is spurious.
unfoldable pub process_ready : Handlers → Poll → ℕ → Filter → Poll × Outcome ℕ
process_ready handlers p ref filter =
    if has filter (p.poll_events ref).mask
    then elim (p.poll_events ref).event [
      | none ↦ null_pointer p
      | some e ↦ then_do (handlers (kind_of filter) e p) (λ _ p1. (p1, returns 1))
    ]
    else (p, returns 0)

unfoldable pub process_one : Handlers → Poll → Kevent → Poll × Outcome ℕ
process_one handlers p k =
    if k.error
    then elim k.udata [ none ↦ null_pointer p | some ref ↦ process_error handlers p ref ]
    else elim k.reported [
      | evfilt_user ↦ (p, returns 0)
      | ready f ↦ elim k.udata [ none ↦ null_pointer p | some ref ↦ process_ready handlers p ref f ]
    ]

unfoldable pub process_loop : Handlers → Poll → ℕ → List Kevent → Poll × Outcome ℕ
process_loop handlers p count [] = (p, returns count)
process_loop handlers p count (k ∷ ks) =
    then_do (process_one handlers p k) (λ n p1. process_loop handlers p1 (count + n) ks)

-- The start and the end of `process`: from the one to the other, PollEvents that are closed are kept.
abbrev pub start_processing : Poll → Poll
start_processing p = record p { processing = true; closed_events = [] }

abbrev pub end_processing : ℕ → Poll → Poll × Outcome ℕ
end_processing count p = (record p { processing = false; closed_events = [] }, returns count)

-- The count of the events, and behind it m_waiting_events is 0.
unfoldable pub process : Handlers → Poll → List Kevent → Poll × Outcome ℕ
process handlers p waiting =
    then_do (process_loop handlers (start_processing p) 0 waiting) end_processing
