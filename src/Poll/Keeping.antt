-- ===== src/Poll/Keeping.antt =====
-- `Poll::process` and `Poll::do_poll` of torrent/system/poll_kqueue.cc keep whatever their handlers
-- keep, if it says nothing of the phase and of who has the changes.
use shm_ipc.Base.{
  ℕ, ◌+◌, Bool, true, false, not, Option, none, some, List, [], ◌∷◌, ◌++◌, if◌then◌else◌, inl, inr,
  Option-cases, Bool-cases,
}
use shm_ipc.Base.Outcome.{Outcome, returns, throws}
use shm_ipc.Poll.{Change, Filter, Poll, then_do, has, is_empty, throw_error}
use shm_ipc.Poll.Process.{
  Reported, ready, evfilt_user, Kevent, Kind, event_error, Handlers, kind_of, process_error,
  process_ready, process_one, process_loop, process, null_pointer,
}
use shm_ipc.Poll.Waiting.{
  Timespec, Waited, got, failed, PollingState, poll, do_poll, time_to_wait, narrow,
}

then_do-keeps :
    {A B : Type 0} (I : Poll → Type 0) (out : Poll × Outcome A) (k : A → Poll → Poll × Outcome B)
    → I out.0
    → ((a : A) (p : Poll) → I p → I (k a p).0)
    → I (then_do out k).0
then_do-keeps I (p, throws e) k i h = i
then_do-keeps I (p, returns a) k i h = h a p i

-- The poll behind `kevent`, which has the changes.
abbrev pub taken : Poll → Poll
taken p = record p { changes = []; applied = p.applied ++ p.changes }

-- What says nothing of the phase of `process`, nor of whether changes have been handed over.
pub record IsSteady (I : Poll → Type 0) : Type 0 where
  pub phase :
      (p : Poll) (now : Bool) (closed : List ℕ)
      → I p
      → I (record p { processing = now; closed_events = closed })
  pub handed : (p : Poll) → I p → I (taken p)

abbrev pub AllKeep : (Poll → Type 0) → Handlers → Type 0
AllKeep I handlers = (k : Kind) (e : ℕ) (p : Poll) → I p → I (handlers k e p).0

module _ (I : Poll → Type 0) (steady : IsSteady I) (handlers : Handlers)
    (keeps : AllKeep I handlers) where
  error_called :
      (ref : ℕ) (p : Poll)
      → I p
      → I
          (if not (is_empty (p.poll_events ref).mask)
            then throw_error {A = ℕ} p
                "Poll::process() event_error called but event mask not cleared: "
            else (p, returns 1)).0
  error_called ref p i =
      elim (is_empty (p.poll_events ref).mask)
        as (λ b.
          I
            (if not b
              then throw_error {A = ℕ} p
                  "Poll::process() event_error called but event mask not cleared: "
              else (p, returns 1)).0) [ true ↦ i | false ↦ i ]

  process_error-keeps : (p : Poll) (ref : ℕ) → I p → I (process_error handlers p ref).0
  unfolding process_error
  process_error-keeps p ref i = elim (Option-cases (p.poll_events ref).event) [
    | inl gone ↦ rw (gone, process_error) i
    | inr (e, there) ↦ elim (Bool-cases (p.poll_events ref).mask.error) [
      | inr unasked ↦ rw (there, unasked, process_error) i
      | inl asked ↦
          rw (there, asked, process_error)
            (then_do-keeps I (handlers event_error e p) _ (keeps event_error e p i)
              (λ _ p1 i1. error_called ref p1 i1))
    ]
  ]

  process_ready-keeps :
      (p : Poll) (ref : ℕ) (f : Filter) → I p → I (process_ready handlers p ref f).0
  unfolding process_ready
  process_ready-keeps p ref f i = wanted (has f (p.poll_events ref).mask) (p.poll_events ref).event
    where
      wanted :
          (b : Bool) (x : Option ℕ)
          → I
              (if b
                then elim x as (λ _. Poll × Outcome ℕ) [
                  | none ↦ null_pointer p
                  | some e ↦ then_do (handlers (kind_of f) e p) (λ _ p1. (p1, returns 1))
                ]
                else (p, returns 0)).0
      wanted false x = i
      wanted true none = i
      wanted true (some e) =
          then_do-keeps I (handlers (kind_of f) e p) _ (keeps (kind_of f) e p i) (λ _ p1 i1. i1)

  fields-keep :
      (p : Poll) (r : Reported) (err : Bool) (u : Option ℕ)
      → I p
      → I (process_one handlers p (record { reported = r; error = err; udata = u })).0
  unfolding process_one
  fields-keep p r true none i = i
  fields-keep p r true (some ref) i = process_error-keeps p ref i
  fields-keep p evfilt_user false u i = i
  fields-keep p (ready f) false none i = i
  fields-keep p (ready f) false (some ref) i = process_ready-keeps p ref f i

  process_loop-keeps :
      (ks : List Kevent) (p : Poll) (count : ℕ) → I p → I (process_loop handlers p count ks).0
  unfolding process_loop
  process_loop-keeps [] p count i = i
  process_loop-keeps (k ∷ ks) p count i =
      then_do-keeps I (process_one handlers p k) _ (fields-keep p k.reported k.error k.udata i)
        (λ n p1 i1. process_loop-keeps ks p1 (count + n) i1)

  pub process-keeps : (p : Poll) (ks : List Kevent) → I p → I (process handlers p ks).0
  unfolding process
  process-keeps p ks i =
      then_do-keeps I
        (process_loop handlers (record p { processing = true; closed_events = [] }) 0 ks) _
        (process_loop-keeps ks (record p { processing = true; closed_events = [] }) 0
          (steady.phase p true [] i))
        (λ count p1 i1. steady.phase p1 false [] i1)

  pub do_poll-keeps :
      (kevent : List Change → Timespec → Waited) (s : PollingState) (p : Poll) (t : ℕ)
      → I p
      → I (do_poll kevent handlers false s p t).0
  unfolding do_poll poll
  do_poll-keeps kevent s p t i = waited (kevent p.changes (time_to_wait s false (narrow t)))
    where
      waited :
          (x : Waited)
          → I
              (elim x as (λ _. Poll × Outcome ℕ) [
                | got ks ↦ process handlers (taken p) ks
                | failed interrupted ↦
                    if interrupted
                    then (taken p, returns 0)
                    else throw_error (taken p) "Poll::do_poll() error: "
              ]).0
      waited (got ks) = process-keeps (taken p) ks (steady.handed p i)
      waited (failed true) = steady.handed p i
      waited (failed false) = steady.handed p i
