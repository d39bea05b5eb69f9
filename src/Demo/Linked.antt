-- ===== src/Demo/Linked.antt =====
-- The links of the poll under `parent_process` and `child_process`, from the first call to the last.
use shm_ipc.Base.{ℕ, ◌≡◌, refl, Bool, true, false, Option, List, [], ◌∷◌, ◌++◌, if◌then◌else◌}
use shm_ipc.Base.Outcome.{Outcome, returns, throws}
use shm_ipc.Router.Fds.{Fds, open_fds}
use shm_ipc.Router.Closing.{open_fds-IsSound, close_fds-IsSound}
use shm_ipc.Poll.{Change, Poll, throw_error}
use shm_ipc.Poll.Process.{Kevent, Handlers, process}
use shm_ipc.Poll.Links.{IsLinked, is_defined}
use shm_ipc.Poll.Dispatch.{AreSound, AreReported, process-IsLinked}
use shm_ipc.Poll.Waiting.{
  Timespec, Waited, got, failed, PollingState, poll, do_poll, time_to_wait, narrow,
}
use shm_ipc.Demo.Loop.{Process, Env, Exit, parent_process, child_process}
use shm_ipc.Demo.Turning.{Invariant, KeepsPoll, AllKeepPoll}
use shm_ipc.Demo.Ending.{AtExit, Opened, process-AtExit}

-- Handlers that use the poll by its operations, and events that the kernel reports.
pub record IsFair (env : Env) : Type 0 where
  pub sound : AreSound env.handlers
  pub reported :
      (cs : List Change) (t : Timespec) (ks : List Kevent)
      → env.kevent cs t ≡ got ks
      → AreReported ks

abbrev waited : Poll → Poll
waited p = record p { changes = []; applied = p.applied ++ p.changes }

waited_lem : (p : Poll) → IsLinked p → IsLinked (waited p)
waited_lem p l = record { named = l.named; back = l.back; fresh = l.fresh }

do_poll-IsLinked :
    (kevent : List Change → Timespec → Waited) (handlers : Handlers) (s : PollingState) (p : Poll)
    (t : ℕ)
    → AreSound handlers
    → ((cs : List Change) (t : Timespec) (ks : List Kevent) → kevent cs t ≡ got ks → AreReported ks)
    → IsLinked p
    → IsLinked (do_poll kevent handlers false s p t).0
unfolding do_poll poll
do_poll-IsLinked kevent handlers s p t sound reported l =
    elim (kevent p.changes (time_to_wait s false (narrow t)))
        as (λ w.
          ((ks : List Kevent) → w ≡ got ks → AreReported ks)
          → IsLinked
              (elim w as (λ _. Poll × Outcome ℕ) [
                | got ks ↦ process handlers (waited p) ks
                | failed interrupted ↦
                    if interrupted
                    then (waited p, returns 0)
                    else throw_error (waited p) "Poll::do_poll() error: "
              ]).0) [
                | got ks ↦ λ r.
                    (process-IsLinked handlers (waited p) ks sound (r ks refl) (waited_lem p l)).0
                | failed true ↦ λ r. waited_lem p l
                | failed false ↦ λ r. waited_lem p l
              ]
      (reported p.changes (time_to_wait s false (narrow t)))

abbrev pub AreFair : List Env → Type 0
AreFair [] = Unit {0}
AreFair (env ∷ envs) = IsFair env × AreFair envs

abbrev pub Links : Invariant
Links fds p = IsLinked p

IsFair-KeepsPoll : {env : Env} → IsFair env → KeepsPoll Links env
IsFair-KeepsPoll {env} f = record {
  polled =
      λ fds p t l. do_poll-IsLinked env.kevent env.handlers env.polling p t f.sound f.reported l;
  again = λ fds p l. (process-IsLinked env.handlers p [] f.sound tt l).0;
}

AreFair-AllKeepPoll : (envs : List Env) → AreFair envs → AllKeepPoll Links envs
AreFair-AllKeepPoll [] f = tt
AreFair-AllKeepPoll (env ∷ envs) f = (IsFair-KeepsPoll f.0, AreFair-AllKeepPoll envs f.1)

-- Where a process is, or has come to its end.
abbrev pub ExitLinked : Option Exit → Type 0
ExitLinked r = AtExit Links IsLinked r

Opened-Links :
    (fds : Fds) (x : Poll × Outcome (Unit {0})) → IsLinked x.0 → Opened Links IsLinked fds x
Opened-Links fds (p, throws e) l = l
Opened-Links fds (p, returns _) l = l

-- From the call of parent_process or child_process to its end, whatever the system does: if the
-- handlers of the events use the poll by its operations, the kernel reports what it was told to, and
-- fd_close follows no null pointer, then the links between events and PollEvents are kept, also
-- where the function throws.
pub process-Linked :
    (kevent : List Change → Bool) (fd_closed : Outcome (Unit {0}))
    → is_defined fd_closed ≡ true
    → (envs : List Env) (p : Process) → AreFair envs
    → IsLinked p.poll
    → (interrupt : Outcome (Unit {0}))
    → ExitLinked (parent_process kevent fd_closed interrupt envs p)
      × ExitLinked (child_process kevent fd_closed envs p)
process-Linked kevent fd_closed defined envs p fair l =
    process-AtExit Links IsLinked kevent fd_closed
      (λ fds p l. (close_fds-IsSound kevent fd_closed p fds defined l).linked) envs p
      (AreFair-AllKeepPoll envs fair) l
      (Opened-Links p.fds (open_fds kevent p.poll p.fds)
        (open_fds-IsSound kevent p.poll p.fds l).linked)
