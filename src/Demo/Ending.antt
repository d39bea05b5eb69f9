-- ===== src/Demo/Ending.antt =====
-- `parent_process` and `child_process` from the first call to the last: what holds of the poll where
-- they end, from what a turn keeps.
use shm_ipc.Base.{ℕ, Bool, Option, none, some, List, [], ◌∷◌}
use shm_ipc.Base.Outcome.{Outcome, Exception, returns, throws}
use shm_ipc.Router.{Router}
use shm_ipc.Router.Fds.{Fds, open_fds, close_fds}
use shm_ipc.Poll.{Change, Poll}
use shm_ipc.Shutdown.Protocol.{Who, parent, child}
use shm_ipc.Demo.{open_channels, open_child}
use shm_ipc.Demo.Loop.{
  Process, Env, run, Ended, running, left, thrown, Exit, closing, with_handler, still, exits,
  finish, run_open, parent_process, child_process,
}
use shm_ipc.Demo.Turning.{Invariant, Of, AllKeepPoll, AtEnd, run-Keeps}

-- `I` holds of a process that is in its loop, and `E` of the poll where the function has ended.
abbrev pub AtExit : Invariant → (Poll → Type 0) → Option Exit → Type 0
AtExit I E none = Unit {0}
AtExit I E (some (still p)) = Of I p
AtExit I E (some (exits (p, o))) = E p.poll

-- What `open_fds` leaves, whether it returns or throws.
abbrev pub Opened : Invariant → (Poll → Type 0) → Fds → Poll × Outcome (Unit {0}) → Type 0
Opened I E fds (p, throws e) = E p
Opened I E fds (p, returns _) = I fds p

module _ (I : Invariant) (E : Poll → Type 0) (kevent : List Change → Bool)
    (fd_closed : Outcome (Unit {0}))
    (closes : (fds : Fds) (p : Poll) → I fds p → E (close_fds kevent fd_closed p fds).0) where
  closing-AtExit :
      (p : Process) (held : Option Exception) (x : Poll × Outcome (Unit {0}))
      → E x.0
      → E (closing p held x).0.poll
  closing-AtExit p held (poll', throws e) l = l
  closing-AtExit p none (poll', returns _) l = l
  closing-AtExit p (some e) (poll', returns _) l = l

  finish-AtExit : (r : Option Ended) → AtEnd I r → AtExit I E (finish kevent fd_closed r)
  finish-AtExit none h = tt
  finish-AtExit (some (running p)) h = h
  finish-AtExit (some (left p)) h =
      closing-AtExit p none (close_fds kevent fd_closed p.poll p.fds) (closes p.fds p.poll h)
  finish-AtExit (some (thrown p e)) h =
      closing-AtExit p (some e) (close_fds kevent fd_closed p.poll p.fds) (closes p.fds p.poll h)

  module _ (envs : List Env) (p : Process) (keep : AllKeepPoll I envs) (before : E p.poll)
      (opened : Opened I E p.fds (open_fds kevent p.poll p.fds)) where
    run_open-AtExit :
        (w : Who) (p' : Process) (x : Poll × Outcome (Unit {0}))
        → Opened I E p'.fds x
        → AtExit I E (run_open w kevent fd_closed envs p' x)
    run_open-AtExit w p' (poll', throws e) o = o
    run_open-AtExit w p' (poll', returns _) o =
        finish-AtExit (run w envs (record p' { poll = poll' }))
          (run-Keeps I w envs (record p' { poll = poll' }) keep o)

    parent_process-AtExit :
        (interrupt : Outcome (Unit {0}))
        → AtExit I E (parent_process kevent fd_closed interrupt envs p)
    unfolding parent_process
    parent_process-AtExit interrupt = next (open_channels interrupt p.router)
      where
        next :
            (r : Option (Router × Outcome (ℕ × ℕ)))
            → AtExit I E (elim r as (λ _. Option Exit) [
              | none ↦ none
              | some (r, throws e) ↦ some (exits (record p { router = r }, throws e))
              | some (r, returns (id_1, id_2)) ↦
                  let p' : Process = with_handler p r (id_1 ∷ id_2 ∷ []) in
                  run_open parent kevent fd_closed envs p' (open_fds kevent p'.poll p'.fds)
            ])
        next none = tt
        next (some (r, throws e)) = before
        next (some (r, returns (id_1, id_2))) =
            run_open-AtExit parent (with_handler p r (id_1 ∷ id_2 ∷ [])) _ opened

    child_process-AtExit : AtExit I E (child_process kevent fd_closed envs p)
    unfolding child_process
    child_process-AtExit = next (open_child p.router)
      where
        next :
            (x : Router × Outcome (Unit {0}))
            → AtExit I E (elim x.1 as (λ _. Option Exit) [
              | throws e ↦ some (exits (record p { router = x.0 }, throws e))
              | returns _ ↦
                  let p' : Process = with_handler p x.0 [] in
                  run_open child kevent fd_closed envs p' (open_fds kevent p'.poll p'.fds)
            ])
        next (r, throws e) = before
        next (r, returns _) = run_open-AtExit child (with_handler p r []) _ opened

    pub process-AtExit :
        (interrupt : Outcome (Unit {0}))
        → AtExit I E (parent_process kevent fd_closed interrupt envs p)
          × AtExit I E (child_process kevent fd_closed envs p)
    process-AtExit interrupt = (parent_process-AtExit interrupt, child_process-AtExit)
