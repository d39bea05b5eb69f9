-- ===== src/Demo/Turning.antt =====
-- What a turn of `parent_process` and `child_process` keeps of the poll.
use shm_ipc.Base.{
  ℕ, Bool, true, false, Option, none, some, List, [], ◌∷◌, ◌++◌, ltb, Bool-cases, Option-cases, inl,
  inr, length,
}
use shm_ipc.Base.Outcome.{Outcome, returns, throws}
use shm_ipc.Channel.{WriteResult, wrote, again}
use shm_ipc.Router.{Router, write}
use shm_ipc.Router.Fds.{Fds}
use shm_ipc.Router.Reading.{Invoke, Round}
use shm_ipc.Poll.{Poll}
use shm_ipc.Poll.Process.{process}
use shm_ipc.Poll.Waiting.{do_poll}
use shm_ipc.Control.{Sent, send_shutdown_message}
use shm_ipc.Shutdown.{is_due, skipped, Verdict, leaves, announces, leaves_forcefully, goes_on}
use shm_ipc.Shutdown.Protocol.{Who, verdict}
use shm_ipc.Demo.Loop.{
  Process, Env, M, run, Ended, running, left, thrown, ◌>>=◌, pure, message, reads, poll_events,
  process_again, go_on, act, turn, send_shutdown, control_is_open, behind_write, interval, target,
  text, invoke, called,
}
use shm_ipc.Demo.Refine.{Ends, Ends-bind}

-- What is said of the poll, for the descriptors of the router.
abbrev pub Invariant : Type 1
Invariant = Fds → Poll → Type 0

abbrev pub Of : Invariant → Process → Type 0
Of I p = I p.fds p.poll

-- It holds of what an action leaves.
abbrev pub Kept : Invariant → {A : Type 0} → Option (Process × Outcome A) → Type 0
Kept I r = Ends (λ p' o. Of I p') r

abbrev pub Keeps : Invariant → {A : Type 0} → M A → Type 0
Keeps I m = (p : Process) → Of I p → Kept I (m p)

-- What a system does in a turn keeps it.
pub record KeepsPoll (I : Invariant) (env : Env) : Type 0 where
  pub polled :
      (fds : Fds) (p : Poll) (t : ℕ)
      → I fds p
      → I fds (do_poll env.kevent env.handlers false env.polling p t).0
  pub again : (fds : Fds) (p : Poll) → I fds p → I fds (process env.handlers p []).0

>>=-Keeps :
    (I : Invariant) {A B : Type 0} (m : M A) (f : A → M B)
    → Keeps I m
    → ((a : A) → Keeps I (f a))
    → Keeps I (m >>= f)
>>=-Keeps I m f k h p l =
    Ends-bind (λ p' o. Of I p') (λ p' o. Of I p') m f p (k p l) (λ p' a l'. h a p' l')
      (λ p' e l'. l')

pure-Keeps : (I : Invariant) {A : Type 0} (a : A) → Keeps I (pure a)
pure-Keeps I a p l = l

message-Keeps : (I : Invariant) (w : Who) (env : Env) → Keeps I (message w env)
unfolding message
message-Keeps I w env p l = elim (Bool-cases (is_due (interval w) p.loop env.now_due)) [
  | inl due ↦ elim (Option-cases (target w p.handler.channels p.loop.i)) [
    | inl no_one ↦ rw (due, no_one) l
    | inr (id, someone) ↦
        rw (due, someone)
          (written (write env.interrupt p.router id (length (text w)) (some (text w))))
  ]
  | inr early ↦ rw early l
]
  where
    written : (x : Router × Outcome WriteResult × Bool) → Kept I (behind_write env p x)
    written (r, throws e, woken) = l
    written (r, returns again, woken) = l
    written (r, returns (wrote n), woken) = l

reads-Keeps : (I : Invariant) (w : Who) (f : Invoke → Router → Option Round) → Keeps I (reads w f)
unfolding reads
reads-Keeps I w f p l =
    elim (f (invoke w p) p.router)
      as (λ x. Kept I (elim x as (λ _. Option (Process × Outcome (Unit {0}))) [
        | none ↦ none
        | some (r, result, calls) ↦
            some (record p { router = r; handler = called w r calls p.handler }, result)
      ])) [ none ↦ tt | some (r, result, calls) ↦ l ]

send_shutdown-Keeps :
    (I : Invariant) (sends : List Sent) (graceful : Bool) → Keeps I (send_shutdown sends graceful)
unfolding send_shutdown
send_shutdown-Keeps I sends graceful p l =
    elim (send_shutdown_message sends (control_is_open p) graceful)
      as (λ x. Kept I (elim x as (λ _. Option (Process × Outcome (Unit {0}))) [
        | none ↦ none
        | some (result, bytes) ↦ some (record p { outgoing = p.outgoing ++ bytes }, result)
      ])) [ none ↦ tt | some (result, bytes) ↦ l ]

module _ (I : Invariant) (w : Who) (env : Env) (keeps : KeepsPoll I env) where
  poll_events-Keeps : Keeps I (poll_events w env)
  unfolding poll_events
  poll_events-Keeps p l = keeps.polled p.fds p.poll _ l

  process_again-Keeps : (count : ℕ) → Keeps I (process_again env count)
  unfolding process_again
  process_again-Keeps count p l = elim (Bool-cases (ltb 0 count)) [
    | inl more ↦ rw more (keeps.again p.fds p.poll l)
    | inr none_left ↦ rw none_left l
  ]

  go_on-Keeps : Keeps I (go_on w env)
  unfolding go_on
  go_on-Keeps = >>=-Keeps I _ _ (message-Keeps I w env) λ _.
      >>=-Keeps I _ _ (reads-Keeps I w _) λ _. >>=-Keeps I _ _ poll_events-Keeps λ count.
        >>=-Keeps I _ _ (reads-Keeps I w _)
          λ _. >>=-Keeps I _ _ (process_again-Keeps count) λ _. pure-Keeps I false

  act-Keeps : (v : Verdict) → Keeps I (act w env v)
  act-Keeps leaves p l = l
  act-Keeps announces p l =
      >>=-Keeps I _ _ (send_shutdown-Keeps I env.sends true) (λ _. pure-Keeps I false)
        (record p { shutdown_timestamp = some env.now; loop = skipped p.loop }) l
  act-Keeps leaves_forcefully p l =
      >>=-Keeps I _ _ (send_shutdown-Keeps I env.sends false) (λ _. pure-Keeps I true) p l
  act-Keeps goes_on p l = go_on-Keeps p l

  pub turn-Keeps : Keeps I (turn w env)
  unfolding turn
  turn-Keeps p l = act-Keeps (verdict w p.globals p.shutdown_timestamp env.now) p l

abbrev pub AllKeepPoll : Invariant → List Env → Type 0
AllKeepPoll I [] = Unit {0}
AllKeepPoll I (env ∷ envs) = KeepsPoll I env × AllKeepPoll I envs

abbrev pub AtEnd : Invariant → Option Ended → Type 0
AtEnd I none = Unit {0}
AtEnd I (some (running p)) = Of I p
AtEnd I (some (left p)) = Of I p
AtEnd I (some (thrown p e)) = Of I p

pub run-Keeps :
    (I : Invariant) (w : Who) (envs : List Env) (p : Process)
    → AllKeepPoll I envs
    → Of I p
    → AtEnd I (run w envs p)
unfolding run
run-Keeps I w [] p keep l = l
run-Keeps I w (env ∷ envs) p keep l =
    next (λ p' h. run-Keeps I w envs p' keep.1 h) (turn w env p) (turn-Keeps I w env keep.0 p l)
  where
    next :
        ((p' : Process) → Of I p' → AtEnd I (run w envs p'))
        → (r : Option (Process × Outcome Bool)) → Kept I r
        → AtEnd I (elim r as (λ _. Option Ended) [
          | none ↦ none
          | some (p', throws e) ↦ some (thrown p' e)
          | some (p', returns true) ↦ some (left p')
          | some (p', returns false) ↦ run w envs p'
        ])
    next more none h = tt
    next more (some (p', throws e)) h = h
    next more (some (p', returns true)) h = h
    next more (some (p', returns false)) h = more p' h
