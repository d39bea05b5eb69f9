-- ===== src/Demo/Both.antt =====
-- `parent_process` and `child_process` side by side: their turns as they are in Demo/Loop, one behind
-- the other in any order, with the messages of the control descriptors between them.
use shm_ipc.Base.{ℕ, ◌+◌, ◌≡◌, Bool, false, none, some, List, [], ◌++◌}
use shm_ipc.Base.Outcome.{Outcome}
use shm_ipc.Shutdown.{do_signal_shutdown}
use shm_ipc.Shutdown.Protocol.{Who, other, Note, set, verdict, no_globals}
use shm_ipc.Demo.Loop.{Process, Env, turn}
use shm_ipc.Demo.Moves.{is_out, posted, unread}

-- A process is `out` when it has left its loop, also by an exception; `notes` are those that it has
-- not read yet.
pub record Both : Type 0 where
  pub process : Who → Process
  pub out : Who → Bool
  pub notes : Who → List Note
  pub now : ℕ

-- Behind a turn of `w` that left `p` and ended with `o`.
abbrev pub behind_turn : Who → Env → List Note → Process → Outcome Bool → Both → Both
behind_turn w env rest p o b =
    let q = b.process w in
    let v = verdict w q.globals q.shutdown_timestamp env.now in
    record b {
      process = set b.process w p;
      out = set b.out w (is_out o);
      notes =
          set (set b.notes w (unread w env q v rest (b.notes w))) (other w)
            (b.notes (other w) ++ posted q p o);
    }

abbrev pub signalled : Who → Both → Both
signalled w b = record b {
  process =
      set b.process w (record (b.process w) { globals = do_signal_shutdown (b.process w).globals });
}

pub data Move (b b' : Both) : Type 0 where
  tick : (n : ℕ) → b' ≡ record b { now = b.now + n } → Move b b'
  signal : (w : Who) → b.out w ≡ false → b' ≡ signalled w b → Move b b'
  -- The messages that the handlers of the control descriptor read are those in front.
  turns :
      (w : Who) (env : Env) (rest : List Note) (p : Process) (o : Outcome Bool)
      → b.out w ≡ false
      → b.now ≡ env.now
      → b.notes w ≡ env.notes ++ rest
      → turn w env (b.process w) ≡ some (p, o)
      → b' ≡ behind_turn w env rest p o b
      → Move b b'

-- Both stand in front of their loops; what else they are is open.
pub record Begins (b : Both) : Type 0 where
  pub no_flags : (w : Who) → (b.process w).globals ≡ no_globals
  pub no_stamp : (w : Who) → (b.process w).shutdown_timestamp ≡ none
  pub in_loop : (w : Who) → b.out w ≡ false
  pub no_notes : (w : Who) → b.notes w ≡ []
  pub at_start : b.now ≡ 0

pub data Runs : Both → Type 0 where
  begin : {b : Both} → Begins b → Runs b
  next : {b b' : Both} → Runs b → Move b b' → Runs b'
