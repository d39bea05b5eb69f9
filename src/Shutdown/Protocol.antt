-- ===== src/Shutdown/Protocol.antt =====
-- The two processes of parent.cc and child.cc side by side, with the messages on the control
-- descriptors between them.
use shm_ipc.Base.{ℕ, ◌+◌, ◌≡◌, Bool, true, false, Option, none, some, List, [], ◌∷◌, ◌++◌}
use shm_ipc.Shutdown.{
  Globals, do_signal_shutdown, handle_control_closed, handle_control_shutdown, Verdict, announces,
  leaves, leaves_forcefully, goes_on, parent_verdict, child_verdict,
}

pub data Who : Type 0 where
  parent child : Who

abbrev pub other : Who → Who
other parent = child
other child = parent

-- What a process finds on its control descriptor: a shutdown message, or the end.
pub data Note : Type 0 where
  shutdown : Bool → Note
  closed : Note

-- A process; it has `left` when it is out of its loop and has closed its descriptors.
pub record Side : Type 0 where
  pub globals : Globals
  pub shutdown_timestamp : Option ℕ
  pub left : Bool

-- `notes` are those that a process has not read yet.
pub record System : Type 0 where
  pub side : Who → Side
  pub notes : Who → List Note
  pub now : ℕ

abbrev pub set {ℓ} : {A : Type ℓ} → (Who → A) → Who → A → Who → A
set f parent a parent = a
set f parent a child = f child
set f child a child = a
set f child a parent = f parent

abbrev pub verdict : Who → Globals → Option ℕ → ℕ → Verdict
verdict parent = parent_verdict
verdict child = child_verdict

-- A process changes to `x` and sends some notes.
abbrev pub becomes : Who → Side → List Note → System → System
becomes w x sent s = record s {
  side = set s.side w x;
  notes = set s.notes (other w) (s.notes (other w) ++ sent);
}

abbrev pub apply : Who → Verdict → System → System
apply w goes_on s = s
apply w announces s =
    becomes w (record (s.side w) { shutdown_timestamp = some s.now }) (shutdown true ∷ []) s
apply w leaves s = becomes w (record (s.side w) { left = true }) (closed ∷ []) s
apply w leaves_forcefully s =
    becomes w (record (s.side w) { left = true }) (shutdown false ∷ closed ∷ []) s

-- The top of the loop.
abbrev pub take_turn : Who → System → System
take_turn w s = apply w (verdict w (s.side w).globals (s.side w).shutdown_timestamp s.now) s

-- The handlers of the control descriptor.
abbrev pub read_note : Note → Side → Side
read_note (shutdown graceful) x = record x { globals = handle_control_shutdown x.globals graceful }
read_note closed x = record x { globals = handle_control_closed x.globals }

abbrev pub read_all : List Note → Side → Side
read_all [] x = x
read_all (n ∷ ns) x = read_all ns (read_note n x)

abbrev pub deliver_all : Who → System → System
deliver_all w s = record s {
  side = set s.side w (read_all (s.notes w) (s.side w));
  notes = set s.notes w [];
}

pub data Step (s t : System) : Type 0 where
  tick : (n : ℕ) → t ≡ record s { now = s.now + n } → Step s t
  signal :
      (w : Who)
      → (s.side w).left ≡ false
      → t ≡ record s {
        side = set s.side w (record (s.side w) { globals = do_signal_shutdown (s.side w).globals });
      }
      → Step s t
  turn : (w : Who) → (s.side w).left ≡ false → t ≡ take_turn w s → Step s t
  -- An exception, such as that of a send to a closed descriptor: the loop is left by `catch`.
  fail : (w : Who) → (s.side w).left ≡ false → t ≡ apply w leaves s → Step s t
  deliver :
      (w : Who) (n : Note) (ns : List Note)
      → s.notes w ≡ n ∷ ns
      → t ≡ record s { side = set s.side w (read_note n (s.side w)); notes = set s.notes w ns }
      → Step s t

abbrev pub no_globals : Globals
no_globals = record {
  should_shutdown = false;
  should_graceful_shutdown = false;
  should_forced_shutdown = false;
  control_fd_closed = false;
}

abbrev pub started : System
started = record {
  side = λ w. record { globals = no_globals; shutdown_timestamp = none; left = false };
  notes = λ w. [];
  now = 0;
}

pub data Reach : System → Type 0 where
  start : Reach started
  next : {s t : System} → Reach s → Step s t → Reach t
