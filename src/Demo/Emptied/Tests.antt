-- ===== src/Demo/Emptied/Tests.antt =====
-- A process whose control descriptor is closed by its handler, as by handle_control_closed.
use shm_ipc.Base.{refl, Bool, true, false, none, some, List, [], ◌∷◌, arith}
use shm_ipc.Base.Outcome.{returns}
use shm_ipc.Channel.{Channel}
use shm_ipc.Poll.{Change, evfilt_read, no_flags}
use shm_ipc.Poll.Told.{listens}
use shm_ipc.Poll.Process.{Handlers, ready}
use shm_ipc.Poll.Waiting.{got, idle_state}
use shm_ipc.Poll.Keeping.{AllKeep}
use shm_ipc.Control.{sent}
use shm_ipc.Router.Fds.{close_event}
use shm_ipc.Router.Ours.{IsOurs, close_event-IsOurs}
use shm_ipc.Router.Opening.{IsReady}
use shm_ipc.Shutdown.Protocol.{no_globals, closed}
use shm_ipc.Demo.Loop.{Process, Env, parent_process, child_process}
use shm_ipc.Demo.Ending.{AtExit}
use shm_ipc.Demo.Emptied.{Ours, Destructs, process-Destructs}

abbrev unused : Channel
unused = record {
  size = 4032;
  write_threshold = 512;
  read_offset = 0;
  write_offset = 0;
  consumer_state = 0;
  mem = λ _. 0;
}

abbrev starting : Process
starting = record {
  globals = no_globals;
  shutdown_timestamp = none;
  loop = record { i = 0; last_write = 0 };
  handler = record { id = 1; channels = [] };
  router = record { read_channel = unused; write_channel = unused; next_id = 2; handlers = [] };
  poll = record {
    events = λ e. record { fd = some e; poll_event = none };
    poll_events = λ _. record { mask = no_flags; event = none };
    next_poll_event = 0;
    table = λ _. none;
    changes = [];
    max_events = 8;
    processing = false;
    closed_events = [];
    applied = [];
  };
  outgoing = [];
  fds = record {
    control_fd = 3;
    wakeup_fd = 4;
    keepalive_fd = 5;
    read_segment = none;
    write_segment = none;
  };
}

abbrev takes_all : List Change → Bool
takes_all cs = true

starting-IsReady : IsReady starting.poll starting.fds
unfolding listens
starting-IsReady = record {
  control_number = 3;
  has_control = refl;
  wakeup_number = 4;
  has_wakeup = refl;
  other_number = omega arith;
  other_event = omega arith;
  new_control = refl;
  new_wakeup = refl;
  empty = λ n. refl;
  silent = λ n f. refl;
  linked = record {
    named = λ ref h. absurd (cc);
    back = λ ref e h. absurd (cc);
    fresh = λ ref h. refl;
  };
}

abbrev hangs_up : Handlers
hangs_up k e p = close_event takes_all (returns tt) p 3

hangs_up-AllKeep : AllKeep (IsOurs 3 4) hangs_up
hangs_up-AllKeep k e p o =
    let (p', same, o', gone, others) =
      close_event-IsOurs takes_all (λ cs. refl) 3 4 (omega arith) p o in
    rw same o'

-- The control descriptor is readable, and its end is read.
abbrev hanging_up : Env
hanging_up = record {
  now = 7;
  now_due = 7;
  now_written = 7;
  now_timeout = 7;
  sends = sent 100 ∷ [];
  interrupt = returns tt;
  fuel = 2;
  kevent = λ _ _. got (record { reported = ready evfilt_read; error = false; udata = some 0 } ∷ []);
  handlers = hangs_up;
  polling = idle_state;
  notes = closed ∷ [];
}

process-Destructs_example :
    AtExit
      (Ours 3 4)
      Destructs
      (parent_process takes_all (returns tt) (returns tt) (hanging_up ∷ hanging_up ∷ []) starting)
    × AtExit
        (Ours 3 4)
        Destructs
        (child_process takes_all (returns tt) (hanging_up ∷ hanging_up ∷ []) starting)
process-Destructs_example =
    process-Destructs takes_all (λ cs. refl) (hanging_up ∷ hanging_up ∷ []) starting
      starting-IsReady (hangs_up-AllKeep, (hangs_up-AllKeep, tt)) (returns tt)
