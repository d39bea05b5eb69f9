-- ===== src/Demo/Tests.antt =====
-- Runs of the handlers of parent.cc and child.cc.
use shm_ipc.Base.{length, ◌+◌, none, true, false, ◌≡◌, refl, some, [], ◌∷◌, arith}
use shm_ipc.Base.Outcome.{returns, throws, runtime_error}
use shm_ipc.Memory.{load32, write_bytes}
use shm_ipc.Channel.{Channel, wrote}
use shm_ipc.Channel.Short.{Open}
use shm_ipc.Router.{Router, find, write}
use shm_ipc.Router.Reading.{process_reads}
use shm_ipc.Router.Deliver.{with_read}
use shm_ipc.Demo.{
  own_read, test_read, ChildHandler, child_on_read, child_invoke, parent_invoke, message_id,
}
use shm_ipc.Demo.Announce.{own_handler, test_handler}
use shm_ipc.Demo.Handshake.{fresh, channel_ids}
use shm_ipc.Event.{is_open, file_descriptor}
use shm_ipc.Fd.{Os, ok, fails, einval}
use shm_ipc.Factory.{RouterFactory, CreateArgs, create_parent_router, create_child_router}
use shm_ipc.Factory.Initialize.{Host}
use shm_ipc.Factory.Granted.{Grants}
use shm_ipc.Segment.{mapped}
use shm_ipc.Demo.Main.{start, attach}
use shm_ipc.Demo.Startup.{Started, start-Started}
use shm_ipc.Demo.Arrival.{write-arrives}
use shm_ipc.Poll.{no_flags}
use shm_ipc.Poll.Waiting.{failed, got, idle_state}
use shm_ipc.Control.Send.{shutdown_text}
use shm_ipc.Control.{frame, sent, send_shutdown_message, send_message_internal, send_loop}
use shm_ipc.Shutdown.{parent_verdict}
use shm_ipc.Shutdown.Protocol.{parent, System}
use shm_ipc.Poll.Links.{IsLinked, unchanged-IsSound}
use shm_ipc.Poll.Dispatch.{AreSound}
use shm_ipc.Demo.Linked.{IsFair}
use shm_ipc.Demo.Linked.{ExitLinked, process-Linked}
use shm_ipc.Demo.Loop.{parent_process, child_process, Process, Env, turn, send_shutdown}
use shm_ipc.Demo.Refine.{side_of, Ends}
use shm_ipc.Demo.Simulate.{turn-Simulated}
use shm_ipc.Demo.Moves.{Simulated}

abbrev unused : Channel
unused = record {
  size = 4032;
  write_threshold = 512;
  read_offset = 0;
  write_offset = 0;
  consumer_state = 0;
  mem = λ _. 0;
}

abbrev listening : ChildHandler
listening = record { id = 1; channels = [] }

unused-Open : Open unused []
unused-Open = record { valid = omega arith; run = refl; free = omega arith }

abbrev both_sides : Router
both_sides = record {
  read_channel = unused;
  write_channel = unused;
  next_id = 4;
  handlers = (1, own_handler) ∷ (2, test_handler 2) ∷ (3, test_handler 3) ∷ [];
}

-- A message of the wrong size.
wrong-size_run :
    (child_on_read listening (1 ∷ 2 ∷ 3 ∷ []) both_sides).2
    ≡ throws
        (runtime_error "CHILD:HANDLER: received message with invalid size for new channel message")
unfolding child_on_read
wrong-size_run = refl

-- An id that is taken is pushed onto the vector all the same, and throws.
taken_run :
    (child_on_read listening (2 ∷ 0 ∷ 0 ∷ 0 ∷ []) both_sides).0
    ≡ record { id = 1; channels = 2 ∷ [] }
unfolding child_on_read message_id load32 write_bytes
taken_run = refl

-- Whatever the parent's handler reads, it throws.
parent_run :
    (parent_invoke (record { handler = own_read; payload = 1 ∷ [] }) both_sides).1
    ≡ throws (runtime_error "PARENT:HANDLER: throwing error as test")
unfolding parent_invoke
parent_run = refl

write-arrives_example :
    let (p', result, woken) = write (returns tt) both_sides 2 2 (some (72 ∷ 105 ∷ [])) in
    (result ≡ returns (wrote 2))
    × (ch : Channel) × (process_reads 2
          (child_invoke listening)
          (with_read both_sides p'.write_channel)
        ≡ some (
          with_read both_sides ch,
          returns tt,
          record { handler = test_read 2; payload = 72 ∷ 105 ∷ [] } ∷ [],
        ))
    × Open ch []
unfolding find
write-arrives_example =
    write-arrives listening both_sides both_sides 2 2 (72 ∷ 105 ∷ []) 0 refl refl refl unused-Open
      (omega arith) (omega arith) (omega arith) (omega arith) (omega arith)

-- The parent in its loop behind a signal, with its control descriptor open.
abbrev signalled : Process
signalled = record {
  globals = record {
    should_shutdown = true;
    should_graceful_shutdown = false;
    should_forced_shutdown = false;
    control_fd_closed = false;
  };
  shutdown_timestamp = none;
  loop = record { i = 0; last_write = 0 };
  handler = record { id = 1; channels = channel_ids };
  router = both_sides;
  poll = record {
    events = λ e. record { fd = some e; poll_event = none };
    poll_events = λ _. record { mask = no_flags; event = none };
    next_poll_event = 0;
    table = λ _. none;
    changes = [];
    max_events = 8;
    processing = false;
    closed_events = [];
    applied = [];
  };
  outgoing = [];
  fds = record {
    control_fd = 3;
    wakeup_fd = 4;
    keepalive_fd = 5;
    read_segment = none;
    write_segment = none;
  };
}

-- The system takes what is sent, and gives no events.
abbrev calm : Env
calm = record {
  now = 7;
  now_due = 7;
  now_written = 7;
  now_timeout = 7;
  sends = sent 100 ∷ [];
  interrupt = returns tt;
  fuel = 2;
  kevent = λ _ _. got [];
  handlers = λ _ _ p. (p, returns tt);
  polling = idle_state;
  notes = [];
}

abbrev seen : System
seen = record { side = λ _. side_of signalled; notes = λ _. []; now = 7 }

-- It announces its shutdown.
turn_run :
    turn parent calm signalled
    ≡ some (
      record signalled {
        shutdown_timestamp = some 7;
        loop = record { i = 1; last_write = 0 };
        outgoing = frame (shutdown_text true);
      },
      returns false,
    )
unfolding is_open file_descriptor turn parent_verdict send_shutdown send_shutdown_message
    send_message_internal send_loop
turn_run = refl

turn-Simulated_run : Ends (Simulated parent seen signalled []) (turn parent calm signalled)
unfolding parent_verdict
turn-Simulated_run = turn-Simulated parent calm signalled seen [] refl refl refl

-- The kernel is interrupted in each wait.
abbrev interrupted : Env
interrupted = record calm { kevent = λ _ _. failed true }

calm-AreSound : AreSound calm.handlers
calm-AreSound k e p l = unchanged-IsSound p (returns tt) l refl

interrupted-IsFair : IsFair interrupted
interrupted-IsFair = record { sound = calm-AreSound; reported = λ cs t ks e. absurd (cc) }

signalled-IsLinked : IsLinked signalled.poll
signalled-IsLinked = record {
  named = λ ref h. absurd (cc);
  back = λ ref e h. absurd (cc);
  fresh = λ ref h. refl;
}

process-Linked_example :
    ExitLinked (
      parent_process
        (λ _. true)
        (returns tt)
        (returns tt)
        (interrupted ∷ interrupted ∷ [])
        signalled)
    × ExitLinked (child_process (λ _. true) (returns tt) (interrupted ∷ interrupted ∷ []) signalled)
process-Linked_example =
    process-Linked (λ _. true) (returns tt) refl (interrupted ∷ interrupted ∷ []) signalled
      (interrupted-IsFair, (interrupted-IsFair, tt)) signalled-IsLinked (returns tt)

-- A system that grants every call.
abbrev granting : Os
granting = record {
  answer = λ cs c. ok 0;
  answer_two = λ cs c. ok (length cs + 10, length cs + 11);
  answer_name = λ cs c. fails einval;
  calls = [];
  opened = [];
  errno = einval;
}

granting-Grants : Grants granting
granting-Grants = record {
  int = λ cs c. (0, refl);
  two = λ cs c. ((length cs + 10, length cs + 11), refl);
}

abbrev host : Host
host = record { mappings = []; channels = λ _. unused; os = granting }

start-Started_example :
    (h' : Host) × (f : RouterFactory) × (start (mapped 65536) (mapped 131072) host
      ≡ (h', returns f))
    × (p : CreateArgs) × ((create_parent_router (λ _. true) f).1 ≡ returns p)
    × (c : CreateArgs) × ((create_child_router (λ _. true) f).1 ≡ returns c)
    × (pr : Router) × (attach h'.channels p ≡ some pr)
    × (cr : Router) × (attach h'.channels c ≡ some cr)
    × (cr.read_channel ≡ pr.write_channel)
    × Started pr pr.read_channel pr.write_channel listening
start-Started_example =
    start-Started 65536 131072 host listening refl refl (λ e. omega (arith, e)) granting-Grants
