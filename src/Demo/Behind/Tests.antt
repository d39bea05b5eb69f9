-- ===== src/Demo/Behind/Tests.antt =====
-- The child gets a signal, and its message does not go through; the parent reads the end of the
-- control descriptor, and leaves.
use shm_ipc.Base.{◌≡◌, refl, true, false, none, some, [], ◌∷◌}
use shm_ipc.Base.Outcome.{Exception, returns, throws, internal_error}
use shm_ipc.Channel.{Channel}
use shm_ipc.Channel
use shm_ipc.Router.Reading
use shm_ipc.Event.{is_open, file_descriptor}
use shm_ipc.Poll.{no_flags}
use shm_ipc.Poll.Process.{process, process_loop}
use shm_ipc.Poll.Waiting.{got, idle_state, poll, do_poll}
use shm_ipc.Net.ByteOrder.{equal}
use shm_ipc.Control.Send.{shutdown_text}
use shm_ipc.Control.{
  sent, frame, event_read, read_fn, read_payload, dispatch, send_failed, send_shutdown_message,
  send_message_internal, send_loop,
}
use shm_ipc.Shutdown.{
  do_signal_shutdown, handle_control_closed, parent_verdict, child_verdict, poll_timeout,
}
use shm_ipc.Shutdown.Protocol.{parent, child, shutdown, closed, no_globals, System, Reach}
use shm_ipc.Demo.Loop.{
  Process, Env, turn, message, reads, poll_events, process_again, go_on, send_shutdown,
}
use shm_ipc.Demo.Wire.{notes_in}
use shm_ipc.Demo.Both.{Both, behind_turn, signalled, Begins, Runs, begin, next, signal, turns}
use shm_ipc.Demo.Behind.{Seen, Runs-Reach, Runs-leaves}

abbrev unused : Channel
unused = record {
  size = 4032;
  write_threshold = 512;
  read_offset = 0;
  write_offset = 0;
  consumer_state = 0;
  mem = λ _. 0;
}

abbrev waiting : Process
waiting = record {
  globals = no_globals;
  shutdown_timestamp = none;
  loop = record { i = 0; last_write = 0 };
  handler = record { id = 1; channels = [] };
  router = record { read_channel = unused; write_channel = unused; next_id = 2; handlers = [] };
  poll = record {
    events = λ e. record { fd = some e; poll_event = none };
    poll_events = λ _. record { mask = no_flags; event = none };
    next_poll_event = 0;
    table = λ _. none;
    changes = [];
    max_events = 8;
    processing = false;
    closed_events = [];
    applied = [];
  };
  outgoing = [];
  fds = record {
    control_fd = 3;
    wakeup_fd = 4;
    keepalive_fd = 5;
    read_segment = none;
    write_segment = none;
  };
}

abbrev both : Both
both = record { process = λ _. waiting; out = λ _. false; notes = λ _. []; now = 0 }

both-Begins : Begins both
both-Begins = record {
  no_flags = λ w. refl;
  no_stamp = λ w. refl;
  in_loop = λ w. refl;
  no_notes = λ w. refl;
  at_start = refl;
}

-- No message goes through, and nothing happens.
abbrev deaf : Env
deaf = record {
  now = 0;
  now_due = 0;
  now_written = 0;
  now_timeout = 0;
  sends = send_failed ∷ [];
  interrupt = returns tt;
  fuel = 2;
  kevent = λ _ _. got [];
  handlers = λ _ _ p. (p, returns tt);
  polling = idle_state;
  notes = [];
}

abbrev hearing : Env
hearing = record deaf { notes = closed ∷ [] }

abbrev refused : Process
refused = record waiting {
  globals = record no_globals { should_shutdown = true };
  shutdown_timestamp = some 0;
  loop = record { i = 1; last_write = 0 };
}

abbrev told : Process
told = record waiting {
  globals = record no_globals { should_shutdown = true; control_fd_closed = true };
  loop = record { i = 1; last_write = 0 };
}

abbrev not_sent : Exception
not_sent = internal_error "ControlFd::send_message_internal(): failed to send message: "

child_turn :
    turn child deaf ((signalled child both).process child) ≡ some (refused, throws not_sent)
unfolding is_open file_descriptor turn child_verdict send_shutdown send_shutdown_message
    send_message_internal send_loop do_signal_shutdown
child_turn = refl

parent_turn : turn parent hearing waiting ≡ some (told, returns false)
unfolding is_open file_descriptor turn parent_verdict go_on message reads poll_events process_again
    poll_timeout handle_control_closed Reading.process_reads_pre_polling
    Reading.process_reads_post_polling Reading.process_around Reading.process_reads
    Channel.read_header process process_loop poll do_poll
parent_turn = refl

abbrev behind_child : Both
behind_child = behind_turn child deaf [] refused (throws not_sent) (signalled child both)

abbrev behind_parent : Both
behind_parent = behind_turn parent hearing [] told (returns false) behind_child

behind_child-Runs : Runs behind_child
behind_child-Runs =
    next (next (begin both-Begins) (signal child refl refl))
      (turns child deaf [] refused (throws not_sent) refl refl refl child_turn refl)

behind_parent-Runs : Runs behind_parent
unfolding notes_in
behind_parent-Runs =
    next behind_child-Runs
      (turns parent hearing [] told (returns false) refl refl refl parent_turn refl)

-- Or the message goes through.
abbrev taking : Env
taking = record deaf { sends = sent 19 ∷ [] }

abbrev announced : Process
announced = record refused { outgoing = frame (shutdown_text true) }

announcing_turn :
    turn child taking ((signalled child both).process child) ≡ some (announced, returns false)
unfolding is_open file_descriptor turn child_verdict send_shutdown send_shutdown_message
    send_message_internal send_loop do_signal_shutdown
announcing_turn = refl

abbrev behind_announcement : Both
behind_announcement = behind_turn child taking [] announced (returns false) (signalled child both)

behind_announcement-notes : behind_announcement.notes parent ≡ shutdown true ∷ []
unfolding notes_in event_read read_fn read_payload dispatch equal
behind_announcement-notes = refl

behind_announcement-Runs : Runs behind_announcement
behind_announcement-Runs =
    next (next (begin both-Begins) (signal child refl refl))
      (turns child taking [] announced (returns false) refl refl refl announcing_turn refl)

Runs-Reach_example : (s : System) × Reach s × Seen behind_announcement s
Runs-Reach_example = Runs-Reach behind_announcement-Runs

Runs-leaves_example : turn parent deaf told ≡ some (told, returns true)
unfolding parent_verdict message reads Reading.process_reads_pre_polling Reading.process_around
    Reading.process_reads Channel.read_header
Runs-leaves_example = Runs-leaves parent behind_parent-Runs refl refl refl deaf
