-- ===== src/Shutdown/Tests.antt =====
-- A run of both processes of parent.cc and child.cc.
use shm_ipc.Base.{◌+◌, ◌≡◌, refl, true, [], arith}
use shm_ipc.Shutdown.{do_signal_shutdown, handle_control_shutdown, parent_verdict, child_verdict}
use shm_ipc.Shutdown.Protocol.{
  parent, child, shutdown, System, set, read_note, take_turn, deliver_all, started, Reach, start,
  next, signal, turn, tick, deliver,
}
use shm_ipc.Shutdown.Leaving.{Reach-leaves}
use shm_ipc.Shutdown.Deadline.{Reach-deadline}

-- The parent gets a signal,
abbrev signalled : System
signalled = record started {
  side =
      set started.side parent (record (started.side parent) {
        globals = do_signal_shutdown (started.side parent).globals;
      });
}

-- and announces its shutdown to the child;
abbrev announced : System
announced = take_turn parent signalled

-- six seconds pass;
abbrev late : System
late = record announced { now = announced.now + 6000000 }

-- or the child reads of it,
abbrev informed : System
informed = record announced {
  side = set announced.side child (read_note (shutdown true) (announced.side child));
  notes = set announced.notes child [];
}

-- and leaves.
abbrev alone : System
alone = take_turn child informed

Reach-announced : Reach announced
Reach-announced = next (next start (signal parent refl refl)) (turn parent refl refl)

Reach-late : Reach late
Reach-late = next Reach-announced (tick 6000000 refl)

Reach-alone : Reach alone
unfolding parent_verdict do_signal_shutdown
Reach-alone =
    next (next Reach-announced (deliver child (shutdown true) [] refl refl)) (turn child refl refl)

Reach-deadline_example : ((take_turn parent late).side parent).left ≡ true
unfolding parent_verdict do_signal_shutdown
Reach-deadline_example = Reach-deadline parent 0 Reach-late refl (omega arith)

Reach-leaves_run : ((take_turn parent (deliver_all parent alone)).side parent).left ≡ true
unfolding parent_verdict child_verdict do_signal_shutdown handle_control_shutdown
Reach-leaves_run = Reach-leaves parent Reach-alone refl refl
