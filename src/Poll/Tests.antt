-- ===== src/Poll/Tests.antt =====
-- Runs of poll_kqueue.cc.
use shm_ipc.Base.{
  take, drop, ◌≡◌, refl, Bool, true, false, ◌==◌, none, some, List, [], ◌∷◌, ◌++◌, if◌then◌else◌, ℕ,
  ◌+◌, ◌*◌, ◌^◌, ◌<◌, ◌≤◌, min, arith,
}
use shm_ipc.Base.Outcome.{Outcome, returns}
use shm_ipc.Poll.{
  then_do, no_flags, Filter, evfilt_read, evfilt_write, Change, Poll, update, has, open_event,
  insert_filter, remove_and_close,
}
use shm_ipc.Poll.Listening.{Leaves, insert_filter-Open}
use shm_ipc.Poll.Told.{Open, listens}
use shm_ipc.Poll.Process.{
  Kevent, ready, evfilt_user, Handlers, Kind, process_one, process_loop, process, start_processing,
  end_processing,
}
use shm_ipc.Poll.Uses.{Use, finished, uses, removes_and_closes, using}
use shm_ipc.Poll.Holding.{process_loop-Held}
use shm_ipc.Poll.Links.{IsLinked, Held, is_defined}
use shm_ipc.Poll.Sound.{open_event-IsSound, remove_and_close-IsSound}
use shm_ipc.Poll.Dispatch.{AreSound, AreReported, process-IsLinked, process_one-closed}
use shm_ipc.Poll.Waiting.{begin_polling, do_interrupt, pos, negsuc, timespec, time_to_wait, narrow}
use shm_ipc.Poll.Interrupts.{
  Round, outside, interrupted_by, enter, interrupt, Reach, start, next, Reach-pokes, Reach-lost,
  timespec-narrow,
}

abbrev takes_all : List Change → Bool
takes_all cs = true

-- Event 1 has descriptor 5.
abbrev idle : Poll
idle = record {
  events = λ e. record { fd = if e == 1 then some 5 else none; poll_event = none };
  poll_events = λ r. record { mask = no_flags; event = none };
  next_poll_event = 3;
  table = λ n. none;
  changes = [];
  max_events = 1024;
  processing = false;
  closed_events = [];
  applied = [];
}

abbrev opened : Poll
opened = record idle {
  poll_events = update idle.poll_events 3 (record { mask = no_flags; event = some 1 });
  next_poll_event = 4;
  events = update idle.events 1 (record { fd = some 5; poll_event = some 3 });
  table = update idle.table 5 (some 3);
}

idle-silent : (f : Filter) → listens false [] 5 f ≡ false
unfolding listens
idle-silent f = refl

opened-Open : Open opened 1 5 3
unfolding listens
opened-Open = record {
  has_fd = refl;
  has_poll_event = refl;
  in_table = refl;
  knows = refl;
  listening = silent;
}
  where
    silent : (f : Filter) → false ≡ has f no_flags
    silent evfilt_read = refl
    silent evfilt_write = refl

insert_filter-Open_example :
    Leaves opened 1 5 3
      (record no_flags { read = true })
      (insert_filter takes_all evfilt_read opened 1)
insert_filter-Open_example = insert_filter-Open takes_all evfilt_read (λ cs. refl) opened-Open

idle-IsLinked : IsLinked idle
idle-IsLinked = record {
  named = λ ref h. absurd (ground (arith, h));
  back = λ ref e h. absurd (ground (arith, h));
  fresh = λ ref h. refl;
}

opened-IsLinked : IsLinked opened
unfolding open_event
opened-IsLinked = (open_event-IsSound idle 1 idle-IsLinked).linked

-- Every handler lets go of its event.
abbrev closing : Handlers
closing k e p = remove_and_close takes_all p e

closing-AreSound : AreSound closing
closing-AreSound k e p l = remove_and_close-IsSound takes_all p e l

-- The descriptor is readable, then writable, and there is a poke between.
abbrev batch : List Kevent
batch =
    record { reported = ready evfilt_read; error = false; udata = some 3 }
    ∷ (record { reported = evfilt_user; error = false; udata = none }
        ∷ (record { reported = ready evfilt_write; error = false; udata = some 3 } ∷ []))

batch-AreReported : AreReported batch
batch-AreReported = (
  λ q. absurd (ground (arith, q)),
  ((λ _. (refl, refl)), ((λ q. absurd (ground (arith, q))), tt)),
)

abbrev reading : Poll
reading = record opened {
  poll_events =
      update opened.poll_events 3
        (record { mask = record no_flags { read = true }; event = some 1 });
}

reading-IsLinked : IsLinked reading
reading-IsLinked =
    let l = opened-IsLinked in
    record {
      named = λ ref h. ground (arith, h, l.named ref);
      back = λ ref e h. ground (arith, h, l.back ref e);
      fresh = λ ref h. ground (arith, h, l.fresh ref);
    }

process-IsLinked_example :
    let out = process closing reading batch in
    IsLinked out.0
    × (is_defined out.1 ≡ true)
    × ((n : ℕ) → out.1 ≡ returns n → (out.0.processing ≡ false) × (out.0.closed_events ≡ []))
process-IsLinked_example =
    process-IsLinked closing reading batch closing-AreSound batch-AreReported reading-IsLinked

-- The same handler as a program of operations.
abbrev letting_go : Kind → ℕ → Poll → Use
letting_go k e p = uses removes_and_closes e (λ _. finished)

-- Behind the first two of the events.
abbrev reached : Poll × Outcome ℕ
reached = process_loop (using takes_all letting_go) (start_processing reading) 0 (take 2 batch)

process_loop-Held_example :
    (process (using takes_all letting_go) reading (take 2 batch ++ drop 2 batch)
      ≡ then_do
          (then_do reached
            (λ count p1. process_loop (using takes_all letting_go) p1 count (drop 2 batch)))
          end_processing)
    × Held reached.0 3
process_loop-Held_example =
    process_loop-Held takes_all letting_go reading (take 2 batch) (drop 2 batch) 3 1
      batch-AreReported reading-IsLinked refl

process_one-closed_example :
    let p' = (remove_and_close takes_all opened 1).0 in
    process_one closing p' (record { reported = ready evfilt_read; error = false; udata = some 3 })
    ≡ (p', returns 0)
process_one-closed_example =
    process_one-closed takes_all closing opened 1 5 3 (ready evfilt_read) false (λ cs. refl)
      opened-IsLinked opened-Open

abbrev entered : Round
entered = record {
  state = record { polling = true; interrupted = false };
  inside = true;
  asked = 0;
  pokes = 0;
}

abbrev interrupted_twice : Round
interrupted_twice = record {
  state = record { polling = true; interrupted = true };
  inside = true;
  asked = 2;
  pokes = 1;
}

Reach-interrupted_twice : Reach interrupted_twice
unfolding do_interrupt begin_polling
Reach-interrupted_twice =
    next (next (next start (enter outside refl)) (interrupt entered))
      (interrupt (interrupted_by entered (do_interrupt entered.state)))

Reach-pokes_example : interrupted_twice.pokes ≡ min 1 interrupted_twice.asked
Reach-pokes_example = Reach-pokes Reach-interrupted_twice refl

Reach-lost_example :
    (do_interrupt outside.state ≡ (outside.state, false))
    × (time_to_wait (do_interrupt outside.state).0 false (pos 500) ≡ timespec (pos 500))
Reach-lost_example = Reach-lost false (pos 500) start refl

timespec-narrow_example :
    (2500000 < 2 ^ 31
      → (sec nsec : ℕ) × (timespec (narrow 2500000) ≡ record { sec = pos sec; nsec = pos nsec })
        × (nsec < 1000000000)
        × (sec * 1000000000 + nsec ≡ 2500000 * 1000))
    × (2 ^ 31 ≤ 2500000
        → 2500000 + 1000000 ≤ 2 ^ 32
        → (sec : ℕ) × ((timespec (narrow 2500000)).sec ≡ negsuc sec))
timespec-narrow_example = timespec-narrow 2500000
