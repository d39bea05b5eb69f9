-- ===== src/Router/Closing/Tests.antt =====
-- A run of the closing of a descriptor, as by router.cc.
use shm_ipc.Base.{◌≡◌, refl, ◌==◌, if◌then◌else◌, true, false, none, some, []}
use shm_ipc.Base.Outcome.{returns}
use shm_ipc.Poll.{no_flags, Filter, evfilt_read, evfilt_write, Poll, has}
use shm_ipc.Poll.Told.{Frame, Open, listens}
use shm_ipc.Poll.Closing.{Closed}
use shm_ipc.Router.Fds.{close_event}
use shm_ipc.Router.Closing.{close_event-Closed}

-- Event 1 has descriptor 5 and is open.
abbrev opened : Poll
opened = record {
  events = λ e.
      if e == 1
      then record { fd = some 5; poll_event = some 3 }
      else record { fd = none; poll_event = none };
  poll_events = λ r. record { mask = no_flags; event = if r == 3 then some 1 else none };
  next_poll_event = 4;
  table = λ n. if n == 5 then some 3 else none;
  changes = [];
  max_events = 1024;
  processing = false;
  closed_events = [];
  applied = [];
}

opened-Open : Open opened 1 5 3
unfolding listens
opened-Open = record {
  has_fd = refl;
  has_poll_event = refl;
  in_table = refl;
  knows = refl;
  listening = silent;
}
  where
    silent : (f : Filter) → false ≡ has f no_flags
    silent evfilt_read = refl
    silent evfilt_write = refl

close_event-Closed_example :
    (p' : Poll) × (close_event (λ cs. true) (returns tt) opened 1 ≡ (p', returns tt))
    × Closed 1 5 p'
    × ((p'.events 1).fd ≡ none)
    × (close_event (λ cs. true) (returns tt) p' 1 ≡ (p', returns tt))
    × Frame 1 5 3 opened p'
close_event-Closed_example = close_event-Closed (λ cs. true) (λ cs. refl) opened-Open
