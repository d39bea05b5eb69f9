-- ===== src/Thread.antt =====
-- torrent/system/thread.h: a stub, whose functions are called by Poll::poll and Poll::process.
use shm_ipc.Base.{Bool, false, Option, none}

-- `self()` is a null pointer; an object would have no state.
abbrev pub self : Option (Unit {0})
self = none

abbrev pub has_interrupt_callbacks : Bool
has_interrupt_callbacks = false

abbrev pub has_any_callbacks : Bool
has_any_callbacks = false

abbrev pub process_callbacks : Bool → Unit {0}
process_callbacks only_interrupt = tt
