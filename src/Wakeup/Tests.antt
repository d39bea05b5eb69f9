-- ===== src/Wakeup/Tests.antt =====
-- Runs of wakeup_fd.cc.
use shm_ipc.Base.{◌≡◌, refl, true, false, none, some, [], ◌∷◌}
use shm_ipc.Base.Outcome.{returns}
use shm_ipc.Wakeup.{WakeupFd, bytes, interrupted, close, event_read}
use shm_ipc.Wakeup.EventFd.{send_interrupt_event, send_event_loop, read_event}

abbrev fresh : WakeupFd
fresh = record { fd = none; polling = false; closed = [] }

abbrev polled : WakeupFd
polled = record { fd = some 7; polling = true; closed = [] }

eof :
    event_read (returns tt) (interrupted ∷ bytes 0 ∷ []) polled
    ≡ some (record { fd = none; polling = false; closed = 7 ∷ [] }, returns tt, true)
unfolding event_read close
eof = refl

closes : (close (returns tt) polled).1 ≡ returns tt
unfolding close
closes = refl

-- With an eventfd, eight bytes are a whole write.
sends_event :
    (send_interrupt_event (interrupted ∷ bytes 8 ∷ []) polled ≡ some (returns tt))
    × (read_event (returns tt) (bytes 0 ∷ []) polled
        ≡ some (record { fd = none; polling = false; closed = 7 ∷ [] }, returns tt, true))
unfolding send_interrupt_event send_event_loop read_event close
sends_event = (refl, refl)
