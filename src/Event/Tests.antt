-- ===== src/Event/Tests.antt =====
-- Runs of event.cc.
use shm_ipc.Base.{◌≡◌, refl, some}
use Prim.Native.String.{String}
use shm_ipc.Base.Outcome.{returns, throws, assertion}
use shm_ipc.Poll.{Event}
use shm_ipc.Poll.Waiting.{ℤ}
use shm_ipc.Event.{destroy, is_polling, print_name_fd_str, file_descriptor, errno_enum, find_name}

abbrev polled : Event
polled = record { fd = some 3; poll_event = some 0 }

abbrev five : ℤ → String
five _ = "5"

destroy_run :
    destroy polled ≡ throws (assertion "Event::~Event() called with m_poll_event != nullptr.")
unfolding destroy is_polling
destroy_run = refl

print_run : print_name_fd_str five (returns "control_fd") polled ≡ returns "name:control_fd fd:5"
unfolding print_name_fd_str file_descriptor
print_run = refl

-- No label has the number 5.
unknown_run : errno_enum (λ _. 7) five (ℤ.pos 5) ≡ "E5"
unfolding errno_enum find_name
unknown_run = refl
