-- ===== src/Demo/Wire.antt =====
-- What a process reads on its control descriptor of the bytes that the other one has sent:
-- `ControlFd::event_read` of torrent/system/ipc/control_fd.cc, with the handlers of main.cc behind it.
use shm_ipc.Base.{
  ℕ, zero, suc, ◌-◌, ◌<◌, arith, ap, ◌∙◌, length-append, ◌≡◌, refl, Bool, true, false, Option, none,
  some, List, [], ◌∷◌, ◌++◌, length,
}
use shm_ipc.Base.Outcome.{Outcome, returns}
use shm_ipc.Control
use shm_ipc.Control.{Recv, got, waiting, Slot, frame, event_read, read_fn, read_payload, dispatch}
use shm_ipc.Control.Send.{Cut, shutdown_text}
use shm_ipc.Net.Address.{byte}
use shm_ipc.Net.ByteOrder.{equal}
use shm_ipc.Shutdown.Protocol.{Note, shutdown, closed}

-- The bytes as `recv` hands them over, one by one.
abbrev pub arrivals : List ℕ → List Recv
arrivals [] = []
arrivals (b ∷ bs) = got (b ∷ []) ∷ arrivals bs

-- A message that is not for the shutdown calls a handler that only prints it.
abbrev pub note_of : Outcome (Option Slot) → List Note
note_of (returns (some (Control.shutdown graceful))) = shutdown graceful ∷ []
note_of (returns (some (Control.closed errno))) = closed ∷ []
note_of result = []

-- `event_read`, as long as there is a message, at most as often as the number says.
abbrev pub reads_of : ℕ → List Recv → List Note
reads_of zero answers = []
reads_of (suc n) answers = elim (event_read answers) [
  | none ↦ []
  | some (result, rest) ↦ note_of result ++ reads_of n rest
]

-- Each message takes a byte at least.
unfoldable pub notes_in : List ℕ → List Note
notes_in bytes = reads_of (length bytes) (arrivals bytes)

pub notes_in-nil : notes_in [] ≡ []
unfolding notes_in
notes_in-nil = refl

-- A shutdown message is read as the one that was sent.
pub notes_in-frame :
    (graceful : Bool) → notes_in (frame (shutdown_text graceful)) ≡ shutdown graceful ∷ []
unfolding notes_in event_read read_fn read_payload dispatch equal
notes_in-frame true = refl
notes_in-frame false = refl

read_fn-short :
    (bytes : List ℕ) (n : ℕ) (started : Bool)
    → length bytes < n
    → read_fn (arrivals bytes) n started ≡ waiting
unfolding read_fn
read_fn-short bytes zero started h = absurd (omega (arith, h))
read_fn-short [] (suc n) started h = refl
read_fn-short (b ∷ bs) (suc n) started h =
    let less : suc n - 1 ≡ n = omega arith in
    rw (less, read_fn-short bs n true (omega (arith, h))) refl

reads_of-none : (bytes : List ℕ) → event_read (arrivals bytes) ≡ none → notes_in bytes ≡ []
unfolding notes_in event_read read_fn
reads_of-none [] e = refl
reads_of-none (b ∷ bs) e = rw e refl

event_read-cut :
    (high low : ℕ) (bytes : List ℕ)
    → high ≡ 0
    → low ≡ 17
    → length bytes < 17
    → event_read (arrivals (high ∷ low ∷ bytes)) ≡ none
unfolding event_read read_fn read_payload
event_read-cut high low bytes h l short = rw (h, l, read_fn-short bytes 17 false short) refl

event_read-one : (b : ℕ) → event_read (arrivals (b ∷ [])) ≡ none
unfolding event_read read_fn
event_read-one b = refl

shutdown-header :
    (graceful : Bool)
    → let bytes = frame (shutdown_text graceful) in
      (byte bytes 0 ≡ 0) × (byte bytes 1 ≡ 17) × (length bytes ≡ 19)
shutdown-header true = (refl, refl, refl)
shutdown-header false = (refl, refl, refl)

-- A shutdown message that is cut short is not read.
pub notes_in-Cut :
    (graceful : Bool) (bytes : List ℕ)
    → Cut (frame (shutdown_text graceful)) bytes
    → notes_in bytes ≡ []
notes_in-Cut graceful [] cut = notes_in-nil
notes_in-Cut graceful (b ∷ []) cut = reads_of-none (b ∷ []) (event_read-one b)
notes_in-Cut graceful (high ∷ low ∷ bytes) (c, rest, e) =
    let (h, l, size) = shutdown-header graceful in
    let all = ap length e ∙ size in
    reads_of-none (high ∷ low ∷ bytes) (
      event_read-cut high low bytes (ap (λ bs. byte bs 0) e ∙ h) (ap (λ bs. byte bs 1) e ∙ l)
        (omega (arith, all, length-append bytes (c ∷ rest))))
