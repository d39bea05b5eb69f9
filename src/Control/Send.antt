-- ===== src/Control/Send.antt =====
-- `ControlFd::send_message_internal` of torrent/system/ipc/control_fd.cc on a socket that takes a
-- message in pieces.
use shm_ipc.Base.{
  ℕ, ◌+◌, ◌-◌, ◌≤◌, ◌≡◌, refl, ◌∙◌, ap, Bool, true, false, if◌then◌else◌, Option, none, some, List,
  [], ◌∷◌, ◌++◌, append_assoc, length, take, drop, length-drop, take-append-drop, arith, ltb-false,
}
use shm_ipc.Base.Outcome.{Outcome, returns, throws}
use shm_ipc.Control.{
  Sent, sent, send_interrupted, send_again, send_failed, also_sent, send_shutdown_message,
  shutdown_prefix, graceful_text, forceful_text, send_loop, send_message_internal, frame,
  max_message_size,
}

-- Answers of `send` that take `n` bytes in the end, in pieces of any size and with interruptions.
pub data Takes : List Sent → ℕ → Type 0 where
  all_taken : {later : List Sent} → Takes later 0
  interrupted : {later : List Sent} {n : ℕ} → Takes later n → Takes (send_interrupted ∷ later) n
  some_taken :
      {later : List Sent} {n : ℕ} (k : ℕ) → k ≤ n → Takes later (n - k) → Takes (sent k ∷ later) n

send_loop-nil : (answers : List Sent) → send_loop answers [] ≡ some (returns tt, [])
unfolding send_loop
send_loop-nil [] = refl
send_loop-nil (a ∷ answers) = refl

send_loop-Takes :
    {answers : List Sent} {n : ℕ} (buf : List ℕ)
    → length buf ≡ n
    → Takes answers n
    → send_loop answers buf ≡ some (returns tt, buf)
unfolding send_loop
send_loop-Takes {answers = answers} [] e t = send_loop-nil answers
send_loop-Takes (b ∷ bs) e all_taken = absurd (omega arith)
send_loop-Takes (b ∷ bs) e (interrupted t) = send_loop-Takes (b ∷ bs) e t
send_loop-Takes (b ∷ bs) e (some_taken {later = later} k small t) =
    rw (send_loop-Takes (drop k (b ∷ bs)) (omega (arith, length-drop k (b ∷ bs))) t)
      (ap (λ l. some (returns tt, l)) (take-append-drop k (b ∷ bs)))

-- On an open socket that takes all of it in the end, in pieces of any size and with interruptions,
-- a message of at most 1024 bytes is sent: the call returns, and `send` has taken exactly its size
-- and its bytes.
pub send_message_internal-frame :
    (answers : List Sent) (msg : List ℕ)
    → length msg ≤ max_message_size
    → Takes answers (length msg + 2)
    → send_message_internal answers true msg ≡ some (returns tt, frame msg)
unfolding send_message_internal
send_message_internal-frame answers msg small t =
    rw (ltb-false max_message_size (length msg) small) (send_loop-Takes (frame msg) (omega arith) t)

-- A part of the bytes from their start, but not all of them.
abbrev pub Cut : List ℕ → List ℕ → Type 0
Cut buf bytes = (c : ℕ) × (rest : List ℕ) × (bytes ++ c ∷ rest ≡ buf)

-- What a call has sent, whatever `send` answers: all of it where it returns, and not all of it where it
-- throws.
abbrev pub SendsAll : List ℕ → Option (Outcome (Unit {0}) × List ℕ) → Type 0
SendsAll buf none = Unit {0}
SendsAll buf (some (throws e, bytes)) = Cut buf bytes
SendsAll buf (some (returns _, bytes)) = bytes ≡ buf

also_sent-SendsAll :
    (n : ℕ) (buf : List ℕ) (r : Option (Outcome (Unit {0}) × List ℕ))
    → SendsAll (drop n buf) r
    → SendsAll buf (also_sent (take n buf) r)
also_sent-SendsAll n buf none h = tt
also_sent-SendsAll n buf (some (throws e, bytes)) (c, rest, h) = (
  c,
  rest,
  append_assoc (take n buf) bytes (c ∷ rest) ∙ ap (λ l. take n buf ++ l) h ∙ take-append-drop n buf,
)
also_sent-SendsAll n buf (some (returns _, bytes)) h =
    ap (λ l. take n buf ++ l) h ∙ take-append-drop n buf

send_loop-SendsAll : (answers : List Sent) (buf : List ℕ) → SendsAll buf (send_loop answers buf)
unfolding send_loop
send_loop-SendsAll [] [] = refl
send_loop-SendsAll [] (b ∷ bs) = tt
send_loop-SendsAll (a ∷ answers) [] = refl
send_loop-SendsAll (sent n ∷ rest) (b ∷ bs) =
    also_sent-SendsAll n (b ∷ bs) _ (send_loop-SendsAll rest (drop n (b ∷ bs)))
send_loop-SendsAll (send_interrupted ∷ rest) (b ∷ bs) = send_loop-SendsAll rest (b ∷ bs)
send_loop-SendsAll (send_again ∷ rest) (b ∷ bs) = (b, bs, refl)
send_loop-SendsAll (send_failed ∷ rest) (b ∷ bs) = (b, bs, refl)

abbrev pub shutdown_text : Bool → List ℕ
shutdown_text graceful = shutdown_prefix ++ (if graceful then graceful_text else forceful_text)

-- `send_shutdown_message` has sent the whole message for its argument, if it returns, and not all of it
-- if it throws.
pub send_shutdown_message-SendsAll :
    (answers : List Sent) (is_open graceful : Bool)
    → SendsAll (frame (shutdown_text graceful)) (send_shutdown_message answers is_open graceful)
unfolding send_shutdown_message send_message_internal
send_shutdown_message-SendsAll answers false graceful = (_, _, refl)
send_shutdown_message-SendsAll answers true true = send_loop-SendsAll answers _
send_shutdown_message-SendsAll answers true false = send_loop-SendsAll answers _
