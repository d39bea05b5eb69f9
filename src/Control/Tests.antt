-- ===== src/Control/Tests.antt =====
-- Runs of control_fd.cc.
use shm_ipc.Base.{ℕ, ◌≡◌, true, false, none, some, List, [], ◌∷◌, arith}
use shm_ipc.Base.Outcome.{returns}
use shm_ipc.Control.{
  Recv, got, recv_interrupted, recv_again, sent, send_interrupted, dispatch, event_read,
  send_message_internal, frame,
}
use shm_ipc.Control.Receive.{
  Delivers, finished, interrupted, piece, event_read-frame, event_read-loses-size,
}
use shm_ipc.Control.Send.{Takes, all_taken, some_taken, send_message_internal-frame}
use shm_ipc.Control.Send
use shm_ipc.Control.Linux
use shm_ipc.Control.Linux.{event_read_linux, event_read_linux-frame}

abbrev hi : List ℕ
hi = 104 ∷ 105 ∷ []

-- A size and two bytes, one by one.
abbrev hi_answers : List Recv
hi_answers = got (0 ∷ []) ∷ recv_interrupted ∷ got (2 ∷ []) ∷ got (104 ∷ []) ∷ got (105 ∷ []) ∷ []

hi_payload : Delivers [] (got (104 ∷ []) ∷ got (105 ∷ []) ∷ []) hi
hi_payload = piece 104 [] (piece 105 [] finished)

event_read-frame_example : event_read hi_answers ≡ some (dispatch hi, [])
event_read-frame_example =
    event_read-frame hi (omega arith) (piece 0 [] (interrupted (piece 2 [] finished))) hi_payload

event_read-loses-size_example :
    event_read (got (0 ∷ 2 ∷ []) ∷ recv_again ∷ got hi ∷ []) ≡ some (returns none, got hi ∷ [])
event_read-loses-size_example =
    event_read-loses-size hi (omega arith) (omega arith) (piece 0 (2 ∷ []) finished)

send_message_internal-frame_example :
    send_message_internal (sent 1 ∷ send_interrupted ∷ sent 3 ∷ []) true hi
    ≡ some (returns tt, frame hi)
send_message_internal-frame_example =
    send_message_internal-frame (sent 1 ∷ send_interrupted ∷ sent 3 ∷ []) hi (omega arith)
      (some_taken 1 (omega arith) (Send.interrupted (some_taken 3 (omega arith) all_taken)))

-- The second byte of the text is late.
event_read_linux-frame_run :
    event_read_linux
      (got (0 ∷ 2 ∷ []) ∷ got (104 ∷ []) ∷ recv_again ∷ recv_again ∷ got (105 ∷ []) ∷ [])
    ≡ some (dispatch hi, [])
event_read_linux-frame_run =
    event_read_linux-frame hi (omega arith) (Linux.piece false 0 (2 ∷ []) (Linux.finished true)) (
      Linux.piece false 104 []
        (Linux.not_yet (Linux.not_yet (Linux.piece true 105 [] (Linux.finished true)))))
