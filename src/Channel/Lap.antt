-- ===== src/Channel/Lap.antt =====
-- The state that `Channel::write` and `Channel::consume_header` disagree on: the writer at the very
-- end of the buffer, and the reader back at its start.
use shm_ipc.Base.{◌+◌, ◌≡◌, List, [], ◌∷◌, arith, length}
use shm_ipc.Base.Outcome.{returns}
use shm_ipc.Channel.{Channel, consume_header}
use shm_ipc.Channel.Layout.{Message, span, Run, Holds, straight, wrapped, IsValid}
use shm_ipc.Channel.Read.{Holds-Front, consume_header-Front, next_offset-end, advanced-IsValid}

pub last-at-end :
    {ch : Channel} {r : Message}
    → IsValid ch
    → Holds ch (r ∷ [])
    → ch.write_offset ≡ ch.size
    → ch.read_offset + span (length r.payload) ≡ ch.size
last-at-end v (straight run) e = omega arith
last-at-end v (wrapped tail head lt t h q) e = absurd (omega arith)

-- When the writer stands at the very end of the buffer and the reader consumes the last unread
-- record, the channel does not become empty: it holds all the records of the lap once more, though
-- each of them has been consumed.
pub consume_header-lap :
    {ch : Channel} {r : Message} (lap : List Message)
    → IsValid ch
    → Holds ch (r ∷ [])
    → ch.write_offset ≡ ch.size
    → Run ch.mem 0 ch.size lap
    → (consume_header ch ch.read_offset ≡ (record ch { read_offset = 0 }, returns tt))
      × IsValid (record ch { read_offset = 0 })
      × Holds (record ch { read_offset = 0 }) lap
consume_header-lap {ch} {r} lap v h e run =
    let f = Holds-Front v h in
    let start = next_offset-end ch (length r.payload) (last-at-end v h e) in
    (
      rw start at (consume_header-Front {r = r} v f),
      rw start at (advanced-IsValid {r = r} v f),
      straight (rw e run),
    )
