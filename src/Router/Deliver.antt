-- ===== src/Router/Deliver.antt =====
-- One round of `Router::process_reads` on a data message.
use shm_ipc.Base.{
  ℕ, suc, ◌+◌, ◌/◌, ◌%◌, ◌^◌, ◌<◌, ◌≡◌, refl, false, some, List, [], ◌∷◌, length, arith, ==_false,
}
use shm_ipc.Base.Outcome.{returns}
use shm_ipc.Memory.{load32}
use shm_ipc.Channel.{Channel}
use shm_ipc.Channel.Layout.{Message, IsValid}
use shm_ipc.Channel.Read.{Front, read_header-Front, consume_header-Front, advanced}
use shm_ipc.Router.{Router, RouterHandler, HandlerMap, find, without_flags, has_close}
use shm_ipc.Router.Reading.{
  Delivery, Invoke, prepend, process_reads, read_round, after_call, close_round, finish_round,
}

-- Handlers that leave the router alone, and do not throw.
abbrev pub IsQuiet : Invoke → Type 0
IsQuiet invoke = (d : Delivery) (r : Router) → invoke d r ≡ (r, returns tt)

-- A data message: no flags, some bytes, and a handler `f` that is open for reading.
pub record GoesTo (m : HandlerMap) (msg : Message) (f : ℕ) : Type 0 where
  pub no_flags : msg.id < 2 ^ 28
  pub some_bytes : 0 < length msg.payload
  pub handler : RouterHandler
  pub found : find msg.id m ≡ some handler
  pub reads : handler.on_read ≡ some f

abbrev pub delivery : ℕ → Message → Delivery
delivery f msg = record { handler = f; payload = msg.payload }

-- The calls for some data messages, in order.
pub data Calls (m : HandlerMap) : List Message → List Delivery → Type 0 where
  done : Calls m [] []
  call :
      {msg : Message} {rest : List Message} {ds : List Delivery} (f : ℕ)
      → GoesTo m msg f
      → Calls m rest ds
      → Calls m (msg ∷ rest) (delivery f msg ∷ ds)

abbrev pub with_read : Router → Channel → Router
with_read r ch = record r { read_channel = ch }

-- The handler of the message at the front returns, and leaves `r'`: with the same read channel, and
-- with some handler under the message's id.
module _ (invoke : Invoke) (r r' : Router) (msg : Message) (f : ℕ) (v : IsValid r.read_channel)
    (front : Front r.read_channel msg) (to : GoesTo r.handlers msg f)
    (called : invoke (delivery f msg) r ≡ (r', returns tt))
    (same : r'.read_channel ≡ r.read_channel) (kept : RouterHandler)
    (still : find msg.id r'.handlers ≡ some kept) where
  no_close : has_close (load32 r.read_channel.mem (r.read_channel.read_offset + 4)) ≡ false
  no_close =
      rw front.stored.stored_id (==_false (msg.id / 2 ^ 31 % 2) 1 (omega (arith, to.no_flags)))

  finish_round-Front : finish_round r' r.read_channel.read_offset (delivery f msg ∷ []) ≡ (
    with_read r' (advanced r.read_channel (length msg.payload)),
    returns tt,
    delivery f msg ∷ [],
  )
  unfolding finish_round
  finish_round-Front = rw (same, consume_header-Front v front)

  -- A round hands the message to its handler and consumes it.
  read_round-Front : read_round invoke r r.read_channel.read_offset ≡ (
    with_read r' (advanced r.read_channel (length msg.payload)),
    returns tt,
    delivery f msg ∷ [],
  )
  unfolding read_round after_call close_round
  read_round-Front =
      let s = front.stored in
      let key : without_flags (load32 r.read_channel.mem (r.read_channel.read_offset + 4))
          ≡ msg.id =
        rw s.stored_id (omega (arith, to.no_flags)) in
      let found : find (without_flags (load32 r.read_channel.mem (r.read_channel.read_offset + 4)))
            r.handlers
          ≡ some to.handler =
        rw key to.found in
      let found' : find (without_flags (load32 r.read_channel.mem (r.read_channel.read_offset + 4)))
            r'.handlers
          ≡ some kept =
        rw key still in
      ground (
        arith, found, found', same, to.reads, s.stored_size, s.stored_payload, called, no_close,
        to.some_bytes, finish_round-Front,
      )

  pub process_reads-called :
      (fuel : ℕ)
      → process_reads (suc fuel) invoke r
        ≡ prepend (delivery f msg ∷ []) (
            process_reads fuel invoke (with_read r' (advanced r.read_channel (length msg.payload))))
  unfolding process_reads
  process_reads-called fuel = ground (arith, read_header-Front v front, read_round-Front)

pub process_reads-Front :
    (invoke : Invoke)
    → IsQuiet invoke
    → (r : Router) (msg : Message) (f : ℕ) → IsValid r.read_channel
    → Front r.read_channel msg
    → GoesTo r.handlers msg f
    → (fuel : ℕ)
    → process_reads (suc fuel) invoke r
      ≡ prepend
          (delivery f msg ∷ [])
          (process_reads fuel invoke (with_read r (advanced r.read_channel (length msg.payload))))
process_reads-Front invoke quiet r msg f v front to =
    process_reads-called invoke r r msg f v front to (quiet (delivery f msg) r) refl to.handler
      to.found
