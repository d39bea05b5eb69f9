-- ===== src/Router/Thrown.antt =====
-- `Router::process_reads` where a handler throws.
use shm_ipc.Base.{
  ℕ, suc, zero, ◌+◌, ◌<◌, ◌≡◌, ◌≢◌, refl, Option, some, List, [], ◌∷◌, ◌++◌, length, arith,
}
use shm_ipc.Base.Outcome.{Exception, throws, returns}
use shm_ipc.Memory.{load32}
use shm_ipc.Channel.{Channel}
use shm_ipc.Channel.Layout.{Message, Holds, IsValid}
use shm_ipc.Channel.Read.{
  Front, Holds-Front, read_header-Front, advanced, advanced-Holds, advanced-IsValid,
}
use shm_ipc.Router.{Router, find, without_flags}
use shm_ipc.Router.Reading.{Delivery, Invoke, Round, prepend, process_reads, read_round, after_call}
use shm_ipc.Router.Deliver.{GoesTo, delivery, Calls, done, call, with_read, process_reads-called}

-- The handler of the message at the front throws, and leaves the router alone.
module _ (invoke : Invoke) (r : Router) (msg : Message) (f : ℕ) (e : Exception)
    (v : IsValid r.read_channel) (front : Front r.read_channel msg) (to : GoesTo r.handlers msg f)
    (called : invoke (delivery f msg) r ≡ (r, throws e)) where
  read_round-thrown :
      read_round invoke r r.read_channel.read_offset ≡ (r, throws e, delivery f msg ∷ [])
  unfolding read_round after_call
  read_round-thrown =
      let s = front.stored in
      let key : without_flags (load32 r.read_channel.mem (r.read_channel.read_offset + 4))
          ≡ msg.id =
        rw s.stored_id (omega (arith, to.no_flags)) in
      let found : find (without_flags (load32 r.read_channel.mem (r.read_channel.read_offset + 4)))
            r.handlers
          ≡ some to.handler =
        rw key to.found in
      ground (arith, found, to.reads, s.stored_size, s.stored_payload, called, to.some_bytes)

  process_reads-thrown-Front :
      (fuel : ℕ) → process_reads (suc fuel) invoke r ≡ some (r, throws e, delivery f msg ∷ [])
  unfolding process_reads
  process_reads-thrown-Front fuel = ground (arith, read_header-Front v front, read_round-thrown)

-- Calls that leave the router alone, and do not throw.
abbrev pub AllQuiet : Invoke → List Delivery → Type 0
AllQuiet invoke [] = Unit {0}
AllQuiet invoke (d ∷ ds) = ((r : Router) → invoke d r ≡ (r, returns tt)) × AllQuiet invoke ds

-- What an exception leaves: it is passed on behind these calls, and the channel holds these records.
pub record Thrown (r : Router) (e : Exception) (ds : List Delivery) (rest : List Message)
    (out : Option Round) : Type 0 where
  pub channel : Channel
  pub outcome : out ≡ some (with_read r channel, throws e, ds)
  pub valid : IsValid channel
  pub holds : Holds channel rest

Thrown-next :
    {r : Router} {ch : Channel} {e : Exception} {d : Delivery} {ds : List Delivery}
    {rest : List Message} {out : Option Round}
    → Thrown (with_read r ch) e ds rest out
    → Thrown r e (d ∷ ds) rest (prepend (d ∷ []) out)
Thrown-next t = record {
  channel = t.channel;
  outcome = rw t.outcome refl;
  valid = t.valid;
  holds = t.holds;
}

-- On a valid channel whose writer does not stand at the very end of the buffer, where the data
-- messages in front are read by handlers that leave the router alone, and the handler of the next one
-- throws and leaves it alone too: `process_reads`, with a round for each of them, calls each of them
-- once and in order, passes the exception on, and leaves the message whose handler threw on the
-- channel, with all behind it.
pub process_reads-Thrown :
    (fuel : ℕ) (invoke : Invoke) (r : Router) (before : List Message) {ds : List Delivery}
    (msg : Message) (f : ℕ) (rest : List Message) (e : Exception)
    → IsValid r.read_channel
    → Holds r.read_channel (before ++ msg ∷ rest)
    → Calls r.handlers before ds
    → AllQuiet invoke ds
    → GoesTo r.handlers msg f
    → ((r : Router) → invoke (delivery f msg) r ≡ (r, throws e))
    → r.read_channel.write_offset ≢ r.read_channel.size
    → length before < fuel
    → Thrown r e (ds ++ delivery f msg ∷ []) (msg ∷ rest) (process_reads fuel invoke r)
process_reads-Thrown zero invoke r before msg f rest e v h c quiet to bad inside enough =
    absurd (omega arith)
process_reads-Thrown (suc fuel) invoke r [] msg f rest e v h done quiet to bad inside enough =
    record {
      channel = r.read_channel;
      outcome = process_reads-thrown-Front invoke r msg f e v (Holds-Front v h) to (bad r) fuel;
      valid = v;
      holds = h;
    }
process_reads-Thrown (suc fuel) invoke r (m ∷ before) msg f rest e v h (call g to_g c) quiet to bad
      inside enough =
    let front = Holds-Front v h in
    rw
      (process_reads-called invoke r r m g v front to_g (quiet.0 r) refl to_g.handler to_g.found
        fuel)
      (Thrown-next (
        process_reads-Thrown fuel invoke (with_read r (advanced r.read_channel (length m.payload)))
          before msg f rest e (advanced-IsValid v front) (advanced-Holds v h (λ e _. inside e)) c
          quiet.1 to bad inside (omega arith)))
