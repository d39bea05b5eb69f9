-- ===== src/Router/Drain.antt =====
-- The loop of `Router::process_reads` as a whole.
use shm_ipc.Base.{
  ℕ, zero, suc, ◌<◌, ◌≡◌, ◌≢◌, refl, ◌∙◌, Option, none, some, List, [], ◌∷◌, length, arith,
}
use shm_ipc.Base.Outcome.{returns}
use shm_ipc.Channel.{Channel}
use shm_ipc.Channel.Layout.{Message, Run, Holds, straight, IsValid}
use shm_ipc.Channel.Read.{
  Holds-Front, read_header-nil, advanced, advanced-Holds, advanced-IsValid, next_offset-end,
}
use shm_ipc.Channel.Lap.{last-at-end}
use shm_ipc.Router.{Router, HandlerMap}
use shm_ipc.Router.Reading.{Delivery, Invoke, Round, prepend, process_reads}
use shm_ipc.Router.Deliver.{IsQuiet, GoesTo, Calls, done, call, with_read, process_reads-Front}

-- What `process_reads` leaves when it has emptied the channel, with these calls.
pub record Drained (r : Router) (ds : List Delivery) (out : Option Round) : Type 0 where
  pub channel : Channel
  pub outcome : out ≡ some (with_read r channel, returns tt, ds)
  pub valid : IsValid channel
  pub empty : Holds channel []
  pub still : channel.write_offset ≡ r.read_channel.write_offset

Drained-next :
    {r : Router} {ch : Channel} {d : Delivery} {ds : List Delivery} {out : Option Round}
    → ch.write_offset ≡ r.read_channel.write_offset
    → Drained (with_read r ch) ds out
    → Drained r (d ∷ ds) (prepend (d ∷ []) out)
Drained-next e x = record {
  channel = x.channel;
  outcome = rw x.outcome refl;
  valid = x.valid;
  empty = x.empty;
  still = x.still ∙ e;
}

pub process_reads-empty :
    (fuel : ℕ) (invoke : Invoke) (r : Router)
    → IsValid r.read_channel
    → Holds r.read_channel []
    → process_reads (suc fuel) invoke r ≡ some (r, returns tt, [])
unfolding process_reads
process_reads-empty fuel invoke r v h = ground (arith, read_header-nil v h)

-- With handlers that leave the router alone, and data messages on the read channel whose handlers
-- are open, `process_reads` comes to an end in one round more than there are messages: it calls
-- each message's handler with that message's bytes, once and in order, and nothing else, and leaves
-- the channel empty. The writer must not stand at the very end of the buffer.
pub process_reads-Drained :
    (fuel : ℕ) (invoke : Invoke) (r : Router) {rs : List Message} {ds : List Delivery}
    → IsQuiet invoke
    → IsValid r.read_channel
    → Holds r.read_channel rs
    → Calls r.handlers rs ds
    → r.read_channel.write_offset ≢ r.read_channel.size
    → length rs < fuel
    → Drained r ds (process_reads fuel invoke r)
process_reads-Drained zero invoke r quiet v h c inside enough = absurd (omega arith)
process_reads-Drained (suc fuel) invoke r quiet v h done inside enough = record {
  channel = r.read_channel;
  outcome = process_reads-empty fuel invoke r v h;
  valid = v;
  empty = h;
  still = refl;
}
process_reads-Drained (suc fuel) invoke r {rs = msg ∷ rest} quiet v h (call f to c) inside enough =
    let front = Holds-Front v h in
    rw (process_reads-Front invoke quiet r msg f v front to fuel) (
      Drained-next refl (
        process_reads-Drained fuel invoke
          (with_read r (advanced r.read_channel (length msg.payload))) quiet
          (advanced-IsValid v front) (advanced-Holds v h (λ e _. inside e)) c inside (omega arith)))

-- A reader among records that lead up to the very end of the buffer, where the writer stands: the
-- buffer holds one lap of data messages from its start to its end.
pub record OnLap (r : Router) (rs : List Message) : Type 0 where
  pub valid : IsValid r.read_channel
  pub holds : Holds r.read_channel rs
  pub at_end : r.read_channel.write_offset ≡ r.read_channel.size
  pub calls : List Delivery
  pub go : Calls r.handlers rs calls
  pub lap : List Message
  pub lap_calls : List Delivery
  pub lap_go : Calls r.handlers lap lap_calls
  pub lap_run : Run r.read_channel.mem 0 r.read_channel.size lap

Run-ne-nil : (ch : Channel) (lap : List Message) → IsValid ch → Run ch.mem 0 ch.size lap → lap ≢ []
Run-ne-nil ch [] v run e = omega arith
Run-ne-nil ch (m ∷ lap) v run e = cc

OnLap-next :
    (r : Router) (msg : Message) (next : Message) (rest : List Message)
    (o : OnLap r (msg ∷ next ∷ rest))
    → OnLap (with_read r (advanced r.read_channel (length msg.payload))) (next ∷ rest)
OnLap-next r msg next rest o = record {
  valid = advanced-IsValid o.valid (Holds-Front o.valid o.holds);
  holds = advanced-Holds o.valid o.holds (λ _ e. cc);
  at_end = o.at_end;
  calls = (later o.go).0;
  go = (later o.go).1;
  lap = o.lap;
  lap_calls = o.lap_calls;
  lap_go = o.lap_go;
  lap_run = o.lap_run;
}
  where
    later :
        {ds : List Delivery}
        → Calls r.handlers (msg ∷ next ∷ rest) ds
        → (es : List Delivery) × Calls r.handlers (next ∷ rest) es
    later (call {ds = es} f to c) = (es, c)

OnLap-again :
    (r : Router) (msg : Message) (o : OnLap r (msg ∷ []))
    → OnLap (with_read r (advanced r.read_channel (length msg.payload))) o.lap
OnLap-again r msg o =
    let start =
      next_offset-end r.read_channel (length msg.payload) (last-at-end o.valid o.holds o.at_end) in
    record {
      valid = advanced-IsValid o.valid (Holds-Front o.valid o.holds);
      holds = straight (rw (start, o.at_end) o.lap_run);
      at_end = o.at_end;
      calls = o.lap_calls;
      go = o.lap_go;
      lap = o.lap;
      lap_calls = o.lap_calls;
      lap_go = o.lap_go;
      lap_run = o.lap_run;
    }

first-call :
    {m : HandlerMap} {msg : Message} {rest : List Message} {ds : List Delivery}
    → Calls m (msg ∷ rest) ds
    → (f : ℕ) × GoesTo m msg f
first-call (call f to c) = (f, to)

-- If the rest of the loop does not end, neither does the loop.
process_reads-none :
    (fuel : ℕ) (invoke : Invoke) (r : Router) (msg : Message) (rest : List Message)
    → IsQuiet invoke
    → OnLap r (msg ∷ rest)
    → process_reads fuel invoke (with_read r (advanced r.read_channel (length msg.payload))) ≡ none
    → process_reads (suc fuel) invoke r ≡ none
process_reads-none fuel invoke r msg rest quiet o e =
    let (f, to) = first-call o.go in
    rw (process_reads-Front invoke quiet r msg f o.valid (Holds-Front o.valid o.holds) to fuel, e)
      refl

process_reads-zero : (invoke : Invoke) (r : Router) → process_reads 0 invoke r ≡ none
unfolding process_reads
process_reads-zero invoke r = refl

-- But if the writer stands at the very end of the buffer, behind a whole lap of data messages, then
-- `process_reads` with such handlers never ends: it runs out of any fuel.
pub process_reads-endless :
    (fuel : ℕ) (invoke : Invoke) (r : Router) (rs : List Message)
    → IsQuiet invoke
    → OnLap r rs
    → rs ≢ []
    → process_reads fuel invoke r ≡ none
process_reads-endless zero invoke r rs quiet o some_left = process_reads-zero invoke r
process_reads-endless (suc fuel) invoke r [] quiet o some_left = absurd (some_left refl)
process_reads-endless (suc fuel) invoke r (msg ∷ []) quiet o some_left =
    process_reads-none fuel invoke r msg [] quiet o (
      process_reads-endless fuel invoke _ o.lap quiet (OnLap-again r msg o)
        (Run-ne-nil r.read_channel o.lap o.valid o.lap_run))
process_reads-endless (suc fuel) invoke r (msg ∷ next ∷ rest) quiet o some_left =
    process_reads-none fuel invoke r msg (next ∷ rest) quiet o (
      process_reads-endless fuel invoke _ (next ∷ rest) quiet (OnLap-next r msg next rest o)
        (λ e. cc))
