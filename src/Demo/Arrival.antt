-- ===== src/Demo/Arrival.antt =====
-- A message of one process of parent.cc and child.cc on its way to a TestHandler of the other.
use shm_ipc.Base.{
  ℕ, suc, ◌+◌, ◌^◌, ◌≤◌, ◌<◌, ◌≡◌, refl, some, List, [], ◌∷◌, length, arith, u32_mod,
}
use shm_ipc.Base.Outcome.{returns}
use shm_ipc.Channel.{Channel, wrote}
use shm_ipc.Channel.Layout.{Message, Holds, straight, wrapped, IsValid}
use shm_ipc.Channel.Read.{Holds-Front, advanced, advanced-Holds, advanced-IsValid}
use shm_ipc.Channel.Short.{Open, appended, appended-Run, appended-IsValid}
use shm_ipc.Router.{Router, RouterHandler, find, write}
use shm_ipc.Router.Reading.{process_reads}
use shm_ipc.Router.Deliver.{GoesTo, delivery, with_read, process_reads-called}
use shm_ipc.Router.Drain.{process_reads-empty}
use shm_ipc.Demo.{test_read, ChildHandler, child_invoke}
use shm_ipc.Demo.Announce.{test_handler}
use shm_ipc.Demo.Handshake.{write-Open, marked}

pub Holds-nil-Open :
    {ch : Channel} → IsValid ch → Holds ch [] → ch.write_offset < ch.size → Open ch []
Holds-nil-Open v (straight run) lt = record { valid = v; run = run; free = lt }
Holds-nil-Open v (wrapped [] head below t h e) lt = absurd (omega arith)
Holds-nil-Open v (wrapped (t ∷ ts) head below run h e) lt = absurd (cc)

-- A TestHandler leaves the router alone.
child_invoke-test :
    (h : ChildHandler) (r : Router) (k : ℕ) (msg : Message)
    → child_invoke h (delivery (test_read k) msg) r ≡ (r, returns tt)
unfolding child_invoke
child_invoke-test h r k msg = ground arith

-- The child reads the one record on its channel.
module _ (h : ChildHandler) (c : Router) (k : ℕ) (msg : Message) (fuel : ℕ)
    (there : find msg.id c.handlers ≡ some (test_handler k)) (o : Open c.read_channel (msg ∷ []))
    (small : msg.id < 2 ^ 28) (some_bytes : 0 < length msg.payload) where
  test_read_lem :
      process_reads (suc (suc fuel)) (child_invoke h) c
      ≡ some (
        with_read c (advanced c.read_channel (length msg.payload)),
        returns tt,
        delivery (test_read k) msg ∷ [],
      )
  test_read_lem =
      let v = o.valid in
      let front = Holds-Front {rs = []} v (straight o.run) in
      let to : GoesTo c.handlers msg (test_read k) = record {
        no_flags = small;
        some_bytes = some_bytes;
        handler = test_handler k;
        found = there;
        reads = refl;
      } in
      let lt = o.free in
      rw
        (
          process_reads-called (child_invoke h) c c msg (test_read k) v front to
              (child_invoke-test h c k msg) refl (test_handler k) there (suc fuel),
          process_reads-empty fuel (child_invoke h)
              (with_read c (advanced c.read_channel (length msg.payload)))
              (advanced-IsValid v front) (advanced-Holds v (straight o.run) (λ e _. omega arith)),
        )
        refl

  test_read-Open : Open (advanced c.read_channel (length msg.payload)) []
  test_read-Open =
      let v = o.valid in
      let front = Holds-Front {rs = []} v (straight o.run) in
      let lt = o.free in
      Holds-nil-Open (advanced-IsValid v front)
        (advanced-Holds v (straight o.run) (λ e _. omega arith)) lt

-- A parent and a child that share an empty channel in which more than 64 bytes are left from the
-- writer's offset to the end of the buffer, and both have a handler under `id`, from 1 to 2 ^ 28 - 1,
-- the child's being the TestHandler `k`: a write of 1 to 56 bytes under that id,
-- with a wakeup that goes through, is accepted as a whole; the child's `process_reads` then comes to
-- an end, calls that TestHandler once with these bytes, and leaves the channel empty.
pub write-arrives :
    (h : ChildHandler) (p c : Router) (k id : ℕ) (bytes : List ℕ) (fuel : ℕ) {ph : RouterHandler}
    → p.write_channel ≡ c.read_channel
    → find id p.handlers ≡ some ph
    → find id c.handlers ≡ some (test_handler k)
    → Open c.read_channel []
    → c.read_channel.write_offset + 64 < c.read_channel.size
    → 0 < id
    → id < 2 ^ 28
    → 0 < length bytes
    → length bytes ≤ 56
    → let (p', result, woken) = write (returns tt) p id (length bytes) (some bytes) in
      (result ≡ returns (wrote (length bytes)))
      × (ch : Channel) × (process_reads
            (suc (suc fuel))
            (child_invoke h)
            (with_read c p'.write_channel)
          ≡ some
              (with_read c ch, returns tt, record { handler = test_read k; payload = bytes } ∷ []))
      × Open ch []
write-arrives h p c k id bytes fuel shared there_p there_c o room pos small some_bytes short =
    let o' : Open p.write_channel [] = rw shared o in
    let lt : p.write_channel.write_offset + 64 < p.write_channel.size = rw shared room in
    let wide : id < u32_mod = omega arith in
    let v = appended-IsValid p.write_channel [] id bytes o' pos wide some_bytes short in
    let msg : Message = record { id = id; payload = bytes } in
    let c' : Router = with_read c (marked (appended p.write_channel id bytes)) in
    let sent : Open c'.read_channel (msg ∷ []) = record {
      valid = omega arith;
      run = appended-Run p.write_channel [] id bytes o' pos wide some_bytes short;
      free = omega arith;
    } in
    rw (write-Open p [] id bytes there_p o' pos wide some_bytes short) (
      refl,
      advanced c'.read_channel (length bytes),
      test_read_lem h c' k msg fuel there_c sent small some_bytes,
      test_read-Open h c' k msg fuel there_c sent small some_bytes,
    )
