-- ===== src/Router/Tests.antt =====
-- Runs of the functions of router.cc, and the theorems of this directory at them.
use shm_ipc.Base.{
  ℕ, ◌+◌, ◌≡◌, ◌≢◌, ◌↔◌, refl, List, [], ◌∷◌, none, some, arith, true, ◌==◌, add32, sub32,
  if◌then◌else◌,
}
use shm_ipc.Base.Outcome.{returns, throws, internal_error, runtime_error}
use shm_ipc.Memory.{write_bytes, read_bytes, load32, store32}
use shm_ipc.Channel
use shm_ipc.Channel.{Channel, wrote}
use shm_ipc.Channel.Layout.{Message, Holds, straight}
use shm_ipc.Router.{
  Router, RouterHandler, find, register_handler, close, write, flag_polling, flag_interrupted,
}
use shm_ipc.Router.Reading.{Invoke, process_reads}
use shm_ipc.Router.Register.{Registered, register_handler-Registered}
use shm_ipc.Router.Close.{marked, close-open}
use shm_ipc.Router.Wakeup.{write-wakes}
use shm_ipc.Router.Deliver.{IsQuiet, GoesTo, Calls, done, call, delivery}
use shm_ipc.Router.Thrown.{Thrown, process_reads-Thrown}
use shm_ipc.Router.Drain.{Drained, process_reads-Drained, OnLap, process_reads-endless}

abbrev greeting : List ℕ
greeting = 104 ∷ 101 ∷ 108 ∷ []

abbrev hello : Message
hello = record { id = 5; payload = greeting }

abbrev open_handler : RouterHandler
open_handler = record { on_read = some 1; on_error = some 2 }

abbrev half_handler : RouterHandler
half_handler = record { on_read = none; on_error = some 2 }

abbrev empty_channel : Channel
empty_channel = record {
  size = 128;
  write_threshold = 48;
  read_offset = 0;
  write_offset = 0;
  consumer_state = 0;
  mem = λ _. 0;
}

abbrev one_record : Channel
one_record = record empty_channel {
  write_offset = 64;
  mem = write_bytes (store32 (store32 (λ _. 0) 4 5) 0 3) 8 greeting;
}

-- The same record on both lines, the second of them unread.
abbrev lap_end : Channel
lap_end = record empty_channel {
  read_offset = 64;
  write_offset = 128;
  mem = write_bytes (store32 (store32 one_record.mem 68 5) 64 3) 72 greeting;
}

abbrev with_channels : Channel → Channel → Router
with_channels reads writes = record {
  read_channel = reads;
  write_channel = writes;
  next_id = 5;
  handlers = (5, open_handler) ∷ (7, half_handler) ∷ [];
}

abbrev idle_router : Router
idle_router = with_channels empty_channel empty_channel

abbrev busy_router : Router
busy_router = with_channels one_record empty_channel

abbrev lap_router : Router
lap_router = with_channels lap_end empty_channel

abbrev polled_router : Router
polled_router = with_channels empty_channel (record empty_channel { consumer_state = 1 })

abbrev do_nothing : Invoke
do_nothing d r = (r, returns tt)

do_nothing-IsQuiet : IsQuiet do_nothing
do_nothing-IsQuiet d r = refl

hello-GoesTo : GoesTo idle_router.handlers hello 1
unfolding find
hello-GoesTo = record {
  no_flags = omega arith;
  some_bytes = omega arith;
  handler = open_handler;
  found = refl;
  reads = refl;
}

hello-Calls : Calls idle_router.handlers (hello ∷ []) (delivery 1 hello ∷ [])
hello-Calls = call 1 hello-GoesTo done

hellos-Calls :
    Calls idle_router.handlers (hello ∷ hello ∷ []) (delivery 1 hello ∷ delivery 1 hello ∷ [])
hellos-Calls = call 1 hello-GoesTo hello-Calls

one_record-Holds : Holds one_record (hello ∷ [])
unfolding write_bytes store32 load32 read_bytes
one_record-Holds =
    straight (record { stored_size = refl; stored_id = refl; stored_payload = refl }, refl)

lap_router-OnLap : OnLap lap_router (hello ∷ [])
unfolding write_bytes store32 load32 read_bytes
lap_router-OnLap = record {
  valid = omega arith;
  holds = straight (record { stored_size = refl; stored_id = refl; stored_payload = refl }, refl);
  at_end = refl;
  calls = delivery 1 hello ∷ [];
  go = hello-Calls;
  lap = hello ∷ hello ∷ [];
  lap_calls = delivery 1 hello ∷ delivery 1 hello ∷ [];
  lap_go = hellos-Calls;
  lap_run = (
    record { stored_size = refl; stored_id = refl; stored_payload = refl },
    (record { stored_size = refl; stored_id = refl; stored_payload = refl }, refl),
  );
}

register_handler-Registered_example :
    Registered idle_router 5 3 4 (register_handler idle_router (some 3) (some 4))
register_handler-Registered_example = register_handler-Registered idle_router 3 4

close-open_example :
    (close idle_router 5
      ≡ (marked idle_router 5 1, throws (internal_error "Channel::write() data is null")))
    × (close (marked idle_router 5 1) 5 ≡ (
      marked idle_router 5 1,
      throws (internal_error "Router::close(): handler already closed for write"),
    ))
unfolding find
close-open_example = close-open idle_router 5 1 2 refl

close-half_run : (close idle_router 7).1 ≡ returns tt
unfolding close find
close-half_run = refl

polled-write :
    Channel.write polled_router.write_channel 5 3 (some greeting)
    ≡ (record one_record { consumer_state = 1 }, returns (wrote 3))
unfolding Channel.write Channel.write_from Channel.write_at Channel.write_behind
    Channel.write_second Channel.publish Channel.write_to_header Channel.align_size_to_cacheline
    add32 sub32
polled-write = refl

write-wakes_run :
    let (r', result, woken) = write (returns tt) polled_router 5 3 (some greeting) in
    ((woken ≡ true) ↔ (1 ≡ flag_polling))
    × (r'.write_channel.consumer_state
        ≡ (if 1 == flag_polling then flag_polling + flag_interrupted else 1))
    × (r'.write_channel.consumer_state ≢ flag_polling)
    × (r'.write_channel.write_offset ≡ 64)
unfolding find
write-wakes_run =
    write-wakes (returns tt) polled_router 5 3 3 (some greeting)
      (record one_record { consumer_state = 1 }) refl polled-write

process_reads-Drained_example :
    Drained busy_router (delivery 1 hello ∷ []) (process_reads 2 do_nothing busy_router)
process_reads-Drained_example =
    process_reads-Drained 2 do_nothing busy_router do_nothing-IsQuiet (omega arith) one_record-Holds
      hello-Calls (λ e. omega arith) (omega arith)

process_reads-endless_example : process_reads 1000 do_nothing lap_router ≡ none
process_reads-endless_example =
    process_reads-endless 1000 do_nothing lap_router (hello ∷ []) do_nothing-IsQuiet
      lap_router-OnLap (λ e. cc)

-- Two records, and behind them a line that is free; the second one is for a handler that throws.
abbrev other : Message
other = record { id = 6; payload = greeting }

abbrev refusing_handler : RouterHandler
refusing_handler = record { on_read = some 3; on_error = some 4 }

abbrev two_records : Channel
two_records = record empty_channel {
  size = 192;
  write_offset = 128;
  mem = write_bytes (store32 (store32 one_record.mem 68 6) 64 3) 72 greeting;
}

abbrev refusing_router : Router
refusing_router = record {
  read_channel = two_records;
  write_channel = empty_channel;
  next_id = 7;
  handlers = (5, open_handler) ∷ (6, refusing_handler) ∷ [];
}

abbrev refuse : Invoke
refuse d r = if d.handler == 3 then (r, throws (runtime_error "refused")) else (r, returns tt)

two_records-Holds : Holds two_records (hello ∷ other ∷ [])
unfolding write_bytes store32 load32 read_bytes
two_records-Holds = straight (
  record { stored_size = refl; stored_id = refl; stored_payload = refl },
  (record { stored_size = refl; stored_id = refl; stored_payload = refl }, refl),
)

refusing-hello : GoesTo refusing_router.handlers hello 1
unfolding find
refusing-hello = record {
  no_flags = omega arith;
  some_bytes = omega arith;
  handler = open_handler;
  found = refl;
  reads = refl;
}

refusing-other : GoesTo refusing_router.handlers other 3
unfolding find
refusing-other = record {
  no_flags = omega arith;
  some_bytes = omega arith;
  handler = refusing_handler;
  found = refl;
  reads = refl;
}

process_reads-Thrown_example :
    Thrown refusing_router
      (runtime_error "refused")
      (delivery 1 hello ∷ delivery 3 other ∷ [])
      (other ∷ [])
      (process_reads 2 refuse refusing_router)
process_reads-Thrown_example =
    process_reads-Thrown 2 refuse refusing_router (hello ∷ []) other 3 [] (runtime_error "refused")
      (omega arith) two_records-Holds (call 1 refusing-hello done) ((λ r. refl), tt) refusing-other
      (λ r. refl) (omega arith) (omega arith)
