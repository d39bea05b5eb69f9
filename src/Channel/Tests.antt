-- ===== src/Channel/Tests.antt =====
-- Runs of the functions of channel.cc on small buffers, and the theorems of this directory at them.
use shm_ipc.Base.{ℕ, ◌≡◌, refl, List, [], ◌∷◌, ◌++◌, none, some, arith, true, add32, sub32}
use shm_ipc.Base.Outcome.{returns, throws, internal_error}
use shm_ipc.Memory.{Mem, write_bytes, read_bytes, load32, store32}
use shm_ipc.Channel.{
  Channel, wrote, align_size_to_cacheline, verify_read_header, write_to_header, available_write,
  can_write, publish, write_second, write_behind, write_at, write_from, write, read_verified,
  read_header, consume_header,
}
use shm_ipc.Channel.Layout.{Message, Stored, Run, Holds, straight, IsValid}
use shm_ipc.Channel.Append.{Written, Appended, write-Written}
use shm_ipc.Channel.Read.{read_header-cons, consume_header-cons}
use shm_ipc.Channel.Lap.{consume_header-lap}
use shm_ipc.Channel.Space.{can_write-write}
use shm_ipc.Channel.Stream.{System, Call, Step, load, publish as accept, receive, here, next, tag}
use shm_ipc.Channel.Stream.Order.{Reach-order}
use shm_ipc.Channel.Stream.Invariant.{stream}

-- An empty buffer of three cache lines.
abbrev pub blank : Channel
blank = record {
  size = 192;
  write_threshold = 64;
  read_offset = 0;
  write_offset = 0;
  consumer_state = 0;
  mem = λ _. 0;
}

pub blank-IsValid : IsValid blank
blank-IsValid = omega arith

pub blank-Holds : Holds blank []
blank-Holds = straight refl

abbrev pub hello : Message
hello = record { id = 5; payload = 104 ∷ 101 ∷ 108 ∷ [] }

-- The buffer behind a write of `hello`.
abbrev pub one_record : Channel
one_record = record {
  size = 192;
  write_threshold = 64;
  read_offset = 0;
  write_offset = 64;
  consumer_state = 0;
  mem = write_bytes (store32 (store32 (λ _. 0) 4 5) 0 3) 8 hello.payload;
}

write-hello : write blank 5 3 (some hello.payload) ≡ (one_record, returns (wrote 3))
unfolding write write_from write_at write_behind write_second publish write_to_header
    align_size_to_cacheline add32 sub32
write-hello = refl

write-null : write blank 5 0 none ≡ (blank, throws (internal_error "Channel::write() data is null"))
unfolding write
write-null = refl

pub one_record-IsValid : IsValid one_record
one_record-IsValid = omega arith

hello-Stored : Stored one_record.mem 0 hello
unfolding write_bytes store32 load32 read_bytes
hello-Stored = record { stored_size = refl; stored_id = refl; stored_payload = refl }

pub one_record-Holds : Holds one_record (hello ∷ [])
one_record-Holds = straight (hello-Stored, refl)

-- The writer and the reader at the end of a lap of two records.
abbrev pub two_lines : Mem
two_lines =
    write_bytes
      (store32 (store32 (write_bytes (store32 (store32 (λ _. 0) 4 5) 0 3) 8 hello.payload) 68 5) 64
        3)
      72 hello.payload

abbrev pub lap_end : Channel
lap_end = record {
  size = 128;
  write_threshold = 48;
  read_offset = 64;
  write_offset = 128;
  consumer_state = 0;
  mem = two_lines;
}

pub lap_end-IsValid : IsValid lap_end
lap_end-IsValid = omega arith

pub lap-Run : Run two_lines 0 128 (hello ∷ hello ∷ [])
unfolding write_bytes store32 load32 read_bytes
lap-Run = (
  record { stored_size = refl; stored_id = refl; stored_payload = refl },
  (record { stored_size = refl; stored_id = refl; stored_payload = refl }, refl),
)

pub lap_end-Holds : Holds lap_end (hello ∷ [])
lap_end-Holds = straight lap-Run.1

write-Written_example :
    Written one_record
      (hello ∷ [])
      9
      3
      (1 ∷ 2 ∷ 3 ∷ [])
      (write one_record 9 3 (some (1 ∷ 2 ∷ 3 ∷ [])))
write-Written_example =
    write-Written one_record (hello ∷ []) 9 3 (1 ∷ 2 ∷ 3 ∷ []) one_record-IsValid one_record-Holds
      (omega arith) (omega arith) (omega arith) (omega arith) (omega arith)

read_header-cons_run :
    (read_header one_record ≡ (one_record, returns (some 0))) × Stored one_record.mem 0 hello
read_header-cons_run = read_header-cons one_record-IsValid one_record-Holds

consume_header-cons_example :
    (o : ℕ) × (consume_header one_record 0 ≡ (record one_record { read_offset = o }, returns tt))
    × IsValid (record one_record { read_offset = o })
    × Holds (record one_record { read_offset = o }) []
consume_header-cons_example =
    consume_header-cons one_record-IsValid one_record-Holds (λ e. absurd (omega arith))

consume_header-lap_example :
    (consume_header lap_end 64 ≡ (record lap_end { read_offset = 0 }, returns tt))
    × IsValid (record lap_end { read_offset = 0 })
    × Holds (record lap_end { read_offset = 0 }) (hello ∷ hello ∷ [])
consume_header-lap_example =
    consume_header-lap (hello ∷ hello ∷ []) lap_end-IsValid lap_end-Holds refl lap-Run

abbrev wide : Channel
wide = record blank { size = 512 }

wide-can_write : can_write wide 4 ≡ true
unfolding can_write available_write align_size_to_cacheline add32 sub32
wide-can_write = refl

abbrev four : List ℕ
four = 1 ∷ 2 ∷ 3 ∷ 4 ∷ []

can_write-write_example :
    (ch' : Channel) × (new : List Message) × (write wide 5 4 (some four) ≡ (ch', returns (wrote 4)))
    × Appended wide [] 5 four 4 ch' new
can_write-write_example =
    can_write-write wide [] 5 4 four (omega arith) (straight refl) (omega arith) (omega arith)
      (omega arith) (omega arith) (omega arith) wide-can_write

abbrev start : System
start = record { channel = blank; loaded = none; sent = []; received = [] }

abbrev sent_hello : System
sent_hello = record {
  channel = one_record;
  loaded = none;
  sent = tag 5 hello.payload;
  received = [];
}

abbrev got_hello : System
got_hello = record {
  channel = record one_record { read_offset = 64 };
  loaded = none;
  sent = tag 5 hello.payload;
  received = tag 5 hello.payload;
}

abbrev hello_call : Call
hello_call = record {
  id = 5;
  size = 3;
  bytes = hello.payload;
  id_pos = omega arith;
  id_small = omega arith;
  size_pos = omega arith;
  size_small = omega arith;
  size_fits = omega arith;
}

send-hello : Step (record start { loaded = some 0 }) sent_hello
unfolding write_from write_at write_behind write_second publish write_to_header
    align_size_to_cacheline add32 sub32 tag
send-hello = accept hello_call 0 3 one_record refl refl refl

receive-hello : Step sent_hello got_hello
unfolding read_header read_verified verify_read_header consume_header align_size_to_cacheline add32
    write_bytes store32 load32 read_bytes tag
receive-hello =
    receive 0 one_record (record one_record { read_offset = 64 }) refl refl (λ e. omega arith) refl

Reach-order_example :
    IsValid got_hello.channel
    × ((pending : List Message) × Holds got_hello.channel pending
        × (got_hello.received ++ stream pending ≡ got_hello.sent))
Reach-order_example =
    Reach-order {s = start}
      (record {
        valid = blank-IsValid;
        empty = blank-Holds;
        idle = refl;
        sent_none = refl;
        received_none = refl;
      })
      (next (next (next here (load refl refl)) send-hello) receive-hello)
