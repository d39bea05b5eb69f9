-- ===== src/Router/Polling.antt =====
-- The reader's turn around its poll in router.cc (`process_reads_pre_polling`, the wait, and
-- `process_reads_post_polling`) against `Router::write` on the other side, step by step. A store of
-- the reader may wait in its store buffer, as a release store does on x86: `fenced` says that it
-- does not wait beyond the reader's next look at the channel.
use shm_ipc.Base.{ℕ, ◌≡◌, ◌≢◌, Bool, true, false, Option, none, some, List, if◌then◌else◌}
use shm_ipc.Base.Outcome.{returns}
use shm_ipc.Channel.{Channel, wrote, write_from, read_header, consume_header}
use shm_ipc.Router.{flag_polling, mark_interrupted}

-- Where the reader is: it reads; it has announced that it polls and looks once more; it waits, or
-- is about to; it is back and has not yet withdrawn the announcement.
pub data Phase : Type 0 where
  running announced sleeping woken : Phase

-- Where the writer is: behind the publication of a record, or behind the exchange that tells it to
-- interrupt.
pub data Writer : Type 0 where
  idle published waking : Writer

-- `buffered` is the reader's store to consumer_state that the writer cannot see yet, and `pending`
-- whether there is a byte to read at the reader's end of the wakeup descriptors.
pub record System : Type 0 where
  pub channel : Channel
  pub phase : Phase
  pub writer : Writer
  pub buffered : Option ℕ
  pub pending : Bool

-- The writer's own view of read_offset may be old: `start` is any.
pub data Step (fenced : Bool) (s t : System) : Type 0 where
  publish :
      (start id size n : ℕ) (bytes : List ℕ) (ch : Channel)
      → s.writer ≡ idle
      → write_from s.channel start id size bytes ≡ (ch, returns (wrote n))
      → t ≡ record s { channel = ch; writer = published }
      → Step fenced s t
  exchange :
      s.writer ≡ published
      → t ≡ record s {
        channel = (mark_interrupted s.channel).0;
        writer = if (mark_interrupted s.channel).1 then waking else idle;
      }
      → Step fenced s t
  interrupt : s.writer ≡ waking → t ≡ record s { writer = idle; pending = true } → Step fenced s t
  consume :
      (h : ℕ) (ch ch' : Channel)
      → s.phase ≢ sleeping
      → read_header s.channel ≡ (ch, returns (some h))
      → consume_header ch h ≡ (ch', returns tt)
      → t ≡ record s { channel = ch' }
      → Step fenced s t
  announce :
      s.phase ≡ running
      → s.buffered ≡ none
      → t ≡ record s { phase = announced; buffered = some flag_polling }
      → Step fenced s t
  land :
      (v : ℕ)
      → s.buffered ≡ some v
      → t ≡ record s { channel = record s.channel { consumer_state = v }; buffered = none }
      → Step fenced s t
  sleep :
      (ch : Channel)
      → s.phase ≡ announced
      → (fenced ≡ true → s.buffered ≡ none)
      → read_header s.channel ≡ (ch, returns none)
      → t ≡ record s { phase = sleeping }
      → Step fenced s t
  wake : s.phase ≡ sleeping → t ≡ record s { phase = woken } → Step fenced s t
  drain : s.phase ≡ woken → t ≡ record s { pending = false } → Step fenced s t
  withdraw :
      s.phase ≡ woken
      → s.buffered ≡ none
      → t ≡ record s { phase = running; buffered = some 0 }
      → Step fenced s t

pub data Reach (fenced : Bool) (s : System) : System → Type 0 where
  here : Reach fenced s s
  next : {t u : System} → Reach fenced s t → Step fenced t u → Reach fenced s u

-- The reader reads, nothing waits in its buffer, and the writer is at rest.
pub record AtRest (s : System) : Type 0 where
  pub reads : s.phase ≡ running
  pub rests : s.writer ≡ idle
  pub landed : s.buffered ≡ none
  pub quiet : s.channel.consumer_state ≡ 0
