-- ===== src/Channel/Stream.antt =====
-- A writer and a reader on one channel, interleaved. The writer's call of `Channel::write` is two
-- steps: it loads the reader's offset, and later it writes and publishes with the offset that it
-- has loaded. The reader's step is `read_header`, a copy of the record, and `consume_header`, as in
-- a round of the loop in `Router::process_reads`.
pub mod Replay
pub mod Invariant
pub mod Order
use shm_ipc.Base.{
  ℕ, zero, suc, ◌+◌, ◌≤◌, ◌<◌, ◌≡◌, List, [], ◌∷◌, ◌++◌, Option, none, some, length, take, u32_mod,
}
use shm_ipc.Base.Outcome.{Outcome, returns}
use shm_ipc.Memory.{Mem, load32, read_bytes}
use shm_ipc.Channel.{Channel, wrote, again, header_size, write_from, read_header, consume_header}

-- A byte with the id of the record that carries it.
abbrev pub Tagged : Type 0
Tagged = ℕ × ℕ

unfoldable pub tag : ℕ → List ℕ → List Tagged
tag id [] = []
tag id (b ∷ bs) = (id, b) ∷ tag id bs

pub record System : Type 0 where
  pub channel : Channel
  -- The reader's offset as the writer has loaded it, within a call of `write`.
  pub loaded : Option ℕ
  pub sent : List Tagged
  pub received : List Tagged

-- The record whose header stands at offset `h`, as the reader sees it.
abbrev pub seen : Mem → ℕ → List Tagged
seen m h = tag (load32 m (h + 4)) (read_bytes m (h + header_size) (load32 m h))

-- A call of `write` with arguments that it accepts.
pub record Call : Type 0 where
  pub id : ℕ
  pub size : ℕ
  pub bytes : List ℕ
  pub id_pos : 0 < id
  pub id_small : id < u32_mod
  pub size_pos : 0 < size
  pub size_small : size < u32_mod
  pub size_fits : size ≤ length bytes

pub data Step (s t : System) : Type 0 where
  load : s.loaded ≡ none → t ≡ record s { loaded = some s.channel.read_offset } → Step s t
  publish :
      (c : Call) (start n : ℕ) (ch : Channel)
      → s.loaded ≡ some start
      → write_from s.channel start c.id c.size c.bytes ≡ (ch, returns (wrote n))
      → t ≡ record s { channel = ch; loaded = none; sent = s.sent ++ tag c.id (take n c.bytes) }
      → Step s t
  refuse :
      (c : Call) (start : ℕ) (ch : Channel)
      → s.loaded ≡ some start
      → write_from s.channel start c.id c.size c.bytes ≡ (ch, returns again)
      → t ≡ record s { channel = ch; loaded = none }
      → Step s t
  -- The last premise leaves out the round that `Lap` is about: the reader goes back to the start of
  -- the buffer while the writer stands at its very end.
  receive :
      (h : ℕ) (ch ch' : Channel)
      → read_header s.channel ≡ (ch, returns (some h))
      → consume_header ch h ≡ (ch', returns tt)
      → ¬ ((ch.write_offset ≡ ch.size) × (ch'.read_offset ≡ 0))
      → t ≡ record s { channel = ch'; received = s.received ++ seen ch.mem h }
      → Step s t

pub data Reach (s : System) : System → Type 0 where
  here : Reach s s
  next : {t u : System} → Reach s t → Step t u → Reach s u
