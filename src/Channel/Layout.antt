-- ===== src/Channel/Layout.antt =====
-- The records that a channel's memory holds between its offsets: the abstract view of channel.cc.
use shm_ipc.Base.{
  ℕ, ◌+◌, ◌*◌, ◌/◌, ◌%◌, ◌^◌, ◌≤◌, ◌<◌, ◌≡◌, ◌∙◌, List, [], ◌∷◌, ◌++◌, arith, length, u32_mod,
  add32,
}
use shm_ipc.Memory.{Mem, Agrees, load32, read_bytes, read_bytes-Agrees, load32-Agrees}
use shm_ipc.Channel.{Channel, cache_line_size, header_size, align_size_to_cacheline}

pub record Message : Type 0 where
  pub id : ℕ
  pub payload : List ℕ

-- The bytes that a record of `n` payload bytes takes up.
abbrev pub span : ℕ → ℕ
span n = (header_size + n + 63) / cache_line_size * cache_line_size

abbrev pub IsAligned : ℕ → Type 0
IsAligned o = o % cache_line_size ≡ 0

pub align_lem :
    (o n : ℕ)
    → IsAligned o
    → o + n + 128 < u32_mod
    → align_size_to_cacheline (o + header_size + n) ≡ o + span n
unfolding align_size_to_cacheline add32
align_lem o n a h = omega arith

-- The record at offset `o`.
pub record Stored (m : Mem) (o : ℕ) (r : Message) : Type 0 where
  pub stored_size : load32 m o ≡ length r.payload
  pub stored_id : load32 m (o + 4) ≡ r.id
  pub stored_payload : read_bytes m (o + header_size) (length r.payload) ≡ r.payload

-- The records from offset `a` up to `b`, one behind the other.
abbrev pub Run : Mem → ℕ → ℕ → List Message → Type 0
Run m a b [] = a ≡ b
Run m a b (r ∷ rs) = Stored m a r × Run m (a + span (length r.payload)) b rs

pub Run-le : (m : Mem) (a b : ℕ) (rs : List Message) → Run m a b rs → a ≤ b
Run-le m a b [] h = omega arith
Run-le m a b (r ∷ rs) h = omega (arith, Run-le m (a + span (length r.payload)) b rs h.1)

pub Stored-Agrees :
    (m m' : Mem) (o : ℕ) (r : Message)
    → Agrees m m' o (o + span (length r.payload))
    → Stored m o r
    → Stored m' o r
Stored-Agrees m m' o r g s = record {
  stored_size = load32-Agrees m m' o (λ q h k. g q (omega arith) (omega arith)) ∙ s.stored_size;
  stored_id = load32-Agrees m m' (o + 4) (λ q h k. g q (omega arith) (omega arith)) ∙ s.stored_id;
  stored_payload =
      read_bytes-Agrees m m' (o + header_size) (length r.payload)
        (λ q h k. g q (omega arith) (omega arith))
      ∙ s.stored_payload;
}

-- Bytes outside a run do not matter to it.
pub Run-Agrees :
    (m m' : Mem) (a b : ℕ) (rs : List Message) → Agrees m m' a b → Run m a b rs → Run m' a b rs
Run-Agrees m m' a b [] g h = h
Run-Agrees m m' a b (r ∷ rs) g h =
    let below = Run-le m (a + span (length r.payload)) b rs h.1 in
    (
      Stored-Agrees m m' a r (λ q l k. g q l (omega arith)) h.0,
      Run-Agrees m m' (a + span (length r.payload)) b rs (λ q l k. g q (omega arith) k) h.1,
    )

pub Run-append :
    (m : Mem) (a b c : ℕ) (rs ss : List Message)
    → Run m a b rs
    → Run m b c ss
    → Run m a c (rs ++ ss)
Run-append m a b c [] ss h k = rw h k
Run-append m a b c (r ∷ rs) ss h k =
    (h.0, Run-append m (a + span (length r.payload)) b c rs ss h.1 k)

-- The unread records, oldest first. Equal offsets mean an empty channel, so that a channel is
-- never full to the last byte.
pub data Holds (ch : Channel) : List Message → Type 0 where
  straight : {rs : List Message} → Run ch.mem ch.read_offset ch.write_offset rs → Holds ch rs
  wrapped :
      {rs : List Message} (tail head : List Message)
      → ch.write_offset < ch.read_offset
      → Run ch.mem ch.read_offset ch.size tail
      → Run ch.mem 0 ch.write_offset head
      → rs ≡ tail ++ head
      → Holds ch rs

-- What every operation keeps of the offsets. The threshold leaves room for one write into an empty
-- channel wherever its offsets stand.
pub record IsValid (ch : Channel) : Type 0 where
  pub size_pos : 0 < ch.size
  pub size_small : ch.size < 2 ^ 31
  pub size_aligned : IsAligned ch.size
  pub read_aligned : IsAligned ch.read_offset
  pub write_aligned : IsAligned ch.write_offset
  pub read_in : ch.read_offset < ch.size
  pub write_in : ch.write_offset ≤ ch.size
  pub threshold_pos : 0 < ch.write_threshold
  pub threshold_fits : ch.write_threshold + 80 ≤ ch.size
