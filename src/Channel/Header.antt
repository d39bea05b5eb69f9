-- ===== src/Channel/Header.antt =====
-- `Channel::write_to_header` and the closing checks of `Channel::write`: what is in memory after
-- one record has been written, and when the new offset is published.
use shm_ipc.Base.{
  ℕ, ◌+◌, ◌≤◌, ◌<◌, ◌≡◌, ◌⊎◌, sym, ◌∙◌, List, arith, length, take, u32_mod, add32_lem, length-take,
}
use shm_ipc.Base.Outcome.{returns}
use shm_ipc.Memory.{
  Mem, Agrees, store32, write_bytes, bytes32, write_bytes-below, write_bytes-above,
  read_bytes-write_bytes, load32-store32, load32-Agrees,
}
use shm_ipc.Channel.{Channel, wrote, header_size, write_to_header, publish}
use shm_ipc.Channel.Layout.{Message, Stored, span, IsAligned, align_lem}

-- Memory after a record of `n` bytes has been written at offset `o`.
abbrev pub header_mem : Mem → ℕ → ℕ → ℕ → List ℕ → Mem
header_mem m id o n bytes =
    write_bytes (store32 (store32 m (o + 4) id) o n) (o + header_size) (take n bytes)

abbrev pub piece : ℕ → ℕ → List ℕ → Message
piece id n bytes = record { id = id; payload = take n bytes }

store32-below : (m : Mem) (o v q : ℕ) → q < o → store32 m o v q ≡ m q
unfolding store32
store32-below m o v q h = write_bytes-below m o (bytes32 v) q h

store32-above : (m : Mem) (o v q : ℕ) → o + 4 ≤ q → store32 m o v q ≡ m q
unfolding store32
store32-above m o v q h = write_bytes-above m o (bytes32 v) q h

pub header_mem-below :
    (m : Mem) (id o n : ℕ) (bytes : List ℕ) (a : ℕ) → Agrees m (header_mem m id o n bytes) a o
header_mem-below m id o n bytes a q h k =
    write_bytes-below _ (o + header_size) (take n bytes) q (omega arith)
    ∙ store32-below _ o n q k
    ∙ store32-below m (o + 4) id q (omega arith)

pub header_mem-above :
    (m : Mem) (id o n : ℕ) (bytes : List ℕ) (a b : ℕ)
    → o + span n ≤ a
    → Agrees m (header_mem m id o n bytes) a b
header_mem-above m id o n bytes a b l q h k =
    write_bytes-above _ (o + header_size) (take n bytes) q (omega (arith, length-take n bytes))
    ∙ store32-above _ o n q (omega arith)
    ∙ store32-above m (o + 4) id q (omega arith)

pub header_mem-Stored :
    (m : Mem) (id o n : ℕ) (bytes : List ℕ)
    → id < u32_mod
    → n < u32_mod
    → n ≤ length bytes
    → Stored (header_mem m id o n bytes) o (piece id n bytes)
header_mem-Stored m id o n bytes hid hn hlen =
    let sized : length (take n bytes) ≡ n = omega (arith, length-take n bytes) in
    record {
      stored_size =
          load32-Agrees (store32 (store32 m (o + 4) id) o n) _ o
            (λ q h k. write_bytes-below _ (o + header_size) (take n bytes) q (omega arith))
          ∙ load32-store32 _ o n hn
          ∙ sym sized;
      stored_id =
          load32-Agrees (store32 m (o + 4) id) _ (o + 4) (λ q h k.
            write_bytes-below _ (o + header_size) (take n bytes) q (omega arith)
            ∙ store32-above _ o n q h)
          ∙ load32-store32 m (o + 4) id hid;
      stored_payload = read_bytes-write_bytes _ (o + header_size) (take n bytes);
    }

pub write_to_header_lem :
    (ch : Channel) (id o n : ℕ) (bytes : List ℕ)
    → IsAligned o
    → o + n + 128 < u32_mod
    → write_to_header ch id o n bytes
      ≡ (record ch { mem = header_mem ch.mem id o n bytes }, o + span n)
unfolding write_to_header
write_to_header_lem ch id o n bytes a h = rw (
  add32_lem o header_size (omega arith),
  add32_lem (o + header_size) n (omega arith),
  align_lem o n a h,
)

-- The checks pass wherever the sizes and the offset are as `write` computes them.
pub publish_lem :
    (ch : Channel) (size start_offset e a b : ℕ)
    → IsAligned e
    → e ≤ ch.size
    → 0 < a + b
    → a + b ≤ size
    → size < u32_mod
    → (0 < a) ⊎ (e < start_offset)
    → publish ch size start_offset e a b ≡ (record ch { write_offset = e }, returns (wrote (a + b)))
unfolding publish
publish_lem ch size start_offset e a b al le pos fits small ahead =
    ground (arith, add32_lem a b (omega arith))
