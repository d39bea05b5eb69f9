-- ===== src/Channel/Space.antt =====
-- `Channel::available_write` and `Channel::can_write` against what `Channel::write` accepts.
use shm_ipc.Base.{
  ℕ, ◌+◌, ◌-◌, ◌^◌, ◌≤◌, ◌<◌, ◌≡◌, List, arith, length, min, max, add32, sub32, u32_mod, leb→le,
  ltb, leb, true, some, if◌then◌else◌,
}
use shm_ipc.Base.Outcome.{returns}
use shm_ipc.Channel.{
  Channel, cache_line_size, header_size, available_write, can_write, align_size_to_cacheline, write,
  wrote,
}
use shm_ipc.Channel.Layout.{Message, span, Holds, IsValid}
use shm_ipc.Channel.Write.{room}
use shm_ipc.Channel.Append.{Written, full, sent, Appended, write-Written}

-- With no wrap-around: what `available_write` answers on a valid channel.
abbrev free_space : Channel → ℕ
free_space ch =
    if ltb ch.write_offset ch.read_offset
    then ch.read_offset - ch.write_offset - 64
    else if leb 256 (ch.size - ch.write_offset)
    then ch.size - ch.write_offset + ch.read_offset - 64
    else max (ch.size - ch.write_offset) (ch.read_offset - 64)

available_write_lem : (ch : Channel) → IsValid ch → available_write ch ≡ free_space ch
unfolding available_write add32 sub32
available_write_lem ch v = ground arith

free_space-room :
    (ch : Channel) (size : ℕ) → IsValid ch → span size + 64 ≤ free_space ch → size ≤ room ch
free_space-room ch size v h = ground arith

needed_lem :
    (size : ℕ)
    → size < 2 ^ 31
    → add32 (align_size_to_cacheline (add32 header_size size)) cache_line_size ≡ span size + 64
unfolding align_size_to_cacheline add32
needed_lem size small = omega arith

can_write-room :
    (ch : Channel) (size : ℕ)
    → IsValid ch
    → size < 2 ^ 31
    → can_write ch size ≡ true
    → size ≤ room ch
unfolding can_write
can_write-room ch size v small h = free_space-room ch size v (
    leb→le (span size + 64) (free_space ch)
      (rw (needed_lem size small, available_write_lem ch v) at h))

-- If `can_write` says yes to a size, then `write` accepts the whole of it: it answers that size,
-- and appends records of that id with exactly those bytes. The size is below 2 ^ 31, since the sum
-- in `can_write` wraps for the largest ones.
pub can_write-write :
    (ch : Channel) (rs : List Message) (id size : ℕ) (bytes : List ℕ)
    → IsValid ch
    → Holds ch rs
    → 0 < id
    → id < u32_mod
    → 0 < size
    → size < 2 ^ 31
    → size ≤ length bytes
    → can_write ch size ≡ true
    → (ch' : Channel) × (new : List Message) × (write ch id size (some bytes)
        ≡ (ch', returns (wrote size)))
      × Appended ch rs id bytes size ch' new
can_write-write ch rs id size bytes v h hid small_id pos small fits can =
    whole (write-Written ch rs id size bytes v h hid small_id pos (omega arith) fits)
  where
    enough : size ≤ room ch
    enough = can_write-room ch size v small can

    whole :
        Written ch rs id size bytes (write ch id size (some bytes))
        → (ch' : Channel) × (new : List Message) × (write ch id size (some bytes)
            ≡ (ch', returns (wrote size)))
          × Appended ch rs id bytes size ch' new
    whole (full lack e) = absurd (omega (arith, enough))
    whole (sent _ ch' new e a) =
        let all : min size (room ch) ≡ size = omega (arith, enough) in
        (ch', new, rw all at e, rw all at a)
