-- ===== src/Channel/Setup.antt =====
-- `Channel::initialize` and `Channel::set_write_threshold`: when they leave a valid channel.
use shm_ipc.Base.{
  ℕ, ◌+◌, ◌-◌, ◌*◌, ◌/◌, ◌%◌, ◌^◌, ◌≤◌, ◌<◌, ◌≡◌, refl, List, [], arith, add32, sub32_lem, ==_true,
  ==_false,
}
use shm_ipc.Base.Outcome.{returns}
use shm_ipc.Channel.{
  Channel, cache_line_size, initialize, set_write_threshold, align_size_to_cacheline,
}
use shm_ipc.Channel.Layout.{Message, Holds, straight, wrapped, IsValid, IsAligned}

initial_threshold : (n : ℕ) → n < 2 ^ 31 → align_size_to_cacheline (n / 8) ≡ (n / 8 + 63) / 64 * 64
unfolding align_size_to_cacheline add32
initial_threshold n h = omega arith

-- A segment of at least 256 bytes, a multiple of the cache line below 2 ^ 31, at an aligned address
-- becomes an empty valid channel, whatever its memory held; the call returns.
pub initialize-IsValid :
    (ch : Channel) (base size : ℕ)
    → IsAligned base
    → IsAligned size
    → 256 ≤ size
    → size < 2 ^ 31
    → (ch' : Channel) × (initialize ch base size ≡ (ch', returns tt))
      × IsValid ch'
      × Holds ch' []
      × (ch'.size ≡ size - cache_line_size)
      × (ch'.mem ≡ ch.mem)
      × (ch'.write_offset ≡ 0)
unfolding initialize
initialize-IsValid ch base size ab al big small = (
  record ch {
    size = size - 64;
    write_threshold = ((size - 64) / 8 + 63) / 64 * 64;
    read_offset = 0;
    write_offset = 0;
    consumer_state = 0;
  },
  rw (
    ==_true (base % cache_line_size) 0 ab,
    ==_true ((base + cache_line_size) % cache_line_size) 0 (omega arith),
    ==_false size 0 (omega arith),
    ==_true (size % cache_line_size) 0 al,
    sub32_lem size cache_line_size (omega arith) (omega arith),
    initial_threshold (size - 64) (omega arith),
  ),
  omega arith,
  straight refl,
  refl,
  refl,
  refl,
)

-- A new threshold keeps the channel valid and its records, if it is positive and leaves 80 bytes of
-- the buffer.
pub set_write_threshold-IsValid :
    (ch : Channel) (rs : List Message) (threshold : ℕ)
    → IsValid ch
    → Holds ch rs
    → 0 < threshold
    → threshold + 80 ≤ ch.size
    → IsValid (set_write_threshold ch threshold) × Holds (set_write_threshold ch threshold) rs
unfolding set_write_threshold
set_write_threshold-IsValid ch rs threshold v (straight run) pos fits = (omega arith, straight run)
set_write_threshold-IsValid ch rs threshold v (wrapped tail head lt t h e) pos fits =
    (omega arith, wrapped tail head lt t h e)
