-- ===== src/Channel.antt =====
-- torrent/system/ipc/channel.h and channel.cc: a ring of records in shared memory, with one writer
-- and one reader. A header pointer is its offset from `m_addr`. A function that changes the
-- channel returns the new one beside its outcome, also where it throws.
pub mod Layout
pub mod Header
pub mod Pieces
pub mod Write
pub mod Append
pub mod Short
pub mod Read
pub mod Lap
pub mod Space
pub mod Setup
pub mod Stale
pub mod Consumer
pub mod Stream
mod Tests
use shm_ipc.Base.{
  ℕ, ◌+◌, ◌-◌, ◌*◌, ◌/◌, ◌%◌, ◌^◌, min, max, Bool, true, false, not, ◌&&◌, ◌||◌, Option, none, some,
  List, if◌then◌else◌, ltb, leb, ◌==◌, add32, sub32, take, drop, String,
}
use shm_ipc.Base.Outcome.{Outcome, returns, throws, internal_error}
use shm_ipc.Memory.{Mem, write_bytes, load32, store32}

-- `LT_SMP_CACHE_BYTES`, set by build.sh, and `sizeof(header_type)`.
abbrev pub cache_line_size : ℕ
cache_line_size = 64

abbrev pub header_size : ℕ
header_size = 8

abbrev pub split_threshold : ℕ
split_threshold = 4 * cache_line_size

-- The size of a padding header, `~uint32_t{}`.
abbrev pub padding_size : ℕ
padding_size = 2 ^ 32 - 1

pub record Channel : Type 0 where
  pub size : ℕ
  pub write_threshold : ℕ
  pub read_offset : ℕ
  pub write_offset : ℕ
  pub consumer_state : ℕ
  pub mem : Mem

-- `EAGAIN` is the return of -1 with that errno.
pub data WriteResult : Type 0 where
  wrote : ℕ → WriteResult
  again : WriteResult

abbrev pub throw_error {ℓ} : {A : Type ℓ} → Channel → String → Channel × Outcome A
throw_error ch msg = (ch, throws (internal_error msg))

-- `(size + 63) & ~63`: the mask clears the six low bits.
unfoldable pub align_size_to_cacheline : ℕ → ℕ
align_size_to_cacheline size = add32 size (cache_line_size - 1) / cache_line_size * cache_line_size

-- `size` is that of the segment, `base` the address of the channel, and `m_addr` stands one cache
-- line behind it (five words, aligned to a cache line).
unfoldable pub initialize : Channel → ℕ → ℕ → Channel × Outcome (Unit {0})
initialize ch base size =
    if not (base % cache_line_size == 0)
    then throw_error ch "Channel::initialize() this must be aligned to cache line size"
    else if not ((base + cache_line_size) % cache_line_size == 0)
    then throw_error ch "Channel::initialize() m_addr must be aligned to cache line size"
    else if (size == 0) || not (size % cache_line_size == 0)
    then throw_error ch
        "Channel::initialize() size must be non-zero and a multiple of cache line size"
    else let m_size = sub32 size cache_line_size in
      (
        record ch {
          size = m_size;
          write_threshold = align_size_to_cacheline (m_size / 8);
          read_offset = 0;
          write_offset = 0;
          consumer_state = 0;
        },
        returns tt,
      )

unfoldable pub set_write_threshold : Channel → ℕ → Channel
set_write_threshold ch threshold = record ch { write_threshold = threshold }

-- The three comparisons of `verify_read_header`. The C++ subtraction there is signed, so that it
-- is moved to the other side.
unfoldable pub verify_read_header : Channel → ℕ → Bool
verify_read_header ch header =
    (header == ch.read_offset) && leb (load32 ch.mem header + header + header_size) ch.size

-- Writes a record at `offset`; the number is the offset behind it.
unfoldable pub write_to_header : Channel → ℕ → ℕ → ℕ → List ℕ → Channel × ℕ
write_to_header ch id offset size bytes = (
  record ch {
    mem =
        write_bytes (store32 (store32 ch.mem (offset + 4) id) offset size) (offset + header_size)
          (take size bytes);
  },
  align_size_to_cacheline (add32 (add32 offset header_size) size),
)

-- Nothing calls it.
unfoldable pub write_padding_header : Channel → ℕ → Channel
write_padding_header ch offset = record ch {
  mem = store32 (store32 ch.mem (offset + 4) 0) offset padding_size;
}

unfoldable pub available_write : Channel → ℕ
available_write ch =
    let end_offset = ch.write_offset in
    let start_offset = ch.read_offset in
    if ltb end_offset start_offset
    then sub32 (sub32 start_offset end_offset) cache_line_size
    else let tail_space = sub32 ch.size end_offset in
      let head_space = start_offset in
      if leb split_threshold tail_space
      then (let split_space = add32 tail_space head_space in
          if leb split_space cache_line_size then 0 else sub32 split_space cache_line_size)
      else if leb head_space cache_line_size
      then tail_space
      else max tail_space (sub32 head_space cache_line_size)

unfoldable pub can_write : Channel → ℕ → Bool
can_write ch size =
    leb (add32 (align_size_to_cacheline (add32 header_size size)) cache_line_size)
      (available_write ch)

-- The two lambdas of `write`.
abbrev pub size_with_padding : ℕ → ℕ
size_with_padding offset = if leb cache_line_size offset then offset - cache_line_size else 0

abbrev pub data_size : ℕ → ℕ
data_size size = if leb cache_line_size size then size - header_size else 0

-- The end of `write`: its checks, and the store that publishes the new offset.
unfoldable pub publish : Channel → ℕ → ℕ → ℕ → ℕ → ℕ → Channel × Outcome WriteResult
publish ch size start_offset end_offset first_size second_size =
    if not (end_offset % cache_line_size == 0)
    then throw_error ch "Channel::write() end_offset not aligned to cache line size"
    else if ltb ch.size end_offset
    then throw_error ch "Channel::write() end_offset exceeds buffer size"
    else if add32 first_size second_size == 0
    then throw_error ch "Channel::write() wrote zero bytes"
    else if ltb size (add32 first_size second_size)
    then throw_error ch "Channel::write() wrote more bytes than requested"
    else if (first_size == 0) && leb start_offset end_offset
    then throw_error ch "Channel::write() first_size is zero but end_offset >= start_offset"
    else (record ch { write_offset = end_offset }, returns (wrote (add32 first_size second_size)))

-- The second record, at the start of the buffer or behind the last one.
unfoldable pub write_second :
    Channel → ℕ → ℕ → List ℕ → ℕ → ℕ → ℕ → ℕ → Channel × Outcome WriteResult
write_second ch id size bytes start_offset end_offset first_size second_size =
    let (ch', end_offset') =
      if ltb 0 second_size
      then write_to_header ch id end_offset second_size (drop first_size bytes)
      else (ch, end_offset) in
    publish ch' size start_offset end_offset' first_size second_size

-- The branch `end_offset >= start_offset`: the free space is at both ends.
unfoldable pub write_behind : Channel → ℕ → ℕ → List ℕ → ℕ → ℕ → Channel × Outcome WriteResult
write_behind ch id size bytes start_offset end_offset =
    let first_size = min size (data_size (sub32 ch.size end_offset)) in
    let second_size = min (sub32 size first_size) (data_size (size_with_padding start_offset)) in
    if ltb (add32 first_size second_size) (min size ch.write_threshold)
    then (if start_offset == end_offset
        then throw_error ch "Channel::write() start_offset == end_offset but can't write"
        else (ch, returns again))
    else let (ch', end_offset') = write_to_header ch id end_offset first_size bytes in
      if ltb 0 second_size
      then (if not (end_offset' == ch'.size)
          then throw_error ch' "Channel::write() end_offset not at end of buffer"
          else write_second ch' id size bytes start_offset 0 first_size second_size)
      else write_second ch' id size bytes start_offset end_offset' first_size second_size

-- The other branch: the free space lies between the writer and the reader.
unfoldable pub write_between : Channel → ℕ → ℕ → List ℕ → ℕ → ℕ → Channel × Outcome WriteResult
write_between ch id size bytes start_offset end_offset =
    let second_size = min size (data_size (size_with_padding (sub32 start_offset end_offset))) in
    if ltb second_size (min size ch.write_threshold)
    then (ch, returns again)
    else write_second ch id size bytes start_offset end_offset 0 second_size

unfoldable pub write_at : Channel → ℕ → ℕ → List ℕ → ℕ → ℕ → Channel × Outcome WriteResult
write_at ch id size bytes start_offset end_offset =
    if leb start_offset end_offset
    then write_behind ch id size bytes start_offset end_offset
    else write_between ch id size bytes start_offset end_offset

-- Where the next record goes, from the offsets that the writer has read.
unfoldable pub write_from : Channel → ℕ → ℕ → ℕ → List ℕ → Channel × Outcome WriteResult
write_from ch start_offset id size bytes =
    let end_offset = ch.write_offset in
    if end_offset == ch.size
    then (if start_offset == 0
        then (ch, returns again)
        else write_at ch id size bytes start_offset 0)
    else if sub32 start_offset end_offset == cache_line_size
    then (ch, returns again)
    else write_at ch id size bytes start_offset end_offset

-- `none` is a null `data`. The result stands for an `int`: `IsValid` keeps it below 2 ^ 31. The
-- flag `wake_reader` is left out: `write` only ever clears it.
unfoldable pub write : Channel → ℕ → ℕ → Option (List ℕ) → Channel × Outcome WriteResult
write ch id size bytes =
    if id == 0 then throw_error ch "Channel::write() invalid id" else elim bytes [
      | none ↦ throw_error ch "Channel::write() data is null"
      | some payload ↦
          if size == 0
          then throw_error ch "Channel::write() size is zero"
          else write_from ch ch.read_offset id size payload
    ]

-- The end of `read_header`: `header` is the offset where the record is read.
unfoldable pub read_verified : Channel → ℕ → Channel × Outcome (Option ℕ)
read_verified ch header =
    if not (verify_read_header ch header)
    then throw_error ch "Channel::read_header() header size exceeds buffer size"
    else (ch, returns (some header))

unfoldable pub read_header : Channel → Channel × Outcome (Option ℕ)
read_header ch =
    let start_offset = ch.read_offset in
    let end_offset = ch.write_offset in
    if start_offset == end_offset
    then (ch, returns none)
    else if load32 ch.mem start_offset == padding_size
    then (if ltb start_offset end_offset
        then throw_error ch "Channel::read_header() padding header but no wrap"
        else if 0 == end_offset
        then throw_error ch "Channel::read_header() padding header but no data after wrap"
        else if load32 ch.mem 0 == padding_size
        then throw_error ch "Channel::read_header() consecutive padding headers"
        else read_verified (record ch { read_offset = 0 }) 0)
    else read_verified ch start_offset

unfoldable pub consume_header : Channel → ℕ → Channel × Outcome (Unit {0})
consume_header ch header =
    let new_start_offset =
      add32 header (align_size_to_cacheline (add32 header_size (load32 ch.mem header))) in
    if not (verify_read_header ch header)
    then throw_error ch "Channel::consume_header() header size exceeds buffer size"
    else if ltb ch.size new_start_offset
    then throw_error ch "Channel::consume_header() new_start_offset exceeds buffer size"
    else if new_start_offset == ch.size
    then (record ch { read_offset = 0 }, returns tt)
    else (record ch { read_offset = new_start_offset }, returns tt)
