-- ===== src/Channel/Short.antt =====
-- `Channel::write` of a short message behind the last record (channel.cc): one record in one cache
-- line.
use shm_ipc.Base.{
  ℕ, ◌≤◌, ◌<◌, ◌≡◌, subst, List, [], ◌∷◌, ◌++◌, arith, length, take_all, u32_mod, sub32, leb-true,
  ==_false, some,
}
use native.Mathlib.Nat.{add-zero}
use shm_ipc.Base.Outcome.{returns}
use shm_ipc.Channel.{Channel, wrote, cache_line_size, write_behind, write_at, write_from, write}
use shm_ipc.Channel.Layout.{Message, Run, Run-le, Holds, straight, IsValid}
use shm_ipc.Channel.Pieces.{one_piece, Run-header_mem}
use shm_ipc.Channel.Write.{first, second, behind_one}
use shm_ipc.Channel.Append.{sub32-ne-line}

-- The channel behind the write.
abbrev pub appended : Channel → ℕ → List ℕ → Channel
appended ch id bytes = one_piece ch id ch.write_offset (length bytes) bytes

-- The records that lead from the reader's offset to the writer's, with a cache line free behind them.
pub record Open (ch : Channel) (rs : List Message) : Type 0 where
  pub valid : IsValid ch
  pub run : Run ch.mem ch.read_offset ch.write_offset rs
  pub free : ch.write_offset < ch.size

pub Open-Holds : {ch : Channel} {rs : List Message} → Open ch rs → Holds ch rs
Open-Holds o = straight o.run

module _ (ch : Channel) (rs : List Message) (id : ℕ) (bytes : List ℕ) (o : Open ch rs)
    (hid : 0 < id) (small_id : id < u32_mod) (pos : 0 < length bytes)
    (short : length bytes ≤ 56) where
  first_lem : first ch (length bytes) ch.write_offset ≡ length bytes
  first_lem = let v = o.valid in let lt = o.free in omega arith

  second_lem : second ch (length bytes) ch.write_offset ≡ 0
  second_lem = let v = o.valid in let lt = o.free in omega arith

  behind_lem :
      write_behind ch id (length bytes) bytes ch.read_offset ch.write_offset
      ≡ (appended ch id bytes, returns (wrote (length bytes)))
  behind_lem =
      let v = o.valid in
      let lt = o.free in
      rw (first_lem, add-zero) at
        (behind_one ch id (length bytes) bytes v pos (omega arith) ch.write_offset v.write_aligned
          lt (omega arith) second_lem)

  pub write-short :
      write ch id (length bytes) (some bytes)
      ≡ (appended ch id bytes, returns (wrote (length bytes)))
  unfolding write write_from write_at
  write-short =
      let v = o.valid in
      let lt = o.free in
      let le = Run-le ch.mem ch.read_offset ch.write_offset rs o.run in
      rw
        (
          ==_false id 0 (omega arith),
          ==_false (length bytes) 0 (omega arith),
          ==_false ch.write_offset ch.size (omega arith),
          ==_false (sub32 ch.read_offset ch.write_offset) cache_line_size
              (sub32-ne-line ch.read_offset ch.write_offset le (omega arith)),
          leb-true ch.read_offset ch.write_offset le,
        )
        behind_lem

  pub appended-Run :
      Run
        (appended ch id bytes).mem
        ch.read_offset
        (appended ch id bytes).write_offset
        (rs ++ record { id = id; payload = bytes } ∷ [])
  appended-Run =
      subst
        (λ (p : List ℕ).
          Run (appended ch id bytes).mem ch.read_offset (appended ch id bytes).write_offset
            (rs ++ record { id = id; payload = p } ∷ []))
        (take_all (length bytes) bytes (omega arith))
        (Run-header_mem ch.mem ch.read_offset ch.write_offset id (length bytes) bytes rs small_id
          (omega arith) (omega arith) o.run)

  pub appended-IsValid : IsValid (appended ch id bytes)
  appended-IsValid = let v = o.valid in let lt = o.free in omega arith
