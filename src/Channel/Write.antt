-- ===== src/Channel/Write.antt =====
-- `Channel::write` on a valid channel, branch by branch.
use shm_ipc.Base.{
  ℕ, ◌+◌, ◌-◌, ◌≤◌, ◌<◌, ◌≡◌, refl, inl, inr, List, arith, drop, min, u32_mod, add32, add32_lem,
  sub32, sub32_lem, ltb, ◌==◌, ltb-true, ltb-false, ==_true, if◌then◌else◌, not,
}
use shm_ipc.Base.Outcome.{returns}
use shm_ipc.Channel.{
  Channel, wrote, again, throw_error, publish, write_second, write_behind, write_between, data_size,
  size_with_padding,
}
use shm_ipc.Channel.Layout.{span, IsAligned, IsValid}
use shm_ipc.Channel.Header.{header_mem, write_to_header_lem, publish_lem}
use shm_ipc.Channel.Pieces.{one_piece, two_pieces}

-- The payload bytes for which there is room: one record between the writer and the reader, or one
-- at the end and one at the start, each with its header, and a cache line is left free in front of
-- the reader.
abbrev pub room : Channel → ℕ
room ch =
    if ltb ch.write_offset ch.read_offset
    then ch.read_offset - ch.write_offset - 72
    else (ch.size - ch.write_offset - 8) + (ch.read_offset - 72)

data_size_lem : (n : ℕ) → IsAligned n → data_size n ≡ n - 8
data_size_lem n h = ground arith

padded_data_size_lem : (n : ℕ) → IsAligned n → data_size (size_with_padding n) ≡ n - 72
padded_data_size_lem n h = ground arith

write_second_none :
    (ch : Channel) (id size : ℕ) (bytes : List ℕ) (start_offset e a : ℕ)
    → write_second ch id size bytes start_offset e a 0 ≡ publish ch size start_offset e a 0
unfolding write_second
write_second_none ch id size bytes start_offset e a = refl

write_second_some :
    (ch : Channel) (id size : ℕ) (bytes : List ℕ) (start_offset e a b : ℕ)
    → 0 < b
    → IsAligned e
    → e + b + 128 < u32_mod
    → write_second ch id size bytes start_offset e a b
      ≡ publish
          (record ch { mem = header_mem ch.mem id e b (drop a bytes) })
          size
          start_offset
          (e + span b)
          a
          b
unfolding write_second
write_second_some ch id size bytes start_offset e a b pos al small =
    rw (ltb-true 0 b pos, write_to_header_lem ch id e b (drop a bytes) al small)

-- The sizes that `write_behind` computes for an offset `e`.
abbrev pub first : Channel → ℕ → ℕ → ℕ
first ch size e = min size (ch.size - e - 8)

abbrev pub second : Channel → ℕ → ℕ → ℕ
second ch size e = min (size - first ch size e) (ch.read_offset - 72)

module _ (ch : Channel) (id size : ℕ) (bytes : List ℕ) (v : IsValid ch) (pos : 0 < size)
    (small : size < u32_mod) where
  behind_sizes :
      (e : ℕ)
      → IsAligned e
      → e ≤ ch.size
      → (data_size (sub32 ch.size e) ≡ ch.size - e - 8)
        × (sub32 size (first ch size e) ≡ size - first ch size e)
        × (data_size (size_with_padding ch.read_offset) ≡ ch.read_offset - 72)
        × (add32 (first ch size e) (second ch size e) ≡ first ch size e + second ch size e)
  behind_sizes e al le = (
    rw (sub32_lem ch.size e le (omega arith)) (data_size_lem _ (omega arith)),
    sub32_lem size _ (omega arith) small,
    padded_data_size_lem ch.read_offset v.read_aligned,
    add32_lem (first ch size e) (second ch size e) (omega arith),
  )

  -- The branch, with its sizes computed.
  behind_lem :
      (e : ℕ)
      → IsAligned e
      → e < ch.size
      → write_behind ch id size bytes ch.read_offset e ≡ (
          if ltb (first ch size e + second ch size e) (min size ch.write_threshold)
          then (if ch.read_offset == e
              then throw_error ch "Channel::write() start_offset == end_offset but can't write"
              else (ch, returns again))
          else let ch' = record ch { mem = header_mem ch.mem id e (first ch size e) bytes } in
            if ltb 0 (second ch size e)
            then (if not (e + span (first ch size e) == ch.size)
                then throw_error ch' "Channel::write() end_offset not at end of buffer"
                else write_second ch' id size bytes ch.read_offset 0
                    (first ch size e)
                    (second ch size e))
            else write_second ch' id size bytes ch.read_offset
                (e + span (first ch size e))
                (first ch size e)
                (second ch size e))
  unfolding write_behind
  behind_lem e al lt =
      let z = behind_sizes e al (omega arith) in
      rw (z.0, z.1, z.2, z.3, write_to_header_lem ch id e (first ch size e) bytes al (omega arith))

  pub behind_full :
      (e : ℕ)
      → IsAligned e
      → e < ch.size
      → (ch.size - e - 8) + (ch.read_offset - 72) < min size ch.write_threshold
      → write_behind ch id size bytes ch.read_offset e ≡ (ch, returns again)
  behind_full e al lt h = rw (behind_lem e al lt) (ground arith)

  pub behind_one :
      (e : ℕ)
      → IsAligned e
      → e < ch.size
      → min size ch.write_threshold ≤ (ch.size - e - 8) + (ch.read_offset - 72)
      → second ch size e ≡ 0
      → write_behind ch id size bytes ch.read_offset e
        ≡ (one_piece ch id e (first ch size e) bytes, returns (wrote (first ch size e + 0)))
  behind_one e al lt h none_left =
      rw
        (
          behind_lem e al lt,
          ltb-false (first ch size e + second ch size e) (min size ch.write_threshold)
              (omega arith),
          none_left,
          write_second_none,
        )
        (publish_lem (record ch { mem = header_mem ch.mem id e (first ch size e) bytes }) size
          ch.read_offset (e + span (first ch size e)) (first ch size e) 0 (omega arith)
          (omega arith) (omega arith) (omega arith) small (inl (omega arith)))

  pub behind_two :
      (e : ℕ)
      → IsAligned e
      → e < ch.size
      → min size ch.write_threshold ≤ (ch.size - e - 8) + (ch.read_offset - 72)
      → 0 < second ch size e
      → write_behind ch id size bytes ch.read_offset e ≡ (
        two_pieces ch id e (first ch size e) (second ch size e) bytes,
        returns (wrote (first ch size e + second ch size e)),
      )
  behind_two e al lt h more =
      rw
        (
          behind_lem e al lt,
          ltb-false (first ch size e + second ch size e) (min size ch.write_threshold)
              (omega arith),
          ltb-true 0 (second ch size e) more,
          ==_true (e + span (first ch size e)) ch.size (omega arith),
          write_second_some (record ch { mem = header_mem ch.mem id e (first ch size e) bytes }) id
              size bytes ch.read_offset 0 (first ch size e) (second ch size e) more refl
              (omega arith),
        )
        (publish_lem
          (record ch {
            mem =
                header_mem (header_mem ch.mem id e (first ch size e) bytes) id 0 (second ch size e)
                  (drop (first ch size e) bytes);
          })
          size ch.read_offset (0 + span (second ch size e)) (first ch size e) (second ch size e)
          (omega arith) (omega arith) (omega arith) (omega arith) small (inl (omega arith)))

  pub between_full :
      (e : ℕ)
      → IsAligned e
      → e < ch.read_offset
      → ch.read_offset - e - 72 < min size ch.write_threshold
      → write_between ch id size bytes ch.read_offset e ≡ (ch, returns again)
  unfolding write_between
  between_full e al lt h =
      rw
        (
          sub32_lem ch.read_offset e (omega arith) (omega arith),
          padded_data_size_lem (ch.read_offset - e) (omega arith),
        )
        (ground arith)

  pub between_some :
      (e : ℕ)
      → IsAligned e
      → e < ch.read_offset
      → min size ch.write_threshold ≤ ch.read_offset - e - 72
      → write_between ch id size bytes ch.read_offset e ≡ (
        one_piece ch id e (min size (ch.read_offset - e - 72)) bytes,
        returns (wrote (0 + min size (ch.read_offset - e - 72))),
      )
  unfolding write_between
  between_some e al lt h =
      let b = min size (ch.read_offset - e - 72) in
      rw
        (
          sub32_lem ch.read_offset e (omega arith) (omega arith),
          padded_data_size_lem (ch.read_offset - e) (omega arith),
          ltb-false b (min size ch.write_threshold) (omega arith),
          write_second_some ch id size bytes ch.read_offset e 0 b (omega arith) al (omega arith),
        )
        (publish_lem (record ch { mem = header_mem ch.mem id e b bytes }) size ch.read_offset
          (e + span b) 0 b (omega arith) (omega arith) (omega arith) (omega arith) small
          (inr (omega arith)))

pub room_behind :
    (ch : Channel)
    → ch.read_offset ≤ ch.write_offset
    → room ch ≡ (ch.size - ch.write_offset - 8) + (ch.read_offset - 72)
room_behind ch h = rw (ltb-false ch.write_offset ch.read_offset h)

pub room_between :
    (ch : Channel)
    → ch.write_offset < ch.read_offset
    → room ch ≡ ch.read_offset - ch.write_offset - 72
room_between ch h = rw (ltb-true ch.write_offset ch.read_offset h)
