-- ===== src/Channel/Append.antt =====
-- `Channel::write` against the queue of records that the channel holds.
use shm_ipc.Base.{
  ℕ, ◌+◌, ◌-◌, ◌^◌, ◌≤◌, ◌<◌, ◌≡◌, ◌≢◌, refl, inl, inr, sym, List, [], ◌∷◌, ◌++◌, arith, length,
  take, drop, min, u32_mod, sub32, sub32_lem, leb-true, leb-false, ==_true, ==_false, append-nil,
  some, lt-cases, eq-cases, take-append-take-drop,
}
use native.Mathlib.Nat.{add-zero, zero-add}
use shm_ipc.Base.Outcome.{Outcome, returns}
use shm_ipc.Channel.{
  Channel, WriteResult, wrote, again, cache_line_size, write_behind, write_between, write_at,
  write_from, write,
}
use shm_ipc.Channel.Layout.{
  Message, span, IsAligned, Run, Run-le, Holds, straight, wrapped, IsValid,
}
use shm_ipc.Channel.Header.{piece}
use shm_ipc.Channel.Pieces.{
  one_piece, two_pieces, behind-one-Holds, behind-two-Holds, between-Holds,
}
use shm_ipc.Channel.Write.{
  room, first, second, behind_full, behind_one, behind_two, between_full, between_some, room_behind,
  room_between,
}

-- Where the reader is not ahead, the wrapped distance to it is no cache line.
pub sub32-ne-line : (a b : ℕ) → a ≤ b → b < 2 ^ 31 → sub32 a b ≢ cache_line_size
unfolding sub32
sub32-ne-line a b le small = omega arith

-- The payload bytes of some records, in order.
unfoldable pub contents : List Message → List ℕ
contents [] = []
contents (r ∷ rs) = r.payload ++ contents rs

abbrev pub AllFrom : ℕ → List Message → Type 0
AllFrom id [] = Unit {0}
AllFrom id (r ∷ rs) = (r.id ≡ id) × AllFrom id rs

-- What `write` leaves alone.
pub record SameReader (ch ch' : Channel) : Type 0 where
  pub same_size : ch'.size ≡ ch.size
  pub same_threshold : ch'.write_threshold ≡ ch.write_threshold
  pub same_read : ch'.read_offset ≡ ch.read_offset
  pub same_consumer : ch'.consumer_state ≡ ch.consumer_state

-- The new records `new` of a write of `size` bytes that accepted `n` of them.
pub record Appended (ch : Channel) (rs : List Message) (id : ℕ) (bytes : List ℕ) (n : ℕ)
    (ch' : Channel) (new : List Message) : Type 0 where
  pub valid : IsValid ch'
  pub holds : Holds ch' (rs ++ new)
  pub content : contents new ≡ take n bytes
  pub from : AllFrom id new
  pub same : SameReader ch ch'

-- Either nothing changed, for lack of room, or all that fits has been appended.
pub data Written (ch : Channel) (rs : List Message) (id size : ℕ) (bytes : List ℕ)
    (r : Channel × Outcome WriteResult) : Type 0 where
  full :
      room ch < min size ch.write_threshold
      → r ≡ (ch, returns again)
      → Written ch rs id size bytes r
  sent :
      min size ch.write_threshold ≤ room ch
      → (ch' : Channel) (new : List Message) → r ≡ (ch', returns (wrote (min size (room ch))))
      → Appended ch rs id bytes (min size (room ch)) ch' new
      → Written ch rs id size bytes r

one_piece-Appended :
    (ch : Channel) (rs : List Message) (id o n : ℕ) (bytes : List ℕ)
    → IsValid ch
    → IsAligned o
    → o + span n ≤ ch.size
    → Holds (one_piece ch id o n bytes) (rs ++ (piece id n bytes ∷ []))
    → Appended ch rs id bytes n (one_piece ch id o n bytes) (piece id n bytes ∷ [])
unfolding contents
one_piece-Appended ch rs id o n bytes v al fits h = record {
  valid = omega arith;
  holds = h;
  content = append-nil (take n bytes);
  from = (refl, tt);
  same = record { same_size = refl; same_threshold = refl; same_read = refl; same_consumer = refl };
}

two_pieces-Appended :
    (ch : Channel) (rs : List Message) (id o a b : ℕ) (bytes : List ℕ)
    → IsValid ch
    → span b ≤ ch.size
    → Holds
        (two_pieces ch id o a b bytes)
        (rs ++ (piece id a bytes ∷ piece id b (drop a bytes) ∷ []))
    → Appended ch rs id bytes
        (a + b)
        (two_pieces ch id o a b bytes)
        (piece id a bytes ∷ piece id b (drop a bytes) ∷ [])
unfolding contents
two_pieces-Appended ch rs id o a b bytes v fits h = record {
  valid = omega arith;
  holds = h;
  content = rw (append-nil (take b (drop a bytes))) (take-append-take-drop a b bytes);
  from = (refl, (refl, tt));
  same = record { same_size = refl; same_threshold = refl; same_read = refl; same_consumer = refl };
}

-- `sent`, for a number of bytes that is the same.
sent_lem :
    (ch : Channel) (rs : List Message) (id size : ℕ) (bytes : List ℕ)
    {r : Channel × Outcome WriteResult} (n : ℕ) (ch' : Channel) (new : List Message)
    → n ≡ min size (room ch)
    → min size ch.write_threshold ≤ room ch
    → r ≡ (ch', returns (wrote n))
    → Appended ch rs id bytes n ch' new
    → Written ch rs id size bytes r
sent_lem ch rs id size bytes n ch' new e enough q a = sent enough ch' new (rw e at q) (rw e at a)

module _ (ch : Channel) (rs : List Message) (id size : ℕ) (bytes : List ℕ) (v : IsValid ch)
    (hid : id < u32_mod) (pos : 0 < size) (small : size < u32_mod)
    (fits : size ≤ length bytes) where
  -- The branch behind the last record.
  behind-Written :
      Run ch.mem ch.read_offset ch.write_offset rs
      → ch.read_offset ≤ ch.write_offset
      → ch.write_offset < ch.size
      → Written ch rs id size bytes (write_behind ch id size bytes ch.read_offset ch.write_offset)
  behind-Written run le lt =
      let e = ch.write_offset in
      let al = v.write_aligned in
      let a = first ch size e in
      let b = second ch size e in
      let room_eq = room_behind ch le in
      elim (lt-cases ((ch.size - e - 8) + (ch.read_offset - 72)) (min size ch.write_threshold)) [
        | inl lack ↦ full (omega arith) (behind_full ch id size bytes v pos small e al lt lack)
        | inr enough ↦ elim (lt-cases 0 b) [
          | inl two ↦
              sent_lem ch rs id size bytes (a + b) (two_pieces ch id e a b bytes) _ (omega arith)
                (omega arith) (behind_two ch id size bytes v pos small e al lt enough two)
                (two_pieces-Appended ch rs id e a b bytes v (omega arith) (
                  behind-two-Holds ch id bytes rs hid v a b run (omega arith) (omega arith)
                    (omega arith)))
          | inr one ↦
              sent_lem ch rs id size bytes (a + 0) (one_piece ch id e a bytes)
                (piece id a bytes ∷ []) (omega arith) (omega arith)
                (behind_one ch id size bytes v pos small e al lt enough (omega arith))
                (rw add-zero (
                  one_piece-Appended ch rs id e a bytes v al (omega arith)
                    (behind-one-Holds ch id bytes rs hid v a run (omega arith) (omega arith))))
        ]
      ]

  -- The branch between the writer's offset, or the start, and the reader.
  between-Written :
      (o : ℕ) (tail head : List Message)
      → rs ≡ tail ++ head
      → Run ch.mem ch.read_offset ch.size tail
      → Run ch.mem 0 o head
      → IsAligned o
      → o < ch.read_offset
      → room ch ≡ ch.read_offset - o - 72
      → Written ch rs id size bytes (write_between ch id size bytes ch.read_offset o)
  between-Written o tail head e t h al lt room_eq =
      let b = min size (ch.read_offset - o - 72) in
      elim (lt-cases (ch.read_offset - o - 72) (min size ch.write_threshold)) [
        | inl lack ↦ full (omega arith) (between_full ch id size bytes v pos small o al lt lack)
        | inr enough ↦
            sent_lem ch rs id size bytes (0 + b) (one_piece ch id o b bytes) (piece id b bytes ∷ [])
              (omega arith) (omega arith) (between_some ch id size bytes v pos small o al lt enough)
              (rw zero-add (
                one_piece-Appended ch rs id o b bytes v al (omega arith) (
                  between-Holds ch id bytes rs hid v o b tail head e t h (omega arith) (omega arith)
                    al)))
      ]

  straight-Written :
      Run ch.mem ch.read_offset ch.write_offset rs
      → Written ch rs id size bytes (write_from ch ch.read_offset id size bytes)
  unfolding write_from write_at
  straight-Written run =
      let le = Run-le ch.mem ch.read_offset ch.write_offset rs run in
      elim (eq-cases ch.write_offset ch.size) [
        | inl at_end ↦ elim (eq-cases ch.read_offset 0) [
          | inl start ↦ full (omega (arith, room_behind ch le)) (ground arith)
          | inr later ↦
              rw
                (
                  ==_true ch.write_offset ch.size at_end,
                  ==_false ch.read_offset 0 later,
                  leb-false ch.read_offset 0 (omega arith),
                )
                (between-Written 0 rs [] (sym (append-nil rs)) (rw at_end at run) refl refl
                  (omega arith) (omega (arith, room_behind ch le)))
        ]
        | inr inside ↦
            rw
              (
                ==_false ch.write_offset ch.size inside,
                ==_false (sub32 ch.read_offset ch.write_offset) cache_line_size
                    (sub32-ne-line ch.read_offset ch.write_offset le (omega arith)),
                leb-true ch.read_offset ch.write_offset le,
              )
              (behind-Written run le (omega arith))
      ]

  wrapped-Written :
      (tail head : List Message)
      → ch.write_offset < ch.read_offset
      → Run ch.mem ch.read_offset ch.size tail
      → Run ch.mem 0 ch.write_offset head
      → rs ≡ tail ++ head
      → Written ch rs id size bytes (write_from ch ch.read_offset id size bytes)
  unfolding write_from write_at
  wrapped-Written tail head lt t h e =
      let gap = sub32_lem ch.read_offset ch.write_offset (omega arith) (omega arith) in
      elim (eq-cases (ch.read_offset - ch.write_offset) cache_line_size) [
        | inl line ↦ full (omega (arith, room_between ch lt)) (
            rw (
              ==_false ch.write_offset ch.size (omega arith),
              gap,
              ==_true (ch.read_offset - ch.write_offset) cache_line_size line,
            ))
        | inr more ↦
            rw
              (
                ==_false ch.write_offset ch.size (omega arith),
                gap,
                ==_false (ch.read_offset - ch.write_offset) cache_line_size more,
                leb-false ch.read_offset ch.write_offset lt,
              )
              (between-Written ch.write_offset tail head e t h v.write_aligned lt
                (room_between ch lt))
      ]

  pub write_from-Written :
      Holds ch rs → Written ch rs id size bytes (write_from ch ch.read_offset id size bytes)
  write_from-Written (straight run) = straight-Written run
  write_from-Written (wrapped tail head lt t h e) = wrapped-Written tail head lt t h e

-- On a valid channel that holds `rs`, a write of `size` bytes under a non-zero id never throws. If
-- the room is less than both the size and the threshold, nothing changes and the answer is EAGAIN;
-- otherwise it accepts as many bytes as there is room for, answers their number, and appends
-- records of that id with exactly those bytes behind `rs`, leaving the reader's side alone.
pub write-Written :
    (ch : Channel) (rs : List Message) (id size : ℕ) (bytes : List ℕ)
    → IsValid ch
    → Holds ch rs
    → 0 < id
    → id < u32_mod
    → 0 < size
    → size < u32_mod
    → size ≤ length bytes
    → Written ch rs id size bytes (write ch id size (some bytes))
unfolding write
write-Written ch rs id size bytes v h hid small_id pos small fits =
    rw (==_false id 0 (omega arith), ==_false size 0 (omega arith))
      (write_from-Written ch rs id size bytes v small_id pos small fits h)
