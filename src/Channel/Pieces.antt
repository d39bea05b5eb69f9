-- ===== src/Channel/Pieces.antt =====
-- The records of a channel after `Channel::write` has put one or two pieces into its memory
-- (channel.cc).
use shm_ipc.Base.{
  ℕ, ◌+◌, ◌≤◌, ◌<◌, ◌≡◌, refl, sym, List, [], ◌∷◌, ◌++◌, arith, length, drop, u32_mod, length-take,
  length-drop, append_assoc,
}
use shm_ipc.Memory.{Mem}
use shm_ipc.Channel.{Channel}
use shm_ipc.Channel.Layout.{
  Message, span, IsAligned, Run, Run-Agrees, Run-append, Holds, straight, wrapped, IsValid,
}
use shm_ipc.Channel.Header.{
  header_mem, piece, header_mem-below, header_mem-above, header_mem-Stored,
}

-- Writing behind a run extends it by that record.
pub Run-header_mem :
    (m : Mem) (a b id n : ℕ) (bytes : List ℕ) (rs : List Message)
    → id < u32_mod
    → n < u32_mod
    → n ≤ length bytes
    → Run m a b rs
    → Run (header_mem m id b n bytes) a (b + span n) (rs ++ (piece id n bytes ∷ []))
Run-header_mem m a b id n bytes rs hid hn hl h =
    Run-append (header_mem m id b n bytes) a b (b + span n) rs (piece id n bytes ∷ [])
      (Run-Agrees m (header_mem m id b n bytes) a b rs (header_mem-below m id b n bytes a) h)
      (header_mem-Stored m id b n bytes hid hn hl, omega (arith, length-take n bytes))

-- The channel after one record at `o`.
abbrev pub one_piece : Channel → ℕ → ℕ → ℕ → List ℕ → Channel
one_piece ch id o n bytes = record ch {
  mem = header_mem ch.mem id o n bytes;
  write_offset = o + span n;
}

-- The channel after a record at the end of the buffer and one at its start.
abbrev pub two_pieces : Channel → ℕ → ℕ → ℕ → ℕ → List ℕ → Channel
two_pieces ch id o a b bytes = record ch {
  mem = header_mem (header_mem ch.mem id o a bytes) id 0 b (drop a bytes);
  write_offset = 0 + span b;
}

module _ (ch : Channel) (id : ℕ) (bytes : List ℕ) (rs : List Message) (hid : id < u32_mod)
    (v : IsValid ch) where
  pub behind-one-Holds :
      (a : ℕ)
      → Run ch.mem ch.read_offset ch.write_offset rs
      → a ≤ length bytes
      → a + 8 + ch.write_offset ≤ ch.size
      → Holds (one_piece ch id ch.write_offset a bytes) (rs ++ (piece id a bytes ∷ []))
  behind-one-Holds a run fit room =
      straight (
        Run-header_mem ch.mem ch.read_offset ch.write_offset id a bytes rs hid (omega arith) fit
          run)

  pub behind-two-Holds :
      (a b : ℕ)
      → Run ch.mem ch.read_offset ch.write_offset rs
      → a + b ≤ length bytes
      → a + 8 + ch.write_offset ≡ ch.size
      → b + 72 ≤ ch.read_offset
      → Holds
          (two_pieces ch id ch.write_offset a b bytes)
          (rs ++ (piece id a bytes ∷ piece id b (drop a bytes) ∷ []))
  behind-two-Holds a b run fit full room =
      let m = header_mem ch.mem id ch.write_offset a bytes in
      let first =
        Run-header_mem ch.mem ch.read_offset ch.write_offset id a bytes rs hid (omega arith)
          (omega arith) run in
      let ends : ch.write_offset + span a ≡ ch.size = omega arith in
      wrapped (rs ++ (piece id a bytes ∷ [])) (piece id b (drop a bytes) ∷ []) (omega arith)
        (Run-Agrees m (header_mem m id 0 b (drop a bytes)) ch.read_offset ch.size
          (rs ++ (piece id a bytes ∷ []))
          (header_mem-above m id 0 b (drop a bytes) ch.read_offset ch.size (omega arith))
          (rw ends at first))
        (Run-header_mem m 0 0 id b (drop a bytes) [] hid (omega arith)
          (omega (arith, length-drop a bytes)) refl)
        (sym (append_assoc rs _ _))

  -- Between the writer and the reader, at the writer's offset or back at the start.
  pub between-Holds :
      (o b : ℕ) (tail head : List Message)
      → rs ≡ tail ++ head
      → Run ch.mem ch.read_offset ch.size tail
      → Run ch.mem 0 o head
      → b ≤ length bytes
      → o + b + 72 ≤ ch.read_offset
      → IsAligned o
      → Holds (one_piece ch id o b bytes) (rs ++ (piece id b bytes ∷ []))
  between-Holds o b tail head e t h fit room al =
      wrapped tail (head ++ (piece id b bytes ∷ [])) (omega arith)
        (Run-Agrees ch.mem (header_mem ch.mem id o b bytes) ch.read_offset ch.size tail
          (header_mem-above ch.mem id o b bytes ch.read_offset ch.size (omega arith)) t)
        (Run-header_mem ch.mem 0 o id b bytes head hid (omega arith) fit h)
        (rw e (append_assoc tail head _))
