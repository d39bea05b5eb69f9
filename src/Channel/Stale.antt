-- ===== src/Channel/Stale.antt =====
-- `Channel::write` with a read offset that it loaded before the reader went on.
use shm_ipc.Base.{ℕ, ◌≡◌, List, arith, drop, min, sub32, ltb, Bool-cases, inl, inr}
use shm_ipc.Channel.{
  Channel, write_to_header, publish, write_second, write_behind, write_between, write_at,
  write_from, data_size, size_with_padding,
}

abbrev pub at_read : ℕ → Channel → Channel
at_read x ch = record ch { read_offset = x }

abbrev pub moved {ℓ} : {A : Type ℓ} → ℕ → Channel × A → Channel × A
moved x (ch, a) = (at_read x ch, a)

-- Neither of the steps of `write` reads the reader's offset again.
publish-at_read :
    (x : ℕ) (ch : Channel) (size s e a b : ℕ)
    → publish (at_read x ch) size s e a b ≡ moved x (publish ch size s e a b)
unfolding publish
publish-at_read x ch size s e a b = ground arith

pub write_second-at_read :
    (x : ℕ) (ch : Channel) (id size : ℕ) (bytes : List ℕ) (s e a b : ℕ)
    → write_second (at_read x ch) id size bytes s e a b
      ≡ moved x (write_second ch id size bytes s e a b)
unfolding write_second write_to_header
write_second-at_read x ch id size bytes s e a b =
    let (ch', e') = write_to_header ch id e b (drop a bytes) in
    elim (Bool-cases (ltb 0 b)) [
      | inl more ↦ rw more (publish-at_read x ch' size s e' a b)
      | inr done ↦ rw done (publish-at_read x ch size s e a b)
    ]

write_behind-at_read :
    (x : ℕ) (ch : Channel) (id size : ℕ) (bytes : List ℕ) (s e : ℕ)
    → write_behind (at_read x ch) id size bytes s e ≡ moved x (write_behind ch id size bytes s e)
unfolding write_behind write_to_header
write_behind-at_read x ch id size bytes s e =
    let a = min size (data_size (sub32 ch.size e)) in
    let b = min (sub32 size a) (data_size (size_with_padding s)) in
    let (ch', e') = write_to_header ch id e a bytes in
    ground (
      arith,
      write_second-at_read x ch' id size bytes s 0 a b,
      write_second-at_read x ch' id size bytes s e' a b,
    )

write_between-at_read :
    (x : ℕ) (ch : Channel) (id size : ℕ) (bytes : List ℕ) (s e : ℕ)
    → write_between (at_read x ch) id size bytes s e ≡ moved x (write_between ch id size bytes s e)
unfolding write_between
write_between-at_read x ch id size bytes s e =
    let b = min size (data_size (size_with_padding (sub32 s e))) in
    ground (arith, write_second-at_read x ch id size bytes s e 0 b)

write_at-at_read :
    (x : ℕ) (ch : Channel) (id size : ℕ) (bytes : List ℕ) (s e : ℕ)
    → write_at (at_read x ch) id size bytes s e ≡ moved x (write_at ch id size bytes s e)
unfolding write_at
write_at-at_read x ch id size bytes s e = ground (
  arith,
  write_behind-at_read x ch id size bytes s e,
  write_between-at_read x ch id size bytes s e,
)

-- So what `write` does after it has loaded the reader's offset as `s` does not depend on where the
-- reader is by then.
pub write_from-at_read :
    (x : ℕ) (ch : Channel) (s id size : ℕ) (bytes : List ℕ)
    → write_from (at_read x ch) s id size bytes ≡ moved x (write_from ch s id size bytes)
unfolding write_from
write_from-at_read x ch s id size bytes = ground (
  arith,
  write_at-at_read x ch id size bytes s 0,
  write_at-at_read x ch id size bytes s ch.write_offset,
)
