-- ===== src/Channel/Consumer.antt =====
-- The functions of channel.cc leave the word that the reader announces itself in alone.
use shm_ipc.Base.{ℕ, ◌≡◌, List, arith, drop, min, sub32, ltb, Bool-cases, inl, inr, none}
use shm_ipc.Base.Outcome.{returns}
use shm_ipc.Channel.{
  Channel, write_to_header, publish, write_second, write_behind, write_between, write_at,
  write_from, data_size, size_with_padding, read_header, read_verified, consume_header,
}

publish-consumer :
    (ch : Channel) (size s e a b : ℕ)
    → (publish ch size s e a b).0.consumer_state ≡ ch.consumer_state
unfolding publish
publish-consumer ch size s e a b = ground arith

write_second-consumer :
    (ch : Channel) (id size : ℕ) (bytes : List ℕ) (s e a b : ℕ)
    → (write_second ch id size bytes s e a b).0.consumer_state ≡ ch.consumer_state
unfolding write_second write_to_header
write_second-consumer ch id size bytes s e a b =
    let (ch', e') = write_to_header ch id e b (drop a bytes) in
    elim (Bool-cases (ltb 0 b)) [
      | inl more ↦ rw more (publish-consumer ch' size s e' a b)
      | inr done ↦ rw done (publish-consumer ch size s e a b)
    ]

write_behind-consumer :
    (ch : Channel) (id size : ℕ) (bytes : List ℕ) (s e : ℕ)
    → (write_behind ch id size bytes s e).0.consumer_state ≡ ch.consumer_state
unfolding write_behind write_to_header
write_behind-consumer ch id size bytes s e =
    let a = min size (data_size (sub32 ch.size e)) in
    let b = min (sub32 size a) (data_size (size_with_padding s)) in
    let (ch', e') = write_to_header ch id e a bytes in
    ground (
      arith,
      write_second-consumer ch' id size bytes s 0 a b,
      write_second-consumer ch' id size bytes s e' a b,
    )

write_between-consumer :
    (ch : Channel) (id size : ℕ) (bytes : List ℕ) (s e : ℕ)
    → (write_between ch id size bytes s e).0.consumer_state ≡ ch.consumer_state
unfolding write_between
write_between-consumer ch id size bytes s e =
    let b = min size (data_size (size_with_padding (sub32 s e))) in
    ground (arith, write_second-consumer ch id size bytes s e 0 b)

write_at-consumer :
    (ch : Channel) (id size : ℕ) (bytes : List ℕ) (s e : ℕ)
    → (write_at ch id size bytes s e).0.consumer_state ≡ ch.consumer_state
unfolding write_at
write_at-consumer ch id size bytes s e =
    ground (
      arith,
      write_behind-consumer ch id size bytes s e,
      write_between-consumer ch id size bytes s e,
    )

pub write_from-consumer :
    (ch : Channel) (s id size : ℕ) (bytes : List ℕ)
    → (write_from ch s id size bytes).0.consumer_state ≡ ch.consumer_state
unfolding write_from
write_from-consumer ch s id size bytes = ground (
  arith,
  write_at-consumer ch id size bytes s 0,
  write_at-consumer ch id size bytes s ch.write_offset,
)

pub read_header-consumer : (ch : Channel) → (read_header ch).0.consumer_state ≡ ch.consumer_state
unfolding read_header read_verified
read_header-consumer ch = ground arith

pub consume_header-consumer :
    (ch : Channel) (h : ℕ) → (consume_header ch h).0.consumer_state ≡ ch.consumer_state
unfolding consume_header
consume_header-consumer ch h = ground arith

-- `read_header` finds nothing only where the reader has caught up.
pub read_header-caught_up :
    (ch ch' : Channel) → read_header ch ≡ (ch', returns none) → ch.read_offset ≡ ch.write_offset
unfolding read_header read_verified
read_header-caught_up ch ch' e = ground (arith, e)
