-- ===== src/Router/Awake/Tests.antt =====
-- Runs of a reader and a writer around a poll, as in router.cc.
use shm_ipc.Base.{ℕ, ◌≡◌, ◌≢◌, ◌⊎◌, refl, true, false, none, List, [], ◌∷◌, arith, add32, sub32}
use shm_ipc.Base.Outcome.{returns}
use shm_ipc.Memory.{write_bytes, store32}
use shm_ipc.Channel.{
  Channel, wrote, write_from, write_at, write_behind, write_second, publish, write_to_header,
  align_size_to_cacheline, read_header,
}
use shm_ipc.Router.{mark_interrupted}
use shm_ipc.Router.Polling.{
  running, sleeping, idle, published, waking, System, Reach, here, next, announce, land, sleep,
  exchange, publish as write_record, AtRest,
}
use shm_ipc.Router.Awake.{Reach-awake, Reach-lost_record}

abbrev greeting : List ℕ
greeting = 104 ∷ 101 ∷ 108 ∷ []

abbrev empty_channel : Channel
empty_channel = record {
  size = 128;
  write_threshold = 48;
  read_offset = 0;
  write_offset = 0;
  consumer_state = 0;
  mem = λ _. 0;
}

abbrev one_record : Channel
one_record = record empty_channel {
  write_offset = 64;
  mem = write_bytes (store32 (store32 (λ _. 0) 4 5) 0 3) 8 greeting;
}

abbrev at_rest : System
at_rest = record {
  channel = empty_channel;
  phase = running;
  writer = idle;
  buffered = none;
  pending = false;
}

at_rest-AtRest : AtRest at_rest
at_rest-AtRest = record { reads = refl; rests = refl; landed = refl; quiet = refl }

-- The reader waits, and the writer has found its announcement.
abbrev found : System
found = record {
  channel = record one_record { consumer_state = 3 };
  phase = sleeping;
  writer = waking;
  buffered = none;
  pending = false;
}

write-greeting :
    (state : ℕ)
    → write_from (record empty_channel { consumer_state = state }) 0 5 3 greeting
      ≡ (record one_record { consumer_state = state }, returns (wrote 3))
unfolding write_from write_at write_behind write_second publish write_to_header
    align_size_to_cacheline add32 sub32
write-greeting state = refl

Reach-found : Reach true at_rest found
unfolding mark_interrupted read_header
Reach-found =
    next
      (next
        (next (next (next here (announce refl refl refl)) (land 1 refl refl))
          (sleep (record empty_channel { consumer_state = 1 }) refl (λ _. refl) refl refl))
        (write_record 0 5 3 3 greeting (record one_record { consumer_state = 1 }) refl
          (write-greeting 1) refl))
      (exchange refl refl)

Reach-awake_example :
    (false ≡ true)
    ⊎ ((waking ≡ waking) ⊎ ((waking ≡ published) × ((mark_interrupted found.channel).1 ≡ true)))
Reach-awake_example = Reach-awake at_rest-AtRest Reach-found refl (λ e. omega (arith, e))

Reach-lost_record_example :
    (t : System) × Reach false at_rest t
    × (t.phase ≡ sleeping)
    × (t.channel.read_offset ≢ t.channel.write_offset)
    × (t.writer ≡ idle)
    × (t.pending ≡ false)
Reach-lost_record_example =
    Reach-lost_record at_rest 0 5 3 3 greeting one_record at_rest-AtRest refl (write-greeting 0)
      (λ e. omega (arith, e))
