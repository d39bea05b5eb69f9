-- ===== src/Demo/Handshake.antt =====
-- `ParentHandler::create_new_channel` and the start of both processes (parent.cc, child.cc), over the
-- channel that they share.
use shm_ipc.Base.{
  ℕ, ◌+◌, ◌^◌, ◌≤◌, ◌<◌, ◌≡◌, refl, Bool, some, none, List, [], ◌∷◌, ◌++◌, length, arith, ◌==◌,
  if◌then◌else◌, Bool-cases, u32_mod, inl, inr,
}
use shm_ipc.Base.Outcome.{returns}
use shm_ipc.Channel.{Channel, wrote}
use shm_ipc.Channel.Layout.{Message, straight}
use shm_ipc.Channel.Short.{Open, appended, write-short, appended-Run, appended-IsValid}
use shm_ipc.Router.{
  Router, RouterHandler, find, assign, register_handler_at, write, mark_interrupted, flag_polling,
  flag_interrupted,
}
use shm_ipc.Router.Reading.{process_reads}
use shm_ipc.Router.Handlers.{find-assign}
use shm_ipc.Router.Register.{IsTaken, register_handler_at-free, register_handler-least}
use shm_ipc.Demo.{
  own_read, own_error, test_read, test_error, new_channel_message, ChildHandler, child_invoke,
  create_new_channel, open_channels, open_child, child_calls,
}
use shm_ipc.Demo.Announce.{
  announcement, own_handler, test_handler, announcements, AllFree, AllOpen, Opened,
  process_reads-Opened, with_tests, own_calls, with_tests-AllOpen, child_calls-own_calls,
}

abbrev pub with_write : Router → Channel → Router
with_write r ch = record r { write_channel = ch }

-- `consumer_state` behind a write, and whether that write wakes the reader.
abbrev pub is_polling : Channel → Bool
is_polling ch = ch.consumer_state == flag_polling

abbrev pub marked : Channel → Channel
marked ch = record ch {
  consumer_state = if is_polling ch then flag_polling + flag_interrupted else ch.consumer_state;
}

mark_interrupted_lem : (ch : Channel) → mark_interrupted ch ≡ (marked ch, is_polling ch)
unfolding mark_interrupted
mark_interrupted_lem ch = elim (Bool-cases (is_polling ch)) [
  | inl polling ↦ rw polling refl
  | inr busy ↦ rw busy refl
]

-- A short message behind the last record, if the wakeup goes through.
pub write-Open :
    (r : Router) (rs : List Message) (id : ℕ) (bytes : List ℕ) {h : RouterHandler}
    → find id r.handlers ≡ some h
    → Open r.write_channel rs
    → 0 < id
    → id < u32_mod
    → 0 < length bytes
    → length bytes ≤ 56
    → write (returns tt) r id (length bytes) (some bytes) ≡ (
      with_write r (marked (appended r.write_channel id bytes)),
      returns (wrote (length bytes)),
      is_polling r.write_channel,
    )
unfolding write
write-Open r rs id bytes there o pos small_id some_bytes short = ground (
  arith,
  there,
  write-short r.write_channel rs id bytes o pos small_id some_bytes short,
  mark_interrupted_lem (appended r.write_channel id bytes),
)

-- The parent behind `create_new_channel`, for the TestHandler `k` under the id `n`.
abbrev pub created : Router → ℕ → ℕ → Router
created r k n = record r {
  write_channel = marked (appended r.write_channel 1 (new_channel_message n));
  next_id = n + 1;
  handlers = assign n (test_handler k) r.handlers;
}

module _ (r : Router) (rs : List Message) (k n : ℕ) {own : RouterHandler}
    (there : find 1 r.handlers ≡ some own) (o : Open r.write_channel rs) (lo : r.next_id ≤ n)
    (small : n < 2 ^ 28) (taken : IsTaken r r.next_id n) (free : find n r.handlers ≡ none) where
  -- A channel is created: the least free id is announced to the other side.
  pub create_new_channel_lem :
      create_new_channel (returns tt) r 1 k ≡ some (created r k n, returns n)
  unfolding create_new_channel
  create_new_channel_lem =
      let there' : find 1 (assign n (test_handler k) r.handlers) ≡ some own =
        ground (arith, find-assign n 1 (test_handler k) r.handlers) in
      rw
        (
          register_handler-least r n (test_read k) (test_error k) lo small taken free,
          create_new_channel,
          write-Open (record r { next_id = n + 1; handlers = assign n (test_handler k) r.handlers })
              rs 1 (new_channel_message n) there' o (omega arith) (omega arith) (omega arith)
              (omega arith),
        )
        refl

  pub created-Open :
      r.write_channel.write_offset + 64 < r.write_channel.size
      → Open (created r k n).write_channel (rs ++ announcement n ∷ [])
  created-Open room = record {
    valid =
        let v =
          appended-IsValid r.write_channel rs 1 (new_channel_message n) o (omega arith)
            (omega arith) (omega arith) (omega arith) in
        omega arith;
    run =
        appended-Run r.write_channel rs 1 (new_channel_message n) o (omega arith) (omega arith)
          (omega arith) (omega arith);
    free = omega arith;
  }

-- A router as its constructor leaves it.
abbrev pub fresh : Channel → Channel → Router
fresh reads writes = record {
  read_channel = reads;
  write_channel = writes;
  next_id = 1;
  handlers = [];
}

abbrev pub with_own : Router → Router
with_own r = record r { handlers = (1, own_handler) ∷ [] }

open_own :
    (reads writes : Channel)
    → register_handler_at (fresh reads writes) 1 (some own_read) (some own_error)
      ≡ (with_own (fresh reads writes), returns tt)
unfolding find assign
open_own reads writes =
    register_handler_at-free (fresh reads writes) 1 own_read own_error (omega arith) refl

-- The parent with one channel, and with both.
abbrev one_open : Channel → Channel → Router
one_open reads shared = created (with_own (fresh reads shared)) 1 2

abbrev pub both_open : Channel → Channel → Router
both_open reads shared = created (one_open reads shared) 2 3

module _ (reads shared : Channel) (o : Open shared [])
    (room : shared.write_offset + 128 < shared.size) where
  first_IsTaken : IsTaken (with_own (fresh reads shared)) 1 2
  unfolding find
  first_IsTaken j lo hi = ground arith

  first_create :
      create_new_channel (returns tt) (with_own (fresh reads shared)) 1 1
      ≡ some (one_open reads shared, returns 2)
  unfolding find
  first_create =
      create_new_channel_lem (with_own (fresh reads shared)) [] 1 2 refl o (omega arith)
        (omega arith) first_IsTaken refl

  one_open-Open : Open (one_open reads shared).write_channel (announcements (2 ∷ []))
  unfolding find
  one_open-Open =
      created-Open (with_own (fresh reads shared)) [] 1 2 refl o (omega arith) (omega arith)
        first_IsTaken refl (omega arith)

  second_create :
      create_new_channel (returns tt) (one_open reads shared) 1 2
      ≡ some (both_open reads shared, returns 3)
  unfolding find assign
  second_create =
      create_new_channel_lem (one_open reads shared) (announcements (2 ∷ [])) 2 3 refl one_open-Open
        (omega arith) (omega arith) (λ j lo hi. absurd (omega arith)) refl

  pub both_open-Open : Open (both_open reads shared).write_channel (announcements (2 ∷ 3 ∷ []))
  unfolding find assign
  both_open-Open =
      created-Open (one_open reads shared) (announcements (2 ∷ [])) 2 3 refl one_open-Open
        (omega arith) (omega arith) (λ j lo hi. absurd (omega arith)) refl (omega arith)

  pub open_channels_lem :
      open_channels (returns tt) (fresh reads shared)
      ≡ some (both_open reads shared, returns (2, 3))
  unfolding open_channels
  open_channels_lem =
      rw (open_own reads shared, open_channels, open_own reads shared, first_create, second_create)
        refl

abbrev pub channel_ids : List ℕ
channel_ids = 2 ∷ 3 ∷ []

-- The child, on the memory that the parent has written to.
abbrev pub child_open : Channel → Channel → Channel → Router
child_open reads shared writes = with_own (fresh (both_open reads shared).write_channel writes)

child_open-AllFree :
    (reads shared writes : Channel) → AllFree (child_open reads shared writes).handlers channel_ids
unfolding find assign
child_open-AllFree reads shared writes = (omega arith, refl, (omega arith, refl, tt))

pub open_channels-Opened :
    (reads shared writes : Channel) (h : ChildHandler) (fuel : ℕ)
    → Open shared []
    → shared.write_offset + 128 < shared.size
    → 2 < fuel
    → let c = child_open reads shared writes in
      (open_channels (returns tt) (fresh reads shared)
        ≡ some (both_open reads shared, returns (2, 3)))
      × (open_child (fresh (both_open reads shared).write_channel writes) ≡ (c, returns tt))
      × Opened c channel_ids (process_reads fuel (child_invoke h) c)
      × AllOpen (with_tests c channel_ids) channel_ids
      × (child_calls c (own_calls channel_ids) h
          ≡ record h { channels = h.channels ++ channel_ids })
      × (find 2 (both_open reads shared).handlers ≡ some (test_handler 1))
      × (find 3 (both_open reads shared).handlers ≡ some (test_handler 2))
unfolding open_child find assign
open_channels-Opened reads shared writes h fuel o room enough =
    let c : Router = child_open reads shared writes in
    let shown = both_open-Open reads shared o room in
    let free = child_open-AllFree reads shared writes in
    (
      open_channels_lem reads shared o room,
      open_own (both_open reads shared).write_channel writes,
      process_reads-Opened fuel h c channel_ids refl free shown.valid (straight shown.run)
          (omega arith) enough,
      with_tests-AllOpen c channel_ids free,
      child_calls-own_calls c c.handlers channel_ids h free,
      refl,
      refl,
    )
