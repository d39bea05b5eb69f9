-- ===== src/Router/Awake.antt =====
-- Whether a reader that waits in router.cc is woken for the records that are published.
mod Tests
use shm_ipc.Base.{
  ℕ, ◌+◌, ◌≡◌, ◌≢◌, ◌⊎◌, inl, inr, refl, sym, ◌∙◌, ap, Bool, true, false, not, ◌&&◌, ◌||◌, ◌==◌,
  ==_true, Option, none, some, List, arith, Bool-cases, if◌then◌else◌,
}
use shm_ipc.Base.Outcome.{Outcome, returns}
use shm_ipc.Channel.{Channel, wrote, write_from, read_header, consume_header}
use shm_ipc.Channel.Consumer.{
  write_from-consumer, read_header-consumer, consume_header-consumer, read_header-caught_up,
}
use shm_ipc.Router.{flag_polling, flag_interrupted, mark_interrupted}
use shm_ipc.Router.Polling.{
  Phase, running, announced, sleeping, woken, Writer, idle, published, waking, System, Step,
  publish, exchange, interrupt, consume, announce, land, sleep, wake, drain, withdraw, Reach, here,
  next, AtRest,
}

abbrev is_waking : Writer → Bool
is_waking waking = true
is_waking idle = false
is_waking published = false

abbrev is_published : Writer → Bool
is_published published = true
is_published idle = false
is_published waking = false

-- The announcement stands, or an interrupt is on its way.
abbrev is_marked : System → Bool
is_marked s =
    (s.channel.consumer_state == flag_polling)
    || ((s.channel.consumer_state == flag_polling + flag_interrupted)
        && (is_waking s.writer || s.pending))

abbrev is_announced : Option ℕ → Bool → Bool
is_announced none marked = marked
is_announced (some v) marked = v == flag_polling

abbrev is_landed : Option ℕ → Bool
is_landed none = true
is_landed (some v) = false

-- The reader has read all, or the record behind is one that the writer still interrupts for.
abbrev is_watched : System → Bool
is_watched s =
    (s.channel.read_offset == s.channel.write_offset)
    || (not (s.channel.consumer_state == flag_polling) || is_published s.writer)

abbrev kept : System → Phase → Bool
kept s running = true
kept s woken = true
kept s announced = is_announced s.buffered (is_marked s)
kept s sleeping = is_landed s.buffered && (is_marked s && is_watched s)

abbrev Kept : System → Type 0
Kept s = kept s s.phase ≡ true

publish-Kept :
    (s : System) (start id size n : ℕ) (bytes : List ℕ) (ch : Channel)
    → s.writer ≡ idle
    → write_from s.channel start id size bytes ≡ (ch, returns (wrote n))
    → Kept s
    → Kept (record s { channel = ch; writer = published })
publish-Kept s start id size n bytes ch rests w k =
    let same : ch.consumer_state ≡ s.channel.consumer_state =
      ap (λ out. out.0.consumer_state) (sym w)
      ∙ write_from-consumer s.channel start id size bytes in
    ground (arith, k, same, rests)

exchange-Kept :
    (s : System)
    → s.writer ≡ published
    → Kept s
    → Kept (record s {
      channel = (mark_interrupted s.channel).0;
      writer = if (mark_interrupted s.channel).1 then waking else idle;
    })
unfolding mark_interrupted
exchange-Kept s at k = ground (arith, k, at)

consume-Kept :
    (s : System) (h : ℕ) (ch ch' : Channel)
    → s.phase ≢ sleeping
    → read_header s.channel ≡ (ch, returns (some h))
    → consume_header ch h ≡ (ch', returns tt)
    → Kept s
    → Kept (record s { channel = ch' })
consume-Kept s h ch ch' up r c k =
    let same : ch'.consumer_state ≡ s.channel.consumer_state =
      ap (λ out. out.0.consumer_state) (sym c)
      ∙ (consume_header-consumer ch h
          ∙ (ap (λ out. out.0.consumer_state) (sym r) ∙ read_header-consumer s.channel)) in
    ground (arith, k, same, up)

step-Kept : {s t : System} → Step true s t → Kept s → Kept t
step-Kept {s} (publish start id size n bytes ch rests w e) k =
    rw e (publish-Kept s start id size n bytes ch rests w k)
step-Kept {s} (exchange at e) k = rw e (exchange-Kept s at k)
step-Kept {s} (interrupt at e) k = rw e (ground (arith, k, at))
step-Kept {s} (consume h ch ch' up r c e) k = rw e (consume-Kept s h ch ch' up r c k)
step-Kept {s} (announce at landed e) k = rw e refl
step-Kept {s} (land v there e) k = rw e (ground (arith, k, there))
step-Kept {s} (sleep ch at landed r e) k =
    rw e (ground (arith, k, at, landed refl, read_header-caught_up s.channel ch r))
step-Kept {s} (wake at e) k = rw e refl
step-Kept {s} (drain at e) k = rw e (ground (arith, k, at))
step-Kept {s} (withdraw at landed e) k = rw e refl

Reach-Kept : {s t : System} → AtRest s → Reach true s t → Kept t
Reach-Kept {s} rest here = rw rest.reads refl
Reach-Kept rest (next r step) = step-Kept step (Reach-Kept rest r)

Writer-cases : (w : Writer) → (w ≡ idle) ⊎ ((w ≡ published) ⊎ (w ≡ waking))
Writer-cases idle = inl refl
Writer-cases published = inr (inl refl)
Writer-cases waking = inr (inr refl)

-- Where the reader's stores reach the writer before its next look at the channel: from rest, and
-- however the steps interleave, a reader that waits while there is a record has a byte to read, or
-- the writer is behind its exchange and about to send it, or before its exchange, which will find
-- the announcement.
pub Reach-awake :
    {s t : System}
    → AtRest s
    → Reach true s t
    → t.phase ≡ sleeping
    → t.channel.read_offset ≢ t.channel.write_offset
    → (t.pending ≡ true)
      ⊎ ((t.writer ≡ waking) ⊎ ((t.writer ≡ published) × ((mark_interrupted t.channel).1 ≡ true)))
unfolding mark_interrupted
Reach-awake {t = t} rest r asleep unread =
    let k = Reach-Kept rest r in
    elim (Writer-cases t.writer) [
      | inr (inr at) ↦ inr (inl at)
      | inl at ↦ inl (ground (arith, k, asleep, unread, at))
      | inr (inl at) ↦ elim (Bool-cases t.pending) [
        | inl there ↦ inl there
        | inr missing ↦ inr (inr (at, ground (arith, k, asleep, unread, at, missing)))
      ]
    ]

-- Where a store may stay in the reader's buffer, as a release store may: from rest, with all read and
-- no byte pending, any write that the channel accepts can be lost. The reader looks at the channel
-- before its announcement lands, the writer does not find it, and the reader waits behind a record,
-- with no interrupt on its way.
pub Reach-lost_record :
    (s : System) (start id size n : ℕ) (bytes : List ℕ) (ch : Channel)
    → AtRest s
    → s.channel.read_offset ≡ s.channel.write_offset
    → write_from s.channel start id size bytes ≡ (ch, returns (wrote n))
    → ch.read_offset ≢ ch.write_offset
    → (t : System) × Reach false s t
      × (t.phase ≡ sleeping)
      × (t.channel.read_offset ≢ t.channel.write_offset)
      × (t.writer ≡ idle)
      × (t.pending ≡ s.pending)
unfolding mark_interrupted read_header
Reach-lost_record s start id size n bytes ch rest read w unread =
    let t0 : System = record s { phase = announced; buffered = some flag_polling } in
    let t1 : System = record t0 { phase = sleeping } in
    let t2 : System = record t1 { channel = ch; writer = published } in
    let quiet : ch.consumer_state ≡ 0 =
      ap (λ out. out.0.consumer_state) (sym w)
      ∙ (write_from-consumer s.channel start id size bytes ∙ rest.quiet) in
    let t3 : System = record t2 { writer = idle } in
    let t4 : System = record t3 {
      channel = record ch { consumer_state = flag_polling };
      buffered = none;
    } in
    let r0 : Reach false s t0 = next here (announce rest.reads rest.landed refl) in
    let r1 : Reach false s t1 =
      next r0 (sleep s.channel refl (λ q. ground (arith, q)) (ground (arith, read)) refl) in
    let r2 : Reach false s t2 = next r1 (publish start id size n bytes ch rest.rests w refl) in
    let r3 : Reach false s t3 = next r2 (exchange refl (rw (quiet, mark_interrupted) refl)) in
    let r4 : Reach false s t4 = next r3 (land flag_polling refl refl) in
    (t4, r4, refl, unread, refl, refl)
