-- ===== src/Factory/Ready.antt =====
-- What `RouterFactory::initialize` of torrent/system/ipc/factory.cc leaves, where the system grants
-- all that it asks for.
use shm_ipc.Base.{
  ℕ, ◌+◌, ◌%◌, ◌^◌, ◌≤◌, ◌<◌, ◌≡◌, ◌≢◌, refl, some, [], ◌∷◌, length, arith, ==_true, ==_false,
}
use shm_ipc.Base.Outcome.{returns}
use shm_ipc.Channel.{Channel}
use shm_ipc.Channel.Layout.{IsValid, Holds}
use shm_ipc.Channel.Setup.{initialize-IsValid}
use shm_ipc.Segment.{mapped}
use shm_ipc.Factory.{RouterFactory}
use shm_ipc.Factory.Initialize.{Host, put, initialize_channel, initialize}
use shm_ipc.Factory.Granted.{Grants, create_segment-mapped, open_pairs-Works}

-- What a segment of a new factory holds: a valid channel with no record, at its start.
pub record Fresh (ch : Channel) (size : ℕ) : Type 0 where
  pub valid : IsValid ch
  pub empty : Holds ch []
  pub fills : ch.size + 64 ≡ size
  pub at_start : ch.write_offset ≡ 0

initialize_channel-Fresh :
    (a size : ℕ) (h : Host)
    → a % 4096 ≡ 0
    → size % 4096 ≡ 0
    → 4096 ≤ size
    → size < 2 ^ 31
    → (ch : Channel) × (initialize_channel (some a) size h
        ≡ (record h { channels = put h.channels a ch }, returns tt))
      × Fresh ch size
initialize_channel-Fresh a size h aligned al big small =
    let (ch, same, valid, empty, fills, _, start) =
      initialize-IsValid (h.channels a) a size (omega (arith, aligned)) (omega (arith, al))
        (omega (arith, big)) small in
    (
      ch,
      rw same refl,
      record { valid = valid; empty = empty; fills = omega (arith, fills, big); at_start = start },
    )

-- For a size that is a positive multiple of the page size below 2^31, two different addresses of
-- pages, and a system that grants the calls: `initialize` returns; the two segments are mapped and
-- each is a valid empty channel as large as the segment but for one cache line; and six descriptors
-- more are open.
pub initialize-Fresh :
    (a1 a2 size : ℕ) (h : Host)
    → a1 % 4096 ≡ 0
    → a2 % 4096 ≡ 0
    → a1 ≢ a2
    → size % 4096 ≡ 0
    → 4096 ≤ size
    → size < 2 ^ 31
    → Grants h.os
    → (h' : Host) × (f : RouterFactory) × (initialize (mapped a1) (mapped a2) size h
        ≡ (h', returns f))
      × (f.segment_1 ≡ some a1)
      × (f.segment_2 ≡ some a2)
      × Fresh (h'.channels a1) size
      × Fresh (h'.channels a2) size
      × (h'.mappings ≡ (a2, size) ∷ (a1, size) ∷ h.mappings)
      × (length h'.os.opened ≡ 6 + length h.os.opened)
unfolding initialize
initialize-Fresh a1 a2 size h p1 p2 other al big small g =
    let h1 : Host = record h { mappings = (a1, size) ∷ h.mappings } in
    let h2 : Host = record h1 { mappings = (a2, size) ∷ h1.mappings } in
    let (ch1, i1, fresh1) = initialize_channel-Fresh a1 size h2 p1 al big small in
    let h3 : Host = record h2 { channels = put h2.channels a1 ch1 } in
    let (ch2, i2, fresh2) = initialize_channel-Fresh a2 size h3 p2 al big small in
    let h4 : Host = record h3 { channels = put h3.channels a2 ch2 } in
    let (os, f, opens, n, s1, s2) = open_pairs-Works (some a1) (some a2) h4.os g in
    (
      record h4 { os = os },
      f,
      rw
          (
            create_segment-mapped a1 size h al big,
            create_segment-mapped a2 size h1 al big,
            i1,
            i2,
            opens,
          )
          refl,
      s1,
      s2,
      rw (==_false a1 a2 other, ==_true a1 a1 refl) fresh1,
      rw (==_true a2 a2 refl) fresh2,
      refl,
      n,
    )
