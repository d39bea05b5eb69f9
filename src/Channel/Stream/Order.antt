-- ===== src/Channel/Stream/Order.antt =====
-- The steps of a writer on a channel that is shared with a reader, and what the reader has seen.
use shm_ipc.Base.{
  ℕ, ◌≡◌, ◌≢◌, ◌<◌, ◌≤◌, refl, ◌∙◌, sym, ap, inl, List, [], ◌∷◌, ◌++◌, append_assoc, arith, length,
  take, length-take, min, none, some,
}
use shm_ipc.Base.Outcome.{Outcome, returns}
use shm_ipc.Channel.{Channel, WriteResult, wrote, again, write_from}
use shm_ipc.Channel.Layout.{Message, Holds, IsValid}
use shm_ipc.Channel.Write.{room}
use shm_ipc.Channel.Append.{contents, Appended, Written, full, sent, write_from-Written}
use shm_ipc.Channel.Stale.{at_read, moved, write_from-at_read}
use shm_ipc.Channel.Stream.{
  tag, System, seen, Call, Step, load, publish, refuse, receive, Reach, here, next,
}
use shm_ipc.Channel.Stream.Replay.{skip, replay, append-ne-nil}
use shm_ipc.Channel.Stream.Invariant.{
  Inv, fresh, load-Inv, receive-Inv, receive-nil, stream, stream-AllFrom, stream-append,
}

module _ (s : System) (c : Call) (start : ℕ) (ch : Channel) (i : Inv s)
    (eq_start : start ≡ i.start) where
  -- What `write_from` does with the offset that was loaded, read as a write at that time.
  then_Written :
      (res : Outcome WriteResult)
      → write_from s.channel start c.id c.size c.bytes ≡ (ch, res)
      → Written
          (at_read start s.channel)
          (i.gone ++ i.pending)
          c.id
          c.size
          c.bytes
          (at_read start ch, res)
  then_Written res e =
      let w =
        write_from-Written (at_read start s.channel) (i.gone ++ i.pending) c.id c.size c.bytes
          (rw eq_start i.then_valid) c.id_small c.size_pos c.size_small c.size_fits
          (rw eq_start i.then_holds) in
      rw (write_from-at_read start s.channel start c.id c.size c.bytes, e) at w

  -- The write moves no reader's offset.
  same_reader :
      (res : Outcome WriteResult)
      → write_from s.channel start c.id c.size c.bytes ≡ (ch, res)
      → ch ≡ at_read s.channel.read_offset ch
  same_reader res e =
      ap (λ p. p.0)
        (sym e
          ∙ write_from-at_read s.channel.read_offset s.channel start c.id c.size c.bytes
          ∙ ap (moved s.channel.read_offset) e)

  refuse-Inv :
      write_from s.channel start c.id c.size c.bytes ≡ (ch, returns again)
      → Inv (record s { channel = ch; loaded = none })
  refuse-Inv e = go (then_Written (returns again) e)
    where
      go :
          Written
            (at_read start s.channel)
            (i.gone ++ i.pending)
            c.id
            c.size
            c.bytes
            (at_read start ch, returns again)
          → Inv (record s { channel = ch; loaded = none })
      go (full lack q) =
          let back : ch ≡ s.channel =
            same_reader (returns again) e ∙ ap (λ p. at_read s.channel.read_offset p.0) q in
          rw back (fresh _ i.pending i.now_valid i.now_holds i.order (inl refl))
      go (sent enough ch' new q a) = cc

  -- After an accepted write the reader's present offset leads to what is left, and the new records.
  published-Holds :
      (ch' : Channel) (new : List Message) (n : ℕ)
      → at_read start ch ≡ ch'
      → ch ≡ at_read s.channel.read_offset ch
      → 0 < n
      → n ≤ length c.bytes
      → Appended (at_read start s.channel) (i.gone ++ i.pending) c.id c.bytes n ch' new
      → IsValid ch × Holds ch (i.pending ++ new)
  published-Holds ch' new n same still pos fits a =
      let some_new : new ≢ [] = λ none_new.
        let no_bytes : contents new ≡ [] = rw none_new (unfold contents in refl) in
        absurd (omega (arith, length-take n c.bytes, ap length (sym no_bytes ∙ a.content))) in
      let size_eq : ch.size ≡ s.channel.size =
        ap (λ (x : Channel). x.size) same ∙ a.same.same_size in
      let at_now : skip ch.size start i.gone ≡ s.channel.read_offset =
        rw (size_eq, eq_start) i.caught_up in
      let held : Holds (at_read start ch) (i.gone ++ (i.pending ++ new)) =
        rw (same, ← append_assoc i.gone i.pending new) a.holds in
      let rest =
        replay ch start i.gone (i.pending ++ new) (rw same a.valid) held
          (append-ne-nil i.pending new some_new) in
      rw (at_now, ← still) at rest

  publish-Inv :
      (n : ℕ)
      → write_from s.channel start c.id c.size c.bytes ≡ (ch, returns (wrote n))
      → Inv (record s { channel = ch; loaded = none; sent = s.sent ++ tag c.id (take n c.bytes) })
  publish-Inv n e = go (then_Written (returns (wrote n)) e)
    where
      go :
          Written
            (at_read start s.channel)
            (i.gone ++ i.pending)
            c.id
            c.size
            c.bytes
            (at_read start ch, returns (wrote n))
          → Inv
              (record s { channel = ch; loaded = none; sent = s.sent ++ tag c.id (take n c.bytes) })
      go (full lack q) = cc
      go (sent enough ch' new q a) =
          let m = min c.size (room (at_read start s.channel)) in
          let n_eq : n ≡ m = cc in
          let held =
            published-Holds ch' new m (ap (λ p. p.0) q) (same_reader (returns (wrote n)) e)
              (omega arith) (omega arith) a in
          let tagged : stream new ≡ tag c.id (take n c.bytes) =
            stream-AllFrom c.id new a.from ∙ ap (tag c.id) a.content ∙ rw n_eq refl in
          fresh _ (i.pending ++ new) held.0 held.1
            (rw
              (
                stream-append i.pending new,
                tagged,
                ← append_assoc s.received (stream i.pending) (tag c.id (take n c.bytes)),
                i.order,
              )
              refl)
            (inl refl)

loaded-start : (s : System) (start : ℕ) (i : Inv s) → s.loaded ≡ some start → start ≡ i.start
loaded-start s start i e = ground (arith, i.waits)

Step-Inv : {s t : System} → Step s t → Inv s → Inv t
Step-Inv {s} (load idle e) i = rw e (load-Inv s i)
Step-Inv {s} (publish c start n ch l w e) i =
    rw e (publish-Inv s c start ch i (loaded-start s start i l) n w)
Step-Inv {s} (refuse c start ch l w e) i =
    rw e (refuse-Inv s c start ch i (loaded-start s start i l) w)
Step-Inv {s} (receive h ch ch' er ec no_lap e) i = rw e (go i.pending refl)
  where
    go :
        (p : List Message)
        → i.pending ≡ p
        → Inv (record s { channel = ch'; received = s.received ++ seen ch.mem h })
    go [] q = absurd (receive-nil s h ch i q er)
    go (r ∷ rest) q = receive-Inv s h ch ch' r rest i q er ec no_lap

Reach-Inv : {s t : System} → Reach s t → Inv s → Inv t
Reach-Inv here i = i
Reach-Inv (next r st) i = Step-Inv st (Reach-Inv r i)

-- Nothing sent and nothing received on an empty valid channel.
pub record IsFresh (s : System) : Type 0 where
  pub valid : IsValid s.channel
  pub empty : Holds s.channel []
  pub idle : s.loaded ≡ none
  pub sent_none : s.sent ≡ []
  pub received_none : s.received ≡ []

IsFresh-Inv : {s : System} → IsFresh s → Inv s
unfolding stream
IsFresh-Inv {s} f = fresh s [] f.valid f.empty (rw (f.sent_none, f.received_none) refl) (inl f.idle)

-- From an empty valid channel, after any interleaving of writes, whose read offset may be out of
-- date, and of reads, the channel is valid, and the bytes that the reader has seen, followed by
-- those of the records that the channel holds, are the bytes that the writer has been told are
-- accepted, each under its id and in order. The rounds in which the reader goes back to the start
-- of the buffer while the writer stands at its very end are left out.
pub Reach-order :
    {s t : System}
    → IsFresh s
    → Reach s t
    → IsValid t.channel
      × ((pending : List Message) × Holds t.channel pending
          × (t.received ++ stream pending ≡ t.sent))
Reach-order f r =
    let i = Reach-Inv r (IsFresh-Inv f) in (i.now_valid, (i.pending, i.now_holds, i.order))
