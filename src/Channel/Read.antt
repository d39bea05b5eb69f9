-- ===== src/Channel/Read.antt =====
-- `Channel::read_header` and `Channel::consume_header` against the queue of records.
use shm_ipc.Base.{
  ℕ, ◌+◌, ◌-◌, ◌≤◌, ◌<◌, ◌≡◌, ◌≢◌, refl, inl, inr, List, [], ◌∷◌, ◌++◌, arith, length, add32_lem,
  ◌==◌, ltb-false, leb-true, ==_true, ==_false, if◌then◌else◌, none, some, eq-cases, true,
}
use shm_ipc.Base.Outcome.{returns}
use shm_ipc.Memory.{Mem, load32}
use shm_ipc.Channel.{
  Channel, cache_line_size, header_size, padding_size, verify_read_header, read_verified,
  read_header, consume_header, align_size_to_cacheline,
}
use shm_ipc.Channel.Layout.{Message, Stored, span, Run, Run-le, Holds, straight, wrapped, IsValid}

-- A record that stands where the reader reads and ends inside the buffer.
pub record Front (ch : Channel) (r : Message) : Type 0 where
  pub stored : Stored ch.mem ch.read_offset r
  pub inside : ch.read_offset + span (length r.payload) ≤ ch.size
  pub unread : ch.read_offset ≢ ch.write_offset

pub Holds-Front :
    {ch : Channel} {r : Message} {rs : List Message} → IsValid ch → Holds ch (r ∷ rs) → Front ch r
Holds-Front {ch} {r} {rs} v (straight run) =
    let le = Run-le ch.mem (ch.read_offset + span (length r.payload)) ch.write_offset rs run.1 in
    record { stored = run.0; inside = omega arith; unread = omega arith }
Holds-Front {ch} v (wrapped [] head lt t h e) = absurd (omega arith)
Holds-Front {ch} {r} {rs} v (wrapped (t ∷ ts) head lt run h e) =
    let same : r ≡ t = cc in
    let le = Run-le ch.mem (ch.read_offset + span (length t.payload)) ch.size ts run.1 in
    record { stored = rw same run.0; inside = rw same le; unread = omega arith }

-- Both checks of `verify_read_header` pass on it.
pub verify_lem :
    {ch : Channel} {r : Message} → Front ch r → verify_read_header ch ch.read_offset ≡ true
unfolding verify_read_header
verify_lem {ch} {r} f =
    let size_eq = f.stored.stored_size in
    let fits = f.inside in
    rw (==_true ch.read_offset ch.read_offset refl, size_eq) (leb-true _ _ (omega arith))

-- A channel with no record is reported as empty, and left as it is.
pub read_header-nil :
    {ch : Channel} → IsValid ch → Holds ch [] → read_header ch ≡ (ch, returns none)
unfolding read_header
read_header-nil {ch} v (straight run) = rw (==_true ch.read_offset ch.write_offset run)
read_header-nil {ch} v (wrapped [] head lt t h e) = absurd (omega arith)
read_header-nil {ch} v (wrapped (t ∷ ts) head lt run h e) = cc

pub read_header-Front :
    {ch : Channel} {r : Message}
    → IsValid ch
    → Front ch r
    → read_header ch ≡ (ch, returns (some ch.read_offset))
unfolding read_header read_verified
read_header-Front {ch} {r} v f =
    let size_eq = f.stored.stored_size in
    let fits = f.inside in
    rw (
      ==_false ch.read_offset ch.write_offset f.unread,
      ==_false (load32 ch.mem ch.read_offset) padding_size (rw size_eq (omega arith)),
      verify_lem f,
    )

-- Otherwise `read_header` hands out the oldest record: its offset, where memory has that record's
-- size, id and payload. It never throws, and changes nothing.
pub read_header-cons :
    {ch : Channel} {r : Message} {rs : List Message}
    → IsValid ch
    → Holds ch (r ∷ rs)
    → (read_header ch ≡ (ch, returns (some ch.read_offset))) × Stored ch.mem ch.read_offset r
read_header-cons v h = let f = Holds-Front v h in (read_header-Front v f, f.stored)

-- The offset behind the record at the reader's offset, back at 0 at the end of the buffer.
abbrev pub next_offset : Channel → ℕ → ℕ
next_offset ch n = if ch.read_offset + span n == ch.size then 0 else ch.read_offset + span n

abbrev pub advanced : Channel → ℕ → Channel
advanced ch n = record ch { read_offset = next_offset ch n }

pub consume_header-Front :
    {ch : Channel} {r : Message}
    → IsValid ch
    → Front ch r
    → consume_header ch ch.read_offset ≡ (advanced ch (length r.payload), returns tt)
unfolding consume_header align_size_to_cacheline
consume_header-Front {ch} {r} v f =
    let n = length r.payload in
    let size_eq = f.stored.stored_size in
    let fits = f.inside in
    rw
      (
        size_eq,
        verify_lem f,
        add32_lem header_size n (omega arith),
        add32_lem (header_size + n) (cache_line_size - 1) (omega arith),
        add32_lem ch.read_offset (span n) (omega arith),
        ltb-false ch.size (ch.read_offset + span n) fits,
      )
      (ground arith)

pub advanced-IsValid :
    {ch : Channel} {r : Message}
    → IsValid ch
    → Front ch r
    → IsValid (advanced ch (length r.payload))
advanced-IsValid {ch} {r} v f = let fits = f.inside in ground arith

Run-end : (m : Mem) (a : ℕ) (rs : List Message) → Run m a a rs → rs ≡ []
Run-end m a [] h = refl
Run-end m a (r ∷ rs) h = absurd (omega (arith, Run-le m (a + span (length r.payload)) a rs h.1))

pub next_offset-end :
    (ch : Channel) (n : ℕ) → ch.read_offset + span n ≡ ch.size → next_offset ch n ≡ 0
next_offset-end ch n e = rw (==_true (ch.read_offset + span n) ch.size e)

next_offset-inside :
    (ch : Channel) (n : ℕ)
    → ch.read_offset + span n ≢ ch.size
    → next_offset ch n ≡ ch.read_offset + span n
next_offset-inside ch n e = rw (==_false (ch.read_offset + span n) ch.size e)

module _ {ch : Channel} (r : Message) (v : IsValid ch) where
  advanced-straight :
      (rs : List Message)
      → Run ch.mem (ch.read_offset + span (length r.payload)) ch.write_offset rs
      → (ch.write_offset ≡ ch.size → rs ≢ [])
      → Holds (advanced ch (length r.payload)) rs
  advanced-straight rs run more =
      let n = length r.payload in
      let le = Run-le ch.mem (ch.read_offset + span n) ch.write_offset rs run in
      elim (eq-cases (ch.read_offset + span n) ch.size) [
        | inl at_end ↦
            let last : ch.write_offset ≡ ch.read_offset + span n = omega arith in
            absurd (more (omega arith) (Run-end ch.mem _ rs (rw last at run)))
        | inr inside ↦ straight (rw (next_offset-inside ch n inside) run)
      ]

  advanced-wrapped :
      (ts head : List Message)
      → ch.write_offset < ch.read_offset
      → Run ch.mem (ch.read_offset + span (length r.payload)) ch.size ts
      → Run ch.mem 0 ch.write_offset head
      → Holds (advanced ch (length r.payload)) (ts ++ head)
  advanced-wrapped ts head lt run h =
      let n = length r.payload in
      elim (eq-cases (ch.read_offset + span n) ch.size) [
        | inl at_end ↦
            let none_left : ts ≡ [] = Run-end ch.mem ch.size ts (rw at_end at run) in
            straight (rw (next_offset-end ch n at_end, none_left) h)
        | inr inside ↦
            wrapped ts head (omega (arith, next_offset-inside ch n inside))
              (rw (next_offset-inside ch n inside) run) h refl
      ]

-- The records behind the first one, once it has been consumed. The writer must not stand at the
-- very end of the buffer with nothing else unread.
pub advanced-Holds :
    {ch : Channel} {r : Message} {rs : List Message}
    → IsValid ch
    → Holds ch (r ∷ rs)
    → (ch.write_offset ≡ ch.size → rs ≢ [])
    → Holds (advanced ch (length r.payload)) rs
advanced-Holds {ch} {r} {rs} v (straight run) more = advanced-straight r v rs run.1 more
advanced-Holds {ch} v (wrapped [] head lt t h e) more = absurd (omega arith)
advanced-Holds {ch} {r} {rs} v (wrapped (t ∷ ts) head lt run h e) more =
    let same : r ≡ t = cc in
    let rest : rs ≡ ts ++ head = cc in rw (same, rest) (advanced-wrapped t v ts head lt run.1 h)

-- `consume_header` on the oldest record of a valid channel returns, and drops that record from the
-- queue and nothing else, unless it is the last one and the writer stands at the very end of the
-- buffer. Only the reader's offset changes.
pub consume_header-cons :
    {ch : Channel} {r : Message} {rs : List Message}
    → IsValid ch
    → Holds ch (r ∷ rs)
    → (ch.write_offset ≡ ch.size → rs ≢ [])
    → (next : ℕ) × (consume_header ch ch.read_offset
        ≡ (record ch { read_offset = next }, returns tt))
      × IsValid (record ch { read_offset = next })
      × Holds (record ch { read_offset = next }) rs
consume_header-cons {ch} {r} v h more =
    let f = Holds-Front v h in
    (
      next_offset ch (length r.payload),
      consume_header-Front v f,
      advanced-IsValid v f,
      advanced-Holds v h more,
    )
