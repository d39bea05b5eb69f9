-- ===== src/Channel/Stream/Invariant.antt =====
-- What a writer and a reader on one channel keep, and that a step of the reader keeps it.
use shm_ipc.Base.{
  ℕ, ◌≡◌, ◌≢◌, refl, ◌∙◌, sym, ap, ap₂, ◌⊎◌, inr, List, [], ◌∷◌, ◌++◌, append_assoc, length, none,
  some,
}
use shm_ipc.Base.Outcome.{Outcome, returns}
use shm_ipc.Memory.{Mem}
use shm_ipc.Channel.{Channel, read_header, consume_header}
use shm_ipc.Channel.Layout.{Message, Stored, Holds, IsValid}
use shm_ipc.Channel.Append.{contents, AllFrom}
use shm_ipc.Channel.Read.{
  Holds-Front, read_header-nil, read_header-cons, consume_header-Front, advanced, advanced-Holds,
  advanced-IsValid, next_offset-end,
}
use shm_ipc.Channel.Lap.{last-at-end}
use shm_ipc.Channel.Stale.{at_read}
use shm_ipc.Channel.Stream.{Tagged, tag, System, seen}
use shm_ipc.Channel.Stream.Replay.{skip, skip-append}

-- The bytes of some records, each with its record's id.
unfoldable pub stream : List Message → List Tagged
stream [] = []
stream (r ∷ rs) = tag r.id r.payload ++ stream rs

tag-append : (id : ℕ) (bs cs : List ℕ) → tag id (bs ++ cs) ≡ tag id bs ++ tag id cs
unfolding tag
tag-append id [] cs = refl
tag-append id (b ∷ bs) cs = ap (λ t. (id, b) ∷ t) (tag-append id bs cs)

pub stream-append : (rs ss : List Message) → stream (rs ++ ss) ≡ stream rs ++ stream ss
unfolding stream
stream-append [] ss = refl
stream-append (r ∷ rs) ss =
    rw (stream-append rs ss) (sym (append_assoc (tag r.id r.payload) (stream rs) (stream ss)))

pub stream-AllFrom : (id : ℕ) (rs : List Message) → AllFrom id rs → stream rs ≡ tag id (contents rs)
unfolding stream contents tag
stream-AllFrom id [] h = refl
stream-AllFrom id (r ∷ rs) h =
    rw (h.0, tag-append id r.payload (contents rs), stream-AllFrom id rs h.1)

seen-Stored : (m : Mem) (h : ℕ) (r : Message) → Stored m h r → seen m h ≡ tag r.id r.payload
seen-Stored m h r s = rw (s.stored_id, s.stored_size, s.stored_payload)

pub record Inv (s : System) : Type 0 where
  pub pending : List Message
  pub now_valid : IsValid s.channel
  pub now_holds : Holds s.channel pending
  pub order : s.received ++ stream pending ≡ s.sent
  -- The channel as it was when the writer loaded `start`: the records `gone` were still unread.
  pub start : ℕ
  pub gone : List Message
  pub then_valid : IsValid (at_read start s.channel)
  pub then_holds : Holds (at_read start s.channel) (gone ++ pending)
  pub caught_up : skip s.channel.size start gone ≡ s.channel.read_offset
  pub waits : (s.loaded ≡ none) ⊎ (s.loaded ≡ some start)

-- A state in which the writer has just loaded the offset, or is between two calls.
pub fresh :
    (s : System) (pending : List Message)
    → IsValid s.channel
    → Holds s.channel pending
    → s.received ++ stream pending ≡ s.sent
    → (s.loaded ≡ none) ⊎ (s.loaded ≡ some s.channel.read_offset)
    → Inv s
unfolding skip
fresh s pending v h o w = record {
  pending = pending;
  now_valid = v;
  now_holds = h;
  order = o;
  start = s.channel.read_offset;
  gone = [];
  then_valid = v;
  then_holds = h;
  caught_up = refl;
  waits = w;
}

pub load-Inv : (s : System) → Inv s → Inv (record s { loaded = some s.channel.read_offset })
load-Inv s i = fresh _ i.pending i.now_valid i.now_holds i.order (inr refl)

returns-injective :
    {A : Type 0} {c d : Channel} {a b : A}
    → ◌≡◌ {A = Channel × Outcome A} (c, returns a) (d, returns b)
    → (c ≡ d) × (a ≡ b)
returns-injective e = (ap (λ p. p.0) e, cc)

-- Consuming the oldest record, outside the round that `Lap` is about.
consume-Inv :
    (s : System) (r : Message) (rest : List Message) (i : Inv s)
    → i.pending ≡ r ∷ rest
    → (s.channel.write_offset ≡ s.channel.size → rest ≢ [])
    → Inv (record s {
      channel = advanced s.channel (length r.payload);
      received = s.received ++ tag r.id r.payload;
    })
unfolding skip stream
consume-Inv s r rest i e more =
    let v = i.now_valid in
    let h : Holds s.channel (r ∷ rest) = rw e at i.now_holds in
    record {
      pending = rest;
      now_valid = advanced-IsValid v (Holds-Front v h);
      now_holds = advanced-Holds v h more;
      order = append_assoc s.received (tag r.id r.payload) (stream rest) ∙ rw e at i.order;
      start = i.start;
      gone = i.gone ++ (r ∷ []);
      then_valid = i.then_valid;
      then_holds = rw (append_assoc i.gone (r ∷ []) rest) (rw e at i.then_holds);
      caught_up = skip-append s.channel.size i.start i.gone (r ∷ []) ∙ rw i.caught_up refl;
      waits = i.waits;
    }

pub receive-Inv :
    (s : System) (h : ℕ) (ch ch' : Channel) (r : Message) (rest : List Message) (i : Inv s)
    → i.pending ≡ r ∷ rest
    → read_header s.channel ≡ (ch, returns (some h))
    → consume_header ch h ≡ (ch', returns tt)
    → ¬ ((ch.write_offset ≡ ch.size) × (ch'.read_offset ≡ 0))
    → Inv (record s { channel = ch'; received = s.received ++ seen ch.mem h })
receive-Inv s h ch ch' r rest i e er ec no_lap =
    let v = i.now_valid in
    let held : Holds s.channel (r ∷ rest) = rw e at i.now_holds in
    let front = read_header-cons v held in
    let read = returns-injective (sym er ∙ front.0) in
    let here_eq : h ≡ s.channel.read_offset = cc (read.1) in
    let consumed : consume_header s.channel s.channel.read_offset ≡ (ch', returns tt) =
      ap₂ consume_header (sym read.0) (sym here_eq) ∙ ec in
    let moved_eq = returns-injective (sym consumed ∙ consume_header-Front v (Holds-Front v held)) in
    let no_lap' : ¬ (
        (s.channel.write_offset ≡ s.channel.size)
        × ((advanced s.channel (length r.payload)).read_offset ≡ 0)) =
      λ p. no_lap (rw read.0 p.0, rw moved_eq.0 p.1) in
    rw (moved_eq.0, read.0, here_eq, seen-Stored s.channel.mem s.channel.read_offset r front.1)
      (consume-Inv s r rest i e (λ at_end none_left. no_lap' (
        at_end,
        next_offset-end s.channel (length r.payload) (last-at-end v (rw none_left at held) at_end),
      )))

pub receive-nil :
    (s : System) (h : ℕ) (ch : Channel) (i : Inv s)
    → i.pending ≡ []
    → read_header s.channel ≡ (ch, returns (some h))
    → ⊥
receive-nil s h ch i e er =
    let empty = read_header-nil i.now_valid (rw e at i.now_holds) in cc (er, empty)
