-- ===== src/Poll/Links.antt =====
-- The links between events and PollEvents in torrent/system/poll_kqueue.cc: what links them, who
-- keeps a PollEvent alive, and what an operation may not disturb.
use shm_ipc.Base.{
  ℕ, ◌≤◌, ◌≡◌, ◌≢◌, ◌⊎◌, inl, inr, refl, ◌∙◌, Bool, true, false, ◌||◌, ◌==◌, ==_true, ==_false,
  eq-cases, Bool-cases, Option-cases, none, some, String, List, [], ◌∷◌, ◌++◌, length, arith,
}
use shm_ipc.Base.Outcome.{Exception, internal_error, undefined, Outcome, returns, throws}
use shm_ipc.Poll.{
  Mask, Filter, Change, Poll, is_event, then_do, event_mask, set_event_mask, flush, change_for,
  modify, is_empty,
}
use shm_ipc.Poll.Listening.{with_mask}

-- A PollEvent with a flag has an event; an event that a PollEvent names points back at it; and the
-- ones that have not been made yet name none.
pub record IsLinked (p : Poll) : Type 0 where
  pub named :
      (ref : ℕ) → is_empty (p.poll_events ref).mask ≡ false → (p.poll_events ref).event ≢ none
  pub back : (ref e : ℕ) → (p.poll_events ref).event ≡ some e → (p.events e).poll_event ≡ some ref
  pub fresh : (ref : ℕ) → p.next_poll_event ≤ ref → (p.poll_events ref).event ≡ none

abbrev pub is_in : ℕ → List ℕ → Bool
is_in x [] = false
is_in x (y ∷ ys) = (x == y) || is_in x ys

pub is_in-append : (x : ℕ) (xs ys : List ℕ) → is_in x (xs ++ ys) ≡ is_in x xs || is_in x ys
is_in-append x [] ys = refl
is_in-append x (y ∷ xs) ys = ground (arith, is_in-append x xs ys)

-- The shared pointers that keep a PollEvent alive: that of its event, or one in m_closed_events.
abbrev pub Held : Poll → ℕ → Type 0
Held p ref = ((e : ℕ) × ((p.events e).poll_event ≡ some ref)) ⊎ (is_in ref p.closed_events ≡ true)

abbrev is_thrown : Exception → Bool
is_thrown (undefined msg) = false
is_thrown e = true

-- No null pointer is followed, and no missing descriptor handed to the kernel.
abbrev pub is_defined {ℓ} : {A : Type ℓ} → Outcome A → Bool
is_defined (returns a) = true
is_defined (throws e) = is_thrown e

-- What an operation on `p` leaves, whether it returns or throws.
pub record IsSound {ℓ} {A : Type ℓ} (p : Poll) (out : Poll × Outcome A) : Type 0 where
  pub linked : IsLinked out.0
  pub defined : is_defined out.1 ≡ true
  pub same_phase : out.0.processing ≡ p.processing
  pub held : p.processing ≡ true → (ref : ℕ) → Held p ref → Held out.0 ref

pub unchanged-IsSound {ℓ} :
    {A : Type ℓ} (p : Poll) (o : Outcome A) → IsLinked p → is_defined o ≡ true → IsSound p (p, o)
unchanged-IsSound p o l d = record { linked = l; defined = d; same_phase = refl; held = λ _ _ h. h }

pub then_do-IsSound {ℓ ℓ'} :
    {A : Type ℓ} {B : Type ℓ'} {p : Poll} (out : Poll × Outcome A) (k : A → Poll → Poll × Outcome B)
    → IsSound p out
    → ((a : A) → out.1 ≡ returns a → IsSound out.0 (k a out.0))
    → IsSound p (then_do out k)
then_do-IsSound (p, throws e) k s h = record {
  linked = s.linked;
  defined = s.defined;
  same_phase = s.same_phase;
  held = s.held;
}
then_do-IsSound (p, returns a) k s h =
    let t = h a refl in
    record {
      linked = t.linked;
      defined = t.defined;
      same_phase = t.same_phase ∙ s.same_phase;
      held = λ now ref held. t.held (s.same_phase ∙ now) ref (s.held now ref held);
    }

-- What leaves the events and the phase alone.
pub quiet-IsSound {ℓ} :
    {A : Type ℓ} {p : Poll} (out : Poll × Outcome A)
    → IsLinked out.0
    → is_defined out.1 ≡ true
    → out.0.events ≡ p.events
    → out.0.closed_events ≡ p.closed_events
    → out.0.processing ≡ p.processing
    → IsSound p out
quiet-IsSound out l d e c s = record {
  linked = l;
  defined = d;
  same_phase = s;
  held = λ _ ref h. rw (e, c) h;
}

pub flush-IsSound :
    (kevent : List Change → Bool) (p : Poll) → IsLinked p → IsSound p (flush kevent p)
unfolding flush
flush-IsSound kevent p l = elim (Bool-cases (length p.changes == 0)) [
  | inl none_left ↦ rw none_left (unchanged-IsSound p (returns tt) l refl)
  | inr some_left ↦ elim (Bool-cases (kevent p.changes)) [
    | inl taken ↦
        rw (some_left, taken)
          (quiet-IsSound _ (record { named = l.named; back = l.back; fresh = l.fresh }) refl refl
            refl refl)
    | inr refused ↦ rw (some_left, refused) (unchanged-IsSound p _ l refl)
  ]
]

flush-events : (kevent : List Change → Bool) (p : Poll) → (flush kevent p).0.events ≡ p.events
unfolding flush
flush-events kevent p = ground arith

change_for-IsSound :
    (p : Poll) (e n : ℕ) (add : Bool) (f : Filter)
    → IsLinked p
    → (p.events e).fd ≡ some n
    → IsSound p (change_for p e add f)
change_for-IsSound p e n add f l fd =
    rw (fd, change_for)
      (quiet-IsSound _ (record { named = l.named; back = l.back; fresh = l.fresh }) refl refl refl
        refl)

pub modify-IsSound :
    (kevent : List Change → Bool) (p : Poll) (e n : ℕ) (add : Bool) (f : Filter)
    → IsLinked p
    → (p.events e).fd ≡ some n
    → IsSound p (modify kevent p e add f)
unfolding modify
modify-IsSound kevent p e n add f l fd = elim (Bool-cases (length p.changes == p.max_events)) [
  | inl is_full ↦
      let s = flush-IsSound kevent p l in
      rw is_full (
        then_do-IsSound (flush kevent p) (λ _ p'. change_for p' e add f) s
          (λ _ _. change_for-IsSound _ e n add f s.linked (rw (flush-events kevent p) fd)))
  | inr has_room ↦ rw has_room (change_for-IsSound p e n add f l fd)
]

with_mask-IsLinked :
    (p : Poll) (ref : ℕ) (mask : Mask)
    → IsLinked p
    → (p.poll_events ref).event ≢ none
    → IsLinked (with_mask p ref mask)
with_mask-IsLinked p ref mask l has_event = record {
  named = λ r h. elim (eq-cases r ref) [
    | inl same ↦ rw (==_true r ref same) has_event
    | inr other ↦ rw (==_false r ref other) (l.named r (ground (arith, h, ==_false r ref other)))
  ];
  back = λ r e h. l.back r e (ground (arith, h));
  fresh = λ r h. ground (arith, l.fresh r h, l.fresh ref);
}

-- What `event_mask` gives is the mask of the event's PollEvent, and the event has a descriptor.
event_mask-cases :
    (p : Poll) (e : ℕ)
    → ((msg : String) × (event_mask p e ≡ (p, throws (internal_error msg))))
      ⊎ ((ref n : ℕ) × (event_mask p e ≡ (p, returns (p.poll_events ref).mask))
          × ((p.poll_events ref).event ≡ some e)
          × ((p.events e).fd ≡ some n))
unfolding event_mask
event_mask-cases p e = elim (Option-cases (p.events e).fd) [
  | inl closed ↦ inl (
    "PollInternal::event_mask() invalid file descriptor for event: ",
    rw (closed, event_mask) refl,
  )
  | inr (n, fd) ↦ elim (Option-cases (p.table n)) [
    | inl missing ↦
        inl ("PollInternal::event_mask() event not found: ", rw (fd, missing, event_mask) refl)
    | inr (ref, entry) ↦ elim (Bool-cases (is_event e (p.poll_events ref).event)) [
      | inl matches ↦
          inr (ref, n, rw (fd, entry, matches, event_mask) refl, ground (arith, matches), fd)
      | inr other ↦
          inl
            ("PollInternal::event_mask() event mismatch: ", rw (fd, entry, other, event_mask) refl)
    ]
  ]
]

pub set_event_mask-IsSound :
    (p : Poll) (e ref n : ℕ) (mask : Mask)
    → IsLinked p
    → (p.poll_events ref).event ≡ some e
    → (p.events e).fd ≡ some n
    → IsSound p (set_event_mask p e mask)
unfolding set_event_mask
set_event_mask-IsSound p e ref n mask l has_event fd =
    rw (fd, l.back ref e has_event, set_event_mask)
      (quiet-IsSound _ (with_mask-IsLinked p ref mask l (λ q. ground (arith, q, has_event))) refl
        refl refl refl)

pub set_event_mask-events :
    (p : Poll) (e : ℕ) (mask : Mask) → (set_event_mask p e mask).0.events ≡ p.events
unfolding set_event_mask
set_event_mask-events p e mask = ground arith

-- An operation that begins with the mask of the event.
pub masked-IsSound :
    (p : Poll) (e : ℕ) (k : Mask → Poll → Poll × Outcome (Unit {0}))
    → IsLinked p
    → ((ref n : ℕ)
        → (p.poll_events ref).event ≡ some e
        → (p.events e).fd ≡ some n
        → IsSound p (k (p.poll_events ref).mask p))
    → IsSound p (then_do (event_mask p e) k)
masked-IsSound p e k l h = elim (event_mask-cases p e) [
  | inl (msg, fails) ↦ rw fails (unchanged-IsSound p (throws (internal_error msg)) l refl)
  | inr (ref, n, found, has_event, fd) ↦ rw found (h ref n has_event fd)
]
