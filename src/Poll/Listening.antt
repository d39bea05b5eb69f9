-- ===== src/Poll/Listening.antt =====
-- What the kernel has been told about a descriptor, in torrent/system/poll_kqueue.cc.
use shm_ipc.Base.{
  ℕ, ◌+◌, ◌≡◌, refl, sym, ◌∙◌, Bool, true, false, ◌==◌, ==_true, Bool-cases, inl, inr, Option, none,
  some, List, [], ◌∷◌, ◌++◌, append_assoc, append-nil, length, arith,
}
use shm_ipc.Base.Outcome.{Outcome, returns}
use shm_ipc.Poll.{
  Mask, no_flags, Filter, evfilt_read, evfilt_write, Change, Poll, update, then_do, event_mask,
  set_event_mask, flush, push, change_for, modify, open_event, has, set_flag, insert_filter,
  remove_filter,
}
use shm_ipc.Poll.Told.{
  Frame, Frame-same, Open, listens, listens-append, listens-other, told, update-other,
}

pub event_mask-Open :
    {p : Poll} {e n ref : ℕ}
    → Open p e n ref
    → event_mask p e ≡ (p, returns (p.poll_events ref).mask)
unfolding event_mask
event_mask-Open o = ground (arith, o.has_fd, o.in_table, o.knows)

flush-cases :
    (kevent : List Change → Bool) (p : Poll) (cs : List Change)
    → ((cs : List Change) → kevent cs ≡ true)
    → p.changes ≡ cs
    → flush kevent p ≡ (record p { changes = []; applied = told p }, returns tt)
unfolding flush
flush-cases kevent p [] ok e =
    let same : told p ≡ p.applied = rw e (append-nil p.applied) in ground (arith, same, e)
flush-cases kevent p (c ∷ cs) ok e = ground (arith, ok p.changes, e)

pub flush-told :
    (kevent : List Change → Bool) (p : Poll)
    → ((cs : List Change) → kevent cs ≡ true)
    → flush kevent p ≡ (record p { changes = []; applied = told p }, returns tt)
flush-told kevent p ok = flush-cases kevent p p.changes ok refl

change_for_lem :
    (p : Poll) (e n ref : ℕ) (add : Bool) (filter : Filter)
    → (p.events e).fd ≡ some n
    → (p.events e).poll_event ≡ some ref
    → change_for p e add filter
      ≡ (push p (record { ident = n; filter = filter; add = add; udata = some ref }), returns tt)
change_for_lem p e n ref add filter fd pe = ground (arith, fd, pe)

-- What `modify` does where the kernel takes all changes.
modify-told :
    (kevent : List Change → Bool) (p : Poll) (e n ref : ℕ) (add : Bool) (filter : Filter)
    → ((cs : List Change) → kevent cs ≡ true)
    → (p.events e).fd ≡ some n
    → (p.events e).poll_event ≡ some ref
    → (cs : List Change) × (applied : List Change) × (modify kevent p e add filter
        ≡ (record p { changes = cs; applied = applied }, returns tt))
      × (applied ++ cs
          ≡ told p ++ (record { ident = n; filter = filter; add = add; udata = some ref } ∷ []))
unfolding modify
modify-told kevent p e n ref add filter ok fd pe =
    let c : Change = record { ident = n; filter = filter; add = add; udata = some ref } in
    elim (Bool-cases (length p.changes == p.max_events)) [
      | inl is_full ↦ (
        c ∷ [],
        told p,
        rw (is_full, flush-told kevent p ok)
            (change_for_lem (record p { changes = []; applied = told p }) e n ref add filter fd pe),
        refl,
      )
      | inr has_room ↦ (
        p.changes ++ (c ∷ []),
        p.applied,
        rw has_room (change_for_lem p e n ref add filter fd pe),
        sym (append_assoc p.applied p.changes (c ∷ [])),
      )
    ]

abbrev pub with_mask : Poll → ℕ → Mask → Poll
with_mask p ref mask = record p {
  poll_events = update p.poll_events ref (record (p.poll_events ref) { mask = mask });
}

pub set_event_mask-Open :
    {p : Poll} {e n ref : ℕ} (mask : Mask)
    → Open p e n ref
    → set_event_mask p e mask ≡ (with_mask p ref mask, returns tt)
unfolding set_event_mask
set_event_mask-Open mask o = ground (arith, o.has_fd, o.has_poll_event)

-- The flag and the change for the kernel agree.
last_change :
    (before : List Change) (n : ℕ) (udata : Option ℕ) (add : Bool) (filter f : Filter) (mask : Mask)
    → listens false before n f ≡ has f mask
    → listens false
        (before ++ (record { ident = n; filter = filter; add = add; udata = udata } ∷ []))
        n
        f
      ≡ has f (set_flag filter add mask)
unfolding listens
last_change before n udata add evfilt_read evfilt_read mask e =
    rw (listens-append before _ false n evfilt_read, ==_true n n refl) refl
last_change before n udata add evfilt_read evfilt_write mask e =
    rw (listens-append before _ false n evfilt_write, ==_true n n refl) e
last_change before n udata add evfilt_write evfilt_read mask e =
    rw (listens-append before _ false n evfilt_read, ==_true n n refl) e
last_change before n udata add evfilt_write evfilt_write mask e =
    rw (listens-append before _ false n evfilt_write, ==_true n n refl) refl

changed-Open :
    {p : Poll} {e n ref : ℕ} (add : Bool) (filter : Filter) (cs applied : List Change)
    → Open p e n ref
    → applied ++ cs
      ≡ told p ++ (record { ident = n; filter = filter; add = add; udata = some ref } ∷ [])
    → Open
        (record (with_mask p ref (set_flag filter add (p.poll_events ref).mask)) {
          changes = cs;
          applied = applied;
        })
        e
        n
        ref
changed-Open {p} {e} {n} {ref} add filter cs applied o same = record {
  has_fd = o.has_fd;
  has_poll_event = o.has_poll_event;
  in_table = o.in_table;
  knows = rw (==_true ref ref refl) o.knows;
  listening = λ f.
      rw (same, ==_true ref ref refl)
        (last_change (told p) n (some ref) add filter f (p.poll_events ref).mask (o.listening f));
}

pub has-no_flags : (f : Filter) → has f no_flags ≡ false
has-no_flags evfilt_read = refl
has-no_flags evfilt_write = refl

-- What an operation on an event leaves: the event open, with this mask, and all else as it was.
abbrev pub Leaves : Poll → ℕ → ℕ → ℕ → Mask → Poll × Outcome (Unit {0}) → Type 0
Leaves p e n ref mask out =
    (p' : Poll) × (out ≡ (p', returns tt))
    × Open p' e n ref
    × ((p'.poll_events ref).mask ≡ mask)
    × Frame e n ref p p'

change-Leaves :
    (kevent : List Change → Bool) {p : Poll} {e n ref : ℕ} (add : Bool) (filter : Filter)
    → ((cs : List Change) → kevent cs ≡ true)
    → Open p e n ref
    → let mask = set_flag filter add (p.poll_events ref).mask in
      Leaves p e n ref mask
        (then_do (set_event_mask p e mask) (λ _ p2. modify kevent p2 e add filter))
change-Leaves kevent {p} {e} {n} {ref} add filter ok o =
    let mask = set_flag filter add (p.poll_events ref).mask in
    let (cs, applied, e1, e2) =
      modify-told kevent (with_mask p ref mask) e n ref add filter ok o.has_fd o.has_poll_event in
    (
      record (with_mask p ref mask) { changes = cs; applied = applied },
      rw (set_event_mask-Open mask o) e1,
      changed-Open add filter cs applied o e2,
      rw (==_true ref ref refl) refl,
      record {
        other_events = λ x ne. refl;
        other_entries = λ m ne. refl;
        other_poll_events = λ r ne. update-other p.poll_events ref _ r ne;
        other_told = λ m f ne.
            rw e2 (listens-append (told p) _ false m f ∙ listens-other _ _ m f (λ h. ne (sym h)));
      },
    )

same_flag :
    (filter : Filter) (b : Bool) (mask : Mask) → has filter mask ≡ b → mask ≡ set_flag filter b mask
same_flag evfilt_read b mask e = ground (arith, e)
same_flag evfilt_write b mask e = ground (arith, e)

-- Where the kernel takes all changes, inserting an open event for a filter returns, sets exactly
-- that flag, leaves the kernel told what the mask says, and leaves all else as it was.
pub insert_filter-Open :
    (kevent : List Change → Bool) (filter : Filter) {p : Poll} {e n ref : ℕ}
    → ((cs : List Change) → kevent cs ≡ true)
    → Open p e n ref
    → Leaves p e n ref
        (set_flag filter true (p.poll_events ref).mask)
        (insert_filter kevent filter p e)
unfolding insert_filter
insert_filter-Open kevent filter {p} {e} {n} {ref} ok o =
    elim (Bool-cases (has filter (p.poll_events ref).mask)) [
      | inl there ↦
          (p, rw (event_mask-Open o, there) refl, o, same_flag filter true _ there, Frame-same p)
      | inr missing ↦ rw (event_mask-Open o, missing) (change-Leaves kevent true filter ok o)
    ]

-- And so removing it, which clears exactly that flag.
pub remove_filter-Open :
    (kevent : List Change → Bool) (filter : Filter) {p : Poll} {e n ref : ℕ}
    → ((cs : List Change) → kevent cs ≡ true)
    → Open p e n ref
    → Leaves p e n ref
        (set_flag filter false (p.poll_events ref).mask)
        (remove_filter kevent filter p e)
unfolding remove_filter
remove_filter-Open kevent filter {p} {e} {n} {ref} ok o =
    elim (Bool-cases (has filter (p.poll_events ref).mask)) [
      | inl there ↦ rw (event_mask-Open o, there) (change-Leaves kevent false filter ok o)
      | inr missing ↦ (
        p,
        rw (event_mask-Open o, missing) refl,
        o,
        same_flag filter false _ missing,
        Frame-same p,
      )
    ]

-- `open` on an event with a descriptor that is not in the table, and of which the kernel has not
-- been told to listen to anything, returns, and leaves the event open with an empty mask.
pub open_event-Open :
    (p : Poll) (e n : ℕ)
    → (p.events e).fd ≡ some n
    → (p.events e).poll_event ≡ none
    → p.table n ≡ none
    → ((f : Filter) → listens false (told p) n f ≡ false)
    → Leaves p e n p.next_poll_event no_flags (open_event p e)
unfolding open_event
open_event-Open p e n fd pe free silent = (
  record p {
    poll_events =
        update p.poll_events p.next_poll_event (record { mask = no_flags; event = some e });
    next_poll_event = p.next_poll_event + 1;
    events = update p.events e (record (p.events e) { poll_event = some p.next_poll_event });
    table = update p.table n (some p.next_poll_event);
  },
  ground (arith, fd, pe, free),
  record {
    has_fd = rw (==_true e e refl) fd;
    has_poll_event = rw (==_true e e refl) refl;
    in_table = rw (==_true n n refl) refl;
    knows = rw (==_true p.next_poll_event p.next_poll_event refl) refl;
    listening = λ f.
        rw (==_true p.next_poll_event p.next_poll_event refl) (silent f ∙ sym (has-no_flags f));
  },
  rw (==_true p.next_poll_event p.next_poll_event refl) refl,
  record {
    other_events = λ x ne. update-other p.events e _ x ne;
    other_entries = λ m ne. update-other p.table n _ m ne;
    other_poll_events = λ r ne. update-other p.poll_events p.next_poll_event _ r ne;
    other_told = λ m f ne. refl;
  },
)
