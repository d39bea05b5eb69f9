-- ===== src/Poll/Closing.antt =====
-- `Poll::remove_and_close` of torrent/system/poll_kqueue.cc on an open event.
use shm_ipc.Base.{
  append-nil, ℕ, ◌≡◌, refl, ◌∙◌, ap, Bool, true, false, ==_true, Bool-cases, inl, inr, none, List,
  [], arith,
}
use shm_ipc.Base.Outcome.{returns}
use shm_ipc.Poll.{
  Mask, no_flags, Filter, evfilt_read, evfilt_write, Change, Poll, update, then_do, flush, has,
  remove_error, forget, close, remove_and_close,
}
use shm_ipc.Poll.Listening.{
  Leaves, event_mask-Open, set_event_mask-Open, flush-told, with_mask, remove_filter-Open,
  has-no_flags,
}
use shm_ipc.Poll.Told.{update-other, Frame, Frame-same, Frame-trans, listens, told, Open}

abbrev no_error : Mask → Mask
no_error m = record m { error = false }

same_error : (mask : Mask) → mask.error ≡ false → mask ≡ no_error mask
same_error mask e = ground (arith, e)

has-no_error : (f : Filter) (mask : Mask) → has f (no_error mask) ≡ has f mask
has-no_error evfilt_read mask = refl
has-no_error evfilt_write mask = refl

with_mask-no_error :
    {p : Poll} {e n ref : ℕ}
    → Open p e n ref
    → Open (with_mask p ref (no_error (p.poll_events ref).mask)) e n ref
with_mask-no_error {p} {e} {n} {ref} o = record {
  has_fd = o.has_fd;
  has_poll_event = o.has_poll_event;
  in_table = o.in_table;
  knows = rw (==_true ref ref refl) o.knows;
  listening =
      λ f. rw (==_true ref ref refl) (rw (has-no_error f (p.poll_events ref).mask) (o.listening f));
}

remove_error-Open :
    {p : Poll} {e n ref : ℕ}
    → Open p e n ref
    → Leaves p e n ref (no_error (p.poll_events ref).mask) (remove_error p e)
unfolding remove_error
remove_error-Open {p} {e} {n} {ref} o = elim (Bool-cases (p.poll_events ref).mask.error) [
  | inl there ↦ (
    with_mask p ref (no_error (p.poll_events ref).mask),
    rw (event_mask-Open o, there, set_event_mask-Open (no_error (p.poll_events ref).mask) o) refl,
    with_mask-no_error o,
    rw (==_true ref ref refl) refl,
    record {
      other_events = λ x ne. refl;
      other_entries = λ m ne. refl;
      other_poll_events = λ r ne. update-other p.poll_events ref _ r ne;
      other_told = λ m f ne. refl;
    },
  )
  | inr missing ↦ (p, rw (event_mask-Open o, missing) refl, o, same_error _ missing, Frame-same p)
]

-- An event that the poll has let go of: the kernel has been told to listen to nothing of its
-- descriptor, with no change left to hand over.
pub record Closed (e n : ℕ) (p : Poll) : Type 0 where
  pub no_poll_event : (p.events e).poll_event ≡ none
  pub not_in_table : p.table n ≡ none
  pub flushed : p.changes ≡ []
  pub deaf : (f : Filter) → listens false p.applied n f ≡ false

abbrev pub closed_poll : Poll → ℕ → ℕ → ℕ → Poll
closed_poll p e n ref =
    forget e ref (record p { table = update p.table n none; changes = []; applied = told p })

close-flush :
    (kevent : List Change → Bool) {p : Poll} {e n ref : ℕ}
    → Open p e n ref
    → (p.poll_events ref).mask ≡ no_flags
    → close kevent p e
      ≡ then_do
          (flush kevent (record p { table = update p.table n none }))
          (λ _ p2. (forget e ref p2, returns tt))
unfolding close
close-flush kevent {p} {e} {n} {ref} o empty =
    rw (o.has_poll_event, close, o.knows, ==_true e e refl, event_mask-Open o, empty, o.has_fd) refl

close-Open :
    (kevent : List Change → Bool) {p : Poll} {e n ref : ℕ}
    → ((cs : List Change) → kevent cs ≡ true)
    → Open p e n ref
    → (p.poll_events ref).mask ≡ no_flags
    → close kevent p e ≡ (closed_poll p e n ref, returns tt)
close-Open kevent {p} {e} {n} {ref} ok o empty =
    close-flush kevent o empty
    ∙ ap (λ out. then_do out (λ _ p2. (forget e ref p2, returns tt)))
        (flush-told kevent (record p { table = update p.table n none }) ok)

closed_poll-Closed :
    {p : Poll} {e n ref : ℕ}
    → Open p e n ref
    → (p.poll_events ref).mask ≡ no_flags
    → Closed e n (closed_poll p e n ref)
closed_poll-Closed {p} {e} {n} {ref} o empty = record {
  no_poll_event = rw (==_true e e refl) refl;
  not_in_table = rw (==_true n n refl) refl;
  flushed = refl;
  deaf = λ f. o.listening f ∙ (ap (has f) empty ∙ has-no_flags f);
}

closed_poll-Frame : (p : Poll) (e n ref : ℕ) → Frame e n ref p (closed_poll p e n ref)
closed_poll-Frame p e n ref = record {
  other_events = λ x ne. update-other p.events e _ x ne;
  other_entries = λ m ne. update-other p.table n none m ne;
  other_poll_events = λ r ne. update-other p.poll_events ref _ r ne;
  other_told = λ m f ne. ap (λ cs. listens false cs m f) (append-nil (told p));
}

-- The poll that `close` starts from there.
pub remove_and_close-steps :
    (kevent : List Change → Bool) {p : Poll} {e n ref : ℕ}
    → ((cs : List Change) → kevent cs ≡ true)
    → Open p e n ref
    → (p3 : Poll) × (remove_and_close kevent p e ≡ (closed_poll p3 e n ref, returns tt))
      × Open p3 e n ref
      × ((p3.poll_events ref).mask ≡ no_flags)
      × Frame e n ref p p3
unfolding remove_and_close
remove_and_close-steps kevent {p} {e} {n} {ref} ok o =
    let (p1, e1, o1, m1, f1) = remove_filter-Open kevent evfilt_read ok o in
    let (p2, e2, o2, m2, f2) = remove_filter-Open kevent evfilt_write ok o1 in
    let (p3, e3, o3, m3, f3) = remove_error-Open o2 in
    let empty : (p3.poll_events ref).mask ≡ no_flags = rw (m3, m2, m1) refl in
    (
      p3,
      rw (e1, e2, e3) (close-Open kevent ok o3 empty),
      o3,
      empty,
      Frame-trans f1 (Frame-trans f2 f3),
    )

-- Where the kernel takes all changes, `remove_and_close` on an open event returns, whatever its
-- mask; then the event is out of the table, the kernel has been told to listen to nothing of its
-- descriptor, and all else is as it was.
pub remove_and_close-Closed :
    (kevent : List Change → Bool) {p : Poll} {e n ref : ℕ}
    → ((cs : List Change) → kevent cs ≡ true)
    → Open p e n ref
    → (p' : Poll) × (remove_and_close kevent p e ≡ (p', returns tt))
      × Closed e n p'
      × Frame e n ref p p'
remove_and_close-Closed kevent {e = e} {n = n} {ref = ref} ok o =
    let (p3, same, o3, empty, s) = remove_and_close-steps kevent ok o in
    (
      closed_poll p3 e n ref,
      same,
      closed_poll-Closed o3 empty,
      Frame-trans s (closed_poll-Frame p3 e n ref),
    )
