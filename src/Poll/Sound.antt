-- ===== src/Poll/Sound.antt =====
-- The operations of torrent/system/poll_kqueue.cc on a poll whose events and PollEvents are linked.
use shm_ipc.Base.{
  ℕ, ◌+◌, ◌≡◌, inl, inr, refl, Bool, true, false, ==_true, ==_false, eq-cases, Bool-cases,
  Option-cases, none, some, List, [], ◌∷◌, arith,
}
use shm_ipc.Base.Outcome.{Outcome, returns}
use shm_ipc.Poll.{
  Mask, no_flags, Filter, evfilt_read, evfilt_write, Change, Poll, update, is_event, then_do,
  set_event_mask, flush, modify, open_event, has, insert_filter, remove_filter, insert_error,
  remove_error, forget, is_empty, close, remove_and_close, open_and_insert_read,
}
use shm_ipc.Poll.Links.{
  IsLinked, is_in-append, IsSound, unchanged-IsSound, then_do-IsSound, flush-IsSound,
  modify-IsSound, set_event_mask-IsSound, set_event_mask-events, masked-IsSound,
}

change-IsSound :
    (kevent : List Change → Bool) (p : Poll) (e ref n : ℕ) (add : Bool) (f : Filter) (mask : Mask)
    → IsLinked p
    → (p.poll_events ref).event ≡ some e
    → (p.events e).fd ≡ some n
    → IsSound p (then_do (set_event_mask p e mask) (λ _ p2. modify kevent p2 e add f))
change-IsSound kevent p e ref n add f mask l has_event fd =
    let s = set_event_mask-IsSound p e ref n mask l has_event fd in
    then_do-IsSound (set_event_mask p e mask) (λ _ p2. modify kevent p2 e add f) s
      (λ _ _. modify-IsSound kevent _ e n add f s.linked (rw (set_event_mask-events p e mask) fd))

pub insert_filter-IsSound :
    (kevent : List Change → Bool) (f : Filter) (p : Poll) (e : ℕ)
    → IsLinked p
    → IsSound p (insert_filter kevent f p e)
unfolding insert_filter
insert_filter-IsSound kevent f p e l = masked-IsSound p e _ l (λ ref n has_event fd.
    elim (Bool-cases (has f (p.poll_events ref).mask)) [
      | inl there ↦ rw there (unchanged-IsSound p (returns tt) l refl)
      | inr missing ↦ rw missing (change-IsSound kevent p e ref n true f _ l has_event fd)
    ])

pub remove_filter-IsSound :
    (kevent : List Change → Bool) (f : Filter) (p : Poll) (e : ℕ)
    → IsLinked p
    → IsSound p (remove_filter kevent f p e)
unfolding remove_filter
remove_filter-IsSound kevent f p e l = masked-IsSound p e _ l (λ ref n has_event fd.
    elim (Bool-cases (has f (p.poll_events ref).mask)) [
      | inl there ↦ rw there (change-IsSound kevent p e ref n false f _ l has_event fd)
      | inr missing ↦ rw missing (unchanged-IsSound p (returns tt) l refl)
    ])

pub insert_error-IsSound : (p : Poll) (e : ℕ) → IsLinked p → IsSound p (insert_error p e)
unfolding insert_error
insert_error-IsSound p e l = masked-IsSound p e _ l (λ ref n has_event fd.
    elim (Bool-cases (p.poll_events ref).mask.error) [
      | inl there ↦ rw there (unchanged-IsSound p (returns tt) l refl)
      | inr missing ↦ rw missing (set_event_mask-IsSound p e ref n _ l has_event fd)
    ])

pub remove_error-IsSound : (p : Poll) (e : ℕ) → IsLinked p → IsSound p (remove_error p e)
unfolding remove_error
remove_error-IsSound p e l = masked-IsSound p e _ l (λ ref n has_event fd.
    elim (Bool-cases (p.poll_events ref).mask.error) [
      | inl there ↦ rw there (set_event_mask-IsSound p e ref n _ l has_event fd)
      | inr missing ↦ rw missing (unchanged-IsSound p (returns tt) l refl)
    ])

-- The PollEvent is made for an event that has none.
opened-IsSound :
    (p : Poll) (e n : ℕ) (o : Outcome (Unit {0}))
    → IsLinked p
    → (p.events e).poll_event ≡ none
    → o ≡ returns tt
    → IsSound p (
      record p {
        poll_events =
            update p.poll_events p.next_poll_event (record { mask = no_flags; event = some e });
        next_poll_event = p.next_poll_event + 1;
        events = update p.events e (record (p.events e) { poll_event = some p.next_poll_event });
        table = update p.table n (some p.next_poll_event);
      },
      o,
    )
opened-IsSound p e n o l free ok = record {
  linked = record {
    named = λ r h. elim (eq-cases r p.next_poll_event) [
      | inl same ↦ rw (==_true r p.next_poll_event same) (λ q. ground (arith, q))
      | inr other ↦
          let off = ==_false r p.next_poll_event other in
          rw off (l.named r (ground (arith, h, off)))
    ];
    back = λ r e' h. ground (arith, h, l.back r e', free);
    fresh = λ r h. ground (arith, l.fresh r);
  };
  defined = rw ok refl;
  same_phase = refl;
  held = λ _ ref h. elim h [
    | inl (e', pe) ↦ inl (e', ground (arith, pe, free))
    | inr closed ↦ inr closed
  ];
}

pub open_event-IsSound : (p : Poll) (e : ℕ) → IsLinked p → IsSound p (open_event p e)
unfolding open_event
open_event-IsSound p e l = elim (Option-cases (p.events e).fd) [
  | inl closed ↦ rw (closed, open_event) (unchanged-IsSound p _ l refl)
  | inr (n, fd) ↦ elim (Option-cases (p.events e).poll_event) [
    | inr (ref, open_before) ↦ rw (fd, open_before, open_event) (unchanged-IsSound p _ l refl)
    | inl free ↦ elim (Option-cases (p.table n)) [
      | inr (ref, used) ↦ rw (fd, free, used, open_event) (unchanged-IsSound p _ l refl)
      | inl unused ↦ rw (fd, free, unused, open_event) (opened-IsSound p e n _ l free refl)
    ]
  ]
]

-- The PollEvent is let go of, and its mask is empty.
forget-IsSound :
    (p : Poll) (e ref : ℕ)
    → IsLinked p
    → (p.poll_events ref).event ≡ some e
    → is_empty (p.poll_events ref).mask ≡ true
    → IsSound {0} p (forget e ref p, returns tt)
forget-IsSound p e ref l has_event empty = record {
  linked = record {
    named = λ r h. elim (eq-cases r ref) [
      | inl same ↦ absurd (ground (arith, same, h, empty, ==_true r ref same))
      | inr other ↦ let off = ==_false r ref other in rw off (l.named r (ground (arith, h, off)))
    ];
    back = λ r e' h. ground (arith, h, l.back r e', l.back ref e has_event);
    fresh = λ r h. ground (arith, l.fresh r h);
  };
  defined = refl;
  same_phase = refl;
  held = λ now r h. elim h [
    | inr closed ↦ inr (ground (arith, now, closed, is_in-append r p.closed_events (ref ∷ [])))
    | inl (e', pe) ↦ elim (eq-cases e' e) [
      | inl same ↦ inr (
          ground (
            arith,
            now,
            is_in-append r p.closed_events (ref ∷ []),
            same,
            pe,
            l.back ref e has_event,
          ))
      | inr other ↦ inl (e', rw (==_false e' e other) pe)
    ]
  ];
}

flush-same :
    (kevent : List Change → Bool) (p : Poll) → (flush kevent p).0.poll_events ≡ p.poll_events
unfolding flush
flush-same kevent p = ground arith

-- The end of `close`.
dropped-IsSound :
    (kevent : List Change → Bool) (p : Poll) (e n ref : ℕ)
    → IsLinked p
    → (p.poll_events ref).event ≡ some e
    → is_empty (p.poll_events ref).mask ≡ true
    → IsSound p (
        then_do {0, 0}
          (flush kevent (record p { table = update p.table n none }))
          (λ _ p2. (forget e ref p2, returns tt)))
dropped-IsSound kevent p e n ref l has_event empty =
    let p1 : Poll = record p { table = update p.table n none } in
    let l1 : IsLinked p1 = record { named = l.named; back = l.back; fresh = l.fresh } in
    let s = flush-IsSound kevent p1 l1 in
    let same = flush-same kevent p1 in
    then_do-IsSound {0, 0} (flush kevent p1) (λ _ p2. (forget e ref p2, returns tt))
      (record { linked = s.linked; defined = s.defined; same_phase = s.same_phase; held = s.held })
      (λ _ _. forget-IsSound (flush kevent p1).0 e ref s.linked (rw same has_event) (rw same empty))

pub close-IsSound :
    (kevent : List Change → Bool) (p : Poll) (e : ℕ) → IsLinked p → IsSound p (close kevent p e)
unfolding close
close-IsSound kevent p e l = elim (Option-cases (p.events e).poll_event) [
  | inl closed ↦ rw (closed, close) (unchanged-IsSound p (returns tt) l refl)
  | inr (ref, open_before) ↦ elim (Bool-cases (is_event e (p.poll_events ref).event)) [
    | inr other ↦ rw (open_before, other, close) (unchanged-IsSound p _ l refl)
    | inl matches ↦
        rw (open_before, matches, close)
          (masked-IsSound p e _ l (λ r _ has_event _.
            elim (Bool-cases (is_empty (p.poll_events r).mask)) [
              | inr active ↦ rw active (unchanged-IsSound p _ l refl)
              | inl empty ↦ elim (Option-cases (p.events e).fd) [
                | inl no_fd ↦ rw (empty, no_fd) (unchanged-IsSound p _ l refl)
                | inr (n, fd) ↦
                    let same : ref ≡ r = ground (arith, l.back r e has_event, open_before) in
                    rw (empty, fd, same) (dropped-IsSound kevent p e n r l has_event empty)
              ]
            ]))
  ]
]

pub remove_and_close-IsSound :
    (kevent : List Change → Bool) (p : Poll) (e : ℕ)
    → IsLinked p
    → IsSound p (remove_and_close kevent p e)
unfolding remove_and_close
remove_and_close-IsSound kevent p e l =
    let s1 = remove_filter-IsSound kevent evfilt_read p e l in
    then_do-IsSound (remove_filter kevent evfilt_read p e) _ s1 (λ _ _.
      let s2 = remove_filter-IsSound kevent evfilt_write _ e s1.linked in
      then_do-IsSound (remove_filter kevent evfilt_write _ e) _ s2 (λ _ _.
        let s3 = remove_error-IsSound _ e s2.linked in
        then_do-IsSound (remove_error _ e) _ s3 (λ _ _. close-IsSound kevent _ e s3.linked)))

pub open_and_insert_read-IsSound :
    (kevent : List Change → Bool) (p : Poll) (e : ℕ)
    → IsLinked p
    → IsSound p (open_and_insert_read kevent p e)
unfolding open_and_insert_read
open_and_insert_read-IsSound kevent p e l =
    let s = open_event-IsSound p e l in
    then_do-IsSound (open_event p e) _ s
      (λ _ _. insert_filter-IsSound kevent evfilt_read _ e s.linked)
