-- ===== src/Router/Ours.antt =====
-- The poll of a router in torrent/system/ipc/router.cc, where nobody else uses it: its table has no
-- entries but those of the two descriptors of the router.
use shm_ipc.Base.{
  ℕ, ◌≡◌, ◌≢◌, ◌⊎◌, inl, inr, refl, ◌∙◌, sym, ap, ==_true, ==_false, eq-cases, Option-cases, none,
  some, Bool, true, List, arith,
}
use shm_ipc.Base.Outcome.{Outcome, returns}
use shm_ipc.Poll.{Event, Change, Poll, IsEmptyTable}
use shm_ipc.Poll.Told.{Open, Frame, Frame-Open, update-other}
use shm_ipc.Router.Fds.{Fds, set_fd, close_event, close_fds}
use shm_ipc.Router.Closing.{close_event-Closed}

-- An event that the poll does not know, or that is open.
abbrev pub At : Poll → ℕ → Type 0
At p e = ((p.events e).poll_event ≡ none) ⊎ ((n : ℕ) × (ref : ℕ) × Open p e n ref)

-- An entry of the table that belongs to an event.
abbrev pub Owns : Poll → ℕ → ℕ → ℕ → Type 0
Owns p e n ref = ((p.events e).fd ≡ some n) × ((p.events e).poll_event ≡ some ref)

pub record IsOurs (a b : ℕ) (p : Poll) : Type 0 where
  pub first : At p a
  pub second : At p b
  pub only : (n ref : ℕ) → p.table n ≡ some ref → Owns p a n ref ⊎ Owns p b n ref

swap_sides : {A B : Type 0} → A ⊎ B → B ⊎ A
swap_sides (inl a) = inr a
swap_sides (inr b) = inl b

pub IsOurs-swap : {a b : ℕ} {p : Poll} → IsOurs a b p → IsOurs b a p
IsOurs-swap o = record {
  first = o.second;
  second = o.first;
  only = λ n ref h. swap_sides (o.only n ref h);
}

-- Two open events have different descriptors and different PollEvents.
pub apart-entries :
    {p : Poll} {a b n m r ref : ℕ} → b ≢ a → Open p a n ref → Open p b m r → (m ≢ n) × (r ≢ ref)
apart-entries {p} {a} {b} {n} {m} {r} {ref} ne oa ob =
    let other : r ≢ ref = λ e. ne (cc (oa.knows, ob.knows, e)) in
    (λ e. other (cc (oa.in_table, ob.in_table, e)), other)

Open-set_fd : {p : Poll} {a b m r : ℕ} → b ≢ a → Open p b m r → Open (set_fd p a none) b m r
Open-set_fd {p} {a} {b} ne o = record {
  has_fd = rw (==_false b a ne) o.has_fd;
  has_poll_event = rw (==_false b a ne) o.has_poll_event;
  in_table = o.in_table;
  knows = o.knows;
  listening = o.listening;
}

close_unpolled :
    (kevent : List Change → Bool) (p : Poll) (e n : ℕ)
    → (p.events e).fd ≡ some n
    → (p.events e).poll_event ≡ none
    → close_event kevent (returns tt) p e ≡ (set_fd p e none, returns tt)
unfolding close_event
close_unpolled kevent p e n fd pe = ground (arith, fd, pe)

-- What closing the descriptor `a` leaves.
abbrev Shut : ℕ → ℕ → Poll → Poll × Outcome (Unit {0}) → Type 0
Shut a b p out =
    (p' : Poll) × (out ≡ (p', returns tt))
    × IsOurs a b p'
    × ((p'.events a).poll_event ≡ none)
    × ((x : ℕ) → x ≢ a → p'.events x ≡ p.events x)

module _ (kevent : List Change → Bool) (ok : (cs : List Change) → kevent cs ≡ true) (a b : ℕ)
    (ne : b ≢ a) where
  At-set_fd : (p : Poll) → At p b → At (set_fd p a none) b
  At-set_fd p (inl h) = inl (ap (λ (v : Event). v.poll_event) (update-other p.events a _ b ne) ∙ h)
  At-set_fd p (inr (m, r, o)) = inr (m, r, Open-set_fd ne o)

  -- An event that is not in the poll.
  unpolled :
      (p : Poll)
      → IsOurs a b p
      → (p.events a).poll_event ≡ none
      → Shut a b p (close_event kevent (returns tt) p a)
  unfolding close_event
  unpolled p o gone = elim (Option-cases (p.events a).fd) [
    | inl shut ↦ (p, rw (shut, close_event) refl, o, gone, λ x _. refl)
    | inr (n, there) ↦
        let same : ((set_fd p a none).events a).poll_event ≡ none = rw (==_true a a refl) gone in
        (
          set_fd p a none,
          close_unpolled kevent p a n there gone,
          record {
            first = inl same;
            second = At-set_fd p o.second;
            only = λ m r h. elim (o.only m r h) [
              | inl (fd, pe) ↦ absurd (cc (pe, gone))
              | inr (fd, pe) ↦ inr (
                ap (λ (v : Event). v.fd) (update-other p.events a _ b ne) ∙ fd,
                ap (λ (v : Event). v.poll_event) (update-other p.events a _ b ne) ∙ pe,
              )
            ];
          },
          same,
          λ x x_ne. update-other p.events a _ x x_ne,
        )
  ]

  At-Frame : {p p' : Poll} {n ref : ℕ} → Frame a n ref p p' → Open p a n ref → At p b → At p' b
  At-Frame s o (inl h) = inl (ap (λ (v : Event). v.poll_event) (s.other_events b ne) ∙ h)
  At-Frame s o (inr (m, r, ob)) =
      let (m_ne, r_ne) = apart-entries ne o ob in inr (m, r, Frame-Open s ne m_ne r_ne ob)

  polled :
      (p : Poll) (n ref : ℕ)
      → IsOurs a b p
      → Open p a n ref
      → Shut a b p (close_event kevent (returns tt) p a)
  polled p n ref o open_a =
      let (p', same, closed, _, _, s) = close_event-Closed kevent ok open_a in
      (
        p',
        same,
        record {
          first = inl closed.no_poll_event;
          second = At-Frame s open_a o.second;
          only = λ m r h. elim (eq-cases m n) [
            | inl e ↦ absurd (cc (h, closed.not_in_table, e))
            | inr m_ne ↦ elim (o.only m r (sym (s.other_entries m m_ne) ∙ h)) [
              | inl (fd, pe) ↦ absurd (m_ne (cc (fd, open_a.has_fd)))
              | inr (fd, pe) ↦ inr (
                ap (λ (v : Event). v.fd) (s.other_events b ne) ∙ fd,
                ap (λ (v : Event). v.poll_event) (s.other_events b ne) ∙ pe,
              )
            ]
          ];
        },
        closed.no_poll_event,
        s.other_events,
      )

  pub close_event-IsOurs :
      (p : Poll) → IsOurs a b p → Shut a b p (close_event kevent (returns tt) p a)
  close_event-IsOurs p o = elim o.first [
    | inl gone ↦ unpolled p o gone
    | inr (n, ref, open_a) ↦ polled p n ref o open_a
  ]

-- Where the kernel takes all changes and the descriptors can be closed, closing both leaves an empty
-- table, whichever of them is still open.
pub close_fds-IsEmptyTable :
    (kevent : List Change → Bool)
    → ((cs : List Change) → kevent cs ≡ true)
    → (p : Poll) (fds : Fds) → fds.control_fd ≢ fds.wakeup_fd
    → IsOurs fds.control_fd fds.wakeup_fd p
    → (p' : Poll) × (close_fds kevent (returns tt) p fds ≡ (p', returns tt)) × IsEmptyTable p'
unfolding close_fds
close_fds-IsEmptyTable kevent ok p fds ne o =
    let (p1, e1, o1, gone1, _) =
      close_event-IsOurs kevent ok fds.control_fd fds.wakeup_fd (λ e. ne (sym e)) p o in
    let (p2, e2, o2, gone2, same) =
      close_event-IsOurs kevent ok fds.wakeup_fd fds.control_fd ne p1 (IsOurs-swap o1) in
    let still_gone : (p2.events fds.control_fd).poll_event ≡ none =
      ap (λ (v : Event). v.poll_event) (same fds.control_fd ne) ∙ gone1 in
    (
      p2,
      rw e1 e2,
      λ n. elim (Option-cases (p2.table n)) [
        | inl empty ↦ empty
        | inr (ref, there) ↦ elim (o2.only n ref there) [
          | inl (fd, pe) ↦ absurd (cc (pe, gone2))
          | inr (fd, pe) ↦ absurd (cc (pe, still_gone))
        ]
      ],
    )
