-- ===== src/Router/Closing.antt =====
-- The descriptors of a router and the links of its poll, in torrent/system/ipc/router.cc.
mod Tests
use shm_ipc.Base.{
  ℕ, ◌≡◌, refl, ◌∙◌, ==_true, inl, inr, Bool, true, false, Option, none, some, List, Option-cases,
  arith,
}
use shm_ipc.Base.Outcome.{Exception, Outcome, returns, throws}
use shm_ipc.Poll.{Change, Poll, update, then_do, remove_and_close, open_and_insert_read}
use shm_ipc.Poll.Links.{IsLinked, Held, is_defined, IsSound, unchanged-IsSound, then_do-IsSound}
use shm_ipc.Poll.Uses.{poll_event-set, set_fd-IsSound}
use shm_ipc.Poll.Sound.{remove_and_close-IsSound, open_and_insert_read-IsSound}
use shm_ipc.Poll.Told.{Open, Frame, update-other}
use shm_ipc.Poll.Closing.{Closed, remove_and_close-Closed}
use shm_ipc.Router.Fds.{Fds, set_fd, open_fds, close_descriptor, close_event, close_fds}

pub open_fds-IsSound :
    (kevent : List Change → Bool) (p : Poll) (fds : Fds)
    → IsLinked p
    → IsSound p (open_fds kevent p fds)
unfolding open_fds
open_fds-IsSound kevent p fds l =
    let s = open_and_insert_read-IsSound kevent p fds.control_fd l in
    then_do-IsSound (open_and_insert_read kevent p fds.control_fd) _ s
      (λ _ _. open_and_insert_read-IsSound kevent _ fds.wakeup_fd s.linked)

close_descriptor-IsSound :
    (o : Outcome (Unit {0})) (e : ℕ) (p : Poll)
    → is_defined o ≡ true
    → IsLinked p
    → IsSound p (close_descriptor o e p)
close_descriptor-IsSound (throws x) e p d l = unchanged-IsSound p (throws x) l d
close_descriptor-IsSound (returns _) e p d l = set_fd-IsSound p e none l

close_event-IsSound :
    (kevent : List Change → Bool) (o : Outcome (Unit {0})) (p : Poll) (e : ℕ)
    → is_defined o ≡ true
    → IsLinked p
    → IsSound p (close_event kevent o p e)
unfolding close_event
close_event-IsSound kevent o p e d l = elim (Option-cases (p.events e).fd) [
  | inl none_open ↦ rw (none_open, close_event) (unchanged-IsSound p (returns tt) l refl)
  | inr (n, fd) ↦ elim (Option-cases (p.events e).poll_event) [
    | inl unpolled ↦ rw (fd, unpolled, close_event) (close_descriptor-IsSound o e p d l)
    | inr (ref, polled) ↦
        let s = remove_and_close-IsSound kevent p e l in
        rw (fd, polled, close_event)
          (then_do-IsSound (remove_and_close kevent p e) _ s
            (λ _ _. close_descriptor-IsSound o e _ d s.linked))
  ]
]

-- So a handler may close the descriptors of the router, as handle_control_closed in main.cc does.
pub close_fds-IsSound :
    (kevent : List Change → Bool) (o : Outcome (Unit {0})) (p : Poll) (fds : Fds)
    → is_defined o ≡ true
    → IsLinked p
    → IsSound p (close_fds kevent o p fds)
unfolding close_fds
close_fds-IsSound kevent o p fds d l =
    let s = close_event-IsSound kevent o p fds.control_fd d l in
    then_do-IsSound (close_event kevent o p fds.control_fd) _ s
      (λ _ _. close_event-IsSound kevent o _ fds.wakeup_fd d s.linked)

-- Where the kernel takes all changes and the descriptor can be closed: closing an open event returns
-- and leaves it closed, with the kernel deaf to its descriptor, and all else as it was; and closing it
-- again changes nothing.
pub close_event-Closed :
    (kevent : List Change → Bool) {p : Poll} {e n ref : ℕ}
    → ((cs : List Change) → kevent cs ≡ true)
    → Open p e n ref
    → (p' : Poll) × (close_event kevent (returns tt) p e ≡ (p', returns tt))
      × Closed e n p'
      × ((p'.events e).fd ≡ none)
      × (close_event kevent (returns tt) p' e ≡ (p', returns tt))
      × Frame e n ref p p'
unfolding close_event
close_event-Closed kevent {p} {e} {n} {ref} ok o =
    let (p1, same, closed, s) = remove_and_close-Closed kevent ok o in
    let gone : ((set_fd p1 e none).events e).fd ≡ none = rw (==_true e e refl) refl in
    (
      set_fd p1 e none,
      rw (o.has_fd, o.has_poll_event, same, close_event) refl,
      record {
        no_poll_event = poll_event-set p1 e none e ∙ closed.no_poll_event;
        not_in_table = closed.not_in_table;
        flushed = closed.flushed;
        deaf = closed.deaf;
      },
      gone,
      rw (gone, close_event) refl,
      record {
        other_events = λ x ne. update-other p1.events e _ x ne ∙ s.other_events x ne;
        other_entries = s.other_entries;
        other_poll_events = s.other_poll_events;
        other_told = s.other_told;
      },
    )
