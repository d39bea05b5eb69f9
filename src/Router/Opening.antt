-- ===== src/Router/Opening.antt =====
-- `Router::open_fds` of torrent/system/ipc/router.cc on a poll that nobody else uses.
use shm_ipc.Base.{
  ℕ, ◌≡◌, ◌≢◌, inl, inr, ◌∙◌, sym, ap, subst, eq-cases, none, some, Bool, true, false, List, arith,
}
use shm_ipc.Base.Outcome.{returns}
use shm_ipc.Poll.{Event, Filter, evfilt_read, Change, Poll, open_and_insert_read, IsEmptyTable}
use shm_ipc.Poll.Listening.{open_event-Open, insert_filter-Open}
use shm_ipc.Poll.Told.{listens, told, Open, Frame, Frame-Open, Frame-trans}
use shm_ipc.Poll.Links.{IsLinked}
use shm_ipc.Poll.Sound.{open_and_insert_read-IsSound}
use shm_ipc.Router.Fds.{Fds, open_fds}
use shm_ipc.Router.Ours.{IsOurs}

open_and_insert_read-Open :
    (kevent : List Change → Bool)
    → ((cs : List Change) → kevent cs ≡ true)
    → (p : Poll) (e n : ℕ) → (p.events e).fd ≡ some n
    → (p.events e).poll_event ≡ none
    → p.table n ≡ none
    → ((f : Filter) → listens false (told p) n f ≡ false)
    → (p' : Poll) × (open_and_insert_read kevent p e ≡ (p', returns tt))
      × Open p' e n p.next_poll_event
      × Frame e n p.next_poll_event p p'
unfolding open_and_insert_read
open_and_insert_read-Open kevent ok p e n fd new free silent =
    let (p1, e1, o1, m1, f1) = open_event-Open p e n fd new free silent in
    let (p2, e2, o2, m2, f2) = insert_filter-Open kevent evfilt_read ok o1 in
    (p2, rw e1 e2, o2, Frame-trans f1 f2)

-- A router that has been constructed, on a poll with an empty table of which the kernel has been told
-- nothing.
pub record IsReady (p : Poll) (fds : Fds) : Type 0 where
  pub control_number : ℕ
  pub has_control : (p.events fds.control_fd).fd ≡ some control_number
  pub wakeup_number : ℕ
  pub has_wakeup : (p.events fds.wakeup_fd).fd ≡ some wakeup_number
  pub other_number : wakeup_number ≢ control_number
  pub other_event : fds.control_fd ≢ fds.wakeup_fd
  pub new_control : (p.events fds.control_fd).poll_event ≡ none
  pub new_wakeup : (p.events fds.wakeup_fd).poll_event ≡ none
  pub empty : IsEmptyTable p
  pub silent : (n : ℕ) (f : Filter) → listens false (told p) n f ≡ false
  pub linked : IsLinked p

-- An open event has a PollEvent that has been made.
made : {p : Poll} {e n ref : ℕ} → IsLinked p → Open p e n ref → ref ≢ p.next_poll_event
made {p} {e} {n} {ref} l o h =
    let none_there : (p.poll_events ref).event ≡ none = l.fresh ref (omega (arith, h)) in
    cc (none_there, o.knows)

-- Where the kernel takes all changes, `open_fds` of such a router returns, and the entries of the table
-- are those of its two descriptors.
pub open_fds-IsOurs :
    (kevent : List Change → Bool)
    → ((cs : List Change) → kevent cs ≡ true)
    → (p : Poll) (fds : Fds) → IsReady p fds
    → (p' : Poll) × (open_fds kevent p fds ≡ (p', returns tt))
      × IsOurs fds.control_fd fds.wakeup_fd p'
unfolding open_fds
open_fds-IsOurs kevent ok p fds r =
    let c = fds.control_fd in
    let w = fds.wakeup_fd in
    let n = r.control_number in
    let m = r.wakeup_number in
    let (p1, e1, o1, f1) =
      open_and_insert_read-Open kevent ok p c n r.has_control r.new_control (r.empty n)
        (r.silent n) in
    let w_ne : w ≢ c = λ e. r.other_event (sym e) in
    let fd_w = ap (λ (v : Event). v.fd) (f1.other_events w w_ne) ∙ r.has_wakeup in
    let new_w = ap (λ (v : Event). v.poll_event) (f1.other_events w w_ne) ∙ r.new_wakeup in
    let (p2, e2, o2, f2) =
      open_and_insert_read-Open kevent ok p1 w m fd_w new_w
        (f1.other_entries m r.other_number ∙ r.empty m)
        (λ f. f1.other_told m f r.other_number ∙ r.silent m f) in
    let l1 : IsLinked p1 =
      subst IsLinked (ap (λ out. out.0) e1)
        (open_and_insert_read-IsSound kevent p c r.linked).linked in
    let oc : Open p2 c n p.next_poll_event =
      Frame-Open f2 r.other_event (λ h. r.other_number (sym h)) (made l1 o1) o1 in
    (
      p2,
      rw e1 e2,
      record {
        first = inr (n, p.next_poll_event, oc);
        second = inr (m, p1.next_poll_event, o2);
        only = λ k ref h. elim (eq-cases k m) [
          | inl e ↦ inr (rw e o2.has_fd, cc (h, o2.in_table, o2.has_poll_event, e))
          | inr k_m ↦ elim (eq-cases k n) [
            | inl e ↦ inl (rw e oc.has_fd, cc (h, oc.in_table, oc.has_poll_event, e))
            | inr k_n ↦ absurd (cc (h, f2.other_entries k k_m, f1.other_entries k k_n, r.empty k))
          ]
        ];
      },
    )
